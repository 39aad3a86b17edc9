-- ===== src/Channels/Resolver.antt =====
-- backend/src/api/channels/resolver.py: the channel that serves a configuration, and the delivery
-- through it.
use kb_partners.Prelude.{String, ◌==◌, [], if◌then◌else◌}
use kb_partners.Config.{Settings}
use kb_partners.Json.{Json, Fields, end, field, str_json, str_field}
use kb_partners.Requests.Models.{api, crm, telegram, max, email, mock}
use kb_partners.Channels.{
  PartnerChannelConfig, DeliveryPayload, Delivery, answered, crashed, HttpRequest, HttpReply, Wire,
  to_channel_config,
}
use kb_partners.Channels.Adapters.Bitrix24
use kb_partners.Channels.Adapters.AmoCrm
use kb_partners.Channels.Adapters.RehomeCrm
use kb_partners.Channels.Adapters.Bot
use kb_partners.Channels.Adapters.Email
use kb_partners.Channels.Adapters.PartnerApi
use kb_partners.Channels.Adapters.Mock

-- `resolver.resolve(config)` and `channel.deliver(payload, to_channel_config(config))`
abbrev pub ChannelResolver : Type 0
ChannelResolver = PartnerChannelConfig → DeliveryPayload → Delivery

-- The world of the resolver: a resilient client for a base URL, the sender of letters, and
-- Python's `repr` of nested values and `str.lower`.
pub record Network : Type 0 where
  pub client : (base_url : String) → HttpRequest → HttpReply
  pub smtp : Email.SmtpSender
  pub repr : Json → String
  pub lower : String → String

abbrev pub wire_to : Network → (base_url : String) → Wire
wire_to net base_url = record { request = net.client base_url; repr = net.repr }

-- `str(config["endpoint"])`: a missing key is a KeyError.
unfoldable pub partner_api : Network → PartnerChannelConfig → DeliveryPayload → Fields → Delivery
unfolding str_json str_field
partner_api net row p end = crashed
partner_api net row p (field key v rest) =
    if key == "endpoint"
    then PartnerApi.deliver (wire_to net (str_json net.repr v))
        (str_field net.repr "auth_token" "" row.config) p (to_channel_config row)
    else partner_api net row p rest

-- Bitrix24 is what every other type of CRM is taken for.
unfoldable pub crm_channel : Network → PartnerChannelConfig → DeliveryPayload → Delivery
unfolding str_field
crm_channel net row p =
    let wire = wire_to net (str_field net.repr "endpoint" "" row.config) in
    let crm_type = net.lower (str_field net.repr "crm_type" "" row.config) in
    if crm_type == "rehome"
    then RehomeCrm.deliver wire p (to_channel_config row)
    else if crm_type == "amocrm"
    then AmoCrm.deliver wire p (to_channel_config row)
    else Bitrix24.deliver wire p (to_channel_config row)

-- `HttpChannelResolver.resolve`, and the delivery.
unfoldable pub resolve_http : Settings → Network → ChannelResolver
unfolding partner_api crm_channel to_channel_config
resolve_http settings net row p = elim row.channel_type [
  | mock ↦ answered (Mock.deliver p []).0
  | api ↦ partner_api net row p row.config
  | telegram ↦ Bot.deliver (wire_to net settings.telegram_api_base_url) p (to_channel_config row)
  | max ↦ Bot.deliver (wire_to net settings.max_api_base_url) p (to_channel_config row)
  | email ↦ Email.deliver net.repr settings net.smtp p (to_channel_config row)
  | crm ↦ crm_channel net row p
]
