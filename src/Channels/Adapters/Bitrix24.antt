-- ===== src/Channels/Adapters/Bitrix24.antt =====
-- `Bitrix24Channel` of backend/src/api/channels/adapters/crm.py: a lead through an incoming webhook,
-- whose path holds the secret.
use Prim.Native.String.{◌++◌}
use kb_partners.Prelude.{Option, String, none, some, [], is_empty, if◌then◌else◌}
use kb_partners.Json.{text, object, Fields, end, field, str_field}
use kb_partners.Channels.{
  ChannelConfig, DeliveryPayload, Delivery, answered, Health, unhealthy, HttpRequest, Wire,
}
use kb_partners.Channels.Adapters.{refused, delivery_of, health_of}
use kb_partners.Channels.Adapters.Crm.{lead_title, lead_comment, strip_slashes, bitrix_ref}

abbrev pub webhook_of : Wire → ChannelConfig → String
unfolding strip_slashes str_field
webhook_of wire c = strip_slashes (str_field wire.repr "webhook_path" "" c.config)

abbrev pub lead_body : DeliveryPayload → Fields
unfolding lead_title lead_comment
lead_body p =
    field "fields"
      (object (field "TITLE" (text (lead_title p)) (field "COMMENTS" (text (lead_comment p)) end)))
      (field "params" (object (field "REGISTER_SONET_EVENT" (text "N") end)) end)

unfoldable pub lead_request : (webhook : String) → DeliveryPayload → HttpRequest
lead_request webhook p = record {
  verb = "POST";
  path = webhook ++ "/crm.lead.add.json";
  headers = [];
  body = some (object (lead_body p));
}

unfoldable pub deliver : Wire → DeliveryPayload → ChannelConfig → Delivery
unfolding lead_request bitrix_ref refused delivery_of
deliver wire p c =
    let webhook = webhook_of wire c in
    if is_empty webhook
    then answered (refused "missing_webhook")
    else delivery_of (bitrix_ref wire.repr) (wire.request (lead_request webhook p))

unfoldable pub healthcheck : Wire → ChannelConfig → Option Health
unfolding health_of
healthcheck wire c =
    let webhook = webhook_of wire c in
    if is_empty webhook
    then some (record { status = unhealthy; detail = some "missing webhook_path" })
    else health_of (
        wire.request
          (record { verb = "GET"; path = webhook ++ "/profile.json"; headers = []; body = none }))
