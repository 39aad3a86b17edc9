-- ===== src/Channels/Adapters/AmoCrm.antt =====
-- `AmoCrmChannel` of backend/src/api/channels/adapters/crm.py: a lead over REST, under a bearer token.
use Prim.Native.String.{◌++◌}
use kb_partners.Prelude.{Option, String, none, some, [], ◌∷◌, is_empty, if◌then◌else◌}
use kb_partners.Json.{text, array, object, nil, cons, end, field, str_field}
use kb_partners.Channels.{
  ChannelConfig, DeliveryPayload, Delivery, answered, Health, unhealthy, HttpRequest, Wire,
}
use kb_partners.Channels.Adapters.{refused, delivery_of, health_of}
use kb_partners.Channels.Adapters.Crm.{lead_title}

abbrev pub token_of : Wire → ChannelConfig → String
unfolding str_field
token_of wire c = str_field wire.repr "access_token" "" c.config

unfoldable pub lead_request : (token : String) → DeliveryPayload → HttpRequest
unfolding lead_title
lead_request token p = record {
  verb = "POST";
  path = "/api/v4/leads";
  headers = ("Authorization", "Bearer " ++ token) ∷ [];
  body = some (
      array (
        cons
          (object (
            field "name" (text (lead_title p)) (
              field "_embedded"
                (object (
                  field "tags" (array (cons (object (field "name" (text p.category) end)) nil))
                    end))
                end)))
          nil));
}

unfoldable pub deliver : Wire → DeliveryPayload → ChannelConfig → Delivery
unfolding lead_request refused delivery_of
deliver wire p c =
    let token = token_of wire c in
    if is_empty token
    then answered (refused "missing_token")
    else delivery_of (λ body. none) (wire.request (lead_request token p))

unfoldable pub healthcheck : Wire → ChannelConfig → Option Health
unfolding health_of
healthcheck wire c =
    let token = token_of wire c in
    if is_empty token
    then some (record { status = unhealthy; detail = some "missing access_token" })
    else health_of (
        wire.request (record {
          verb = "GET";
          path = "/api/v4/account";
          headers = ("Authorization", "Bearer " ++ token) ∷ [];
          body = none;
        }))
