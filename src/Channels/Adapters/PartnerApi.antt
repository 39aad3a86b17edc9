-- ===== src/Channels/Adapters/PartnerApi.antt =====
-- backend/src/api/channels/adapters/partner_api.py: an order over the partner's own API.
use Prim.Native.String.{◌++◌}
use kb_partners.Prelude.{String, Option, none, some, List, [], ◌∷◌, if◌then◌else◌}
use kb_partners.Json.{
  Json, text, array, object, Items, nil, cons, Fields, end, field, get_field, get_key, or_value,
  is_null, str_json, str_field, text_fields,
}
use kb_partners.Channels.{
  ChannelConfig, DeliveryPayload, Delivery, StatusUpdate, Health, HttpRequest, Wire,
}
use kb_partners.Channels.Adapters.{delivery_of, health_of, read_status}

abbrev pub text_items : List String → Items
text_items [] = nil
text_items (s ∷ rest) = cons (text s) (text_items rest)

unfoldable pub order_request : (path token : String) → DeliveryPayload → HttpRequest
unfolding text_fields
order_request path token p = record {
  verb = "POST";
  path = path;
  headers = ("Authorization", "Bearer " ++ token) ∷ ("Idempotency-Key", p.idempotency_key) ∷ [];
  body = some (
      object (
        field "request_id" (text p.request_id) (
          field "number" (text p.number) (
            field "category" (text p.category) (
              field "summary" (text p.summary) (
                field "params" (object (text_fields p.params))
                  (field "attachments" (array (text_items p.attachments)) end)))))));
}

-- `_extract_ref`
unfoldable pub extract_ref : (repr : Json → String) → Option Json → Option String
unfolding get_key str_json
extract_ref repr none = none
extract_ref repr (some body) =
    let ref = get_key "external_ref" body in if is_null ref then none else some (str_json repr ref)

-- The token is that of the provider.
unfoldable pub deliver : Wire → (token : String) → DeliveryPayload → ChannelConfig → Delivery
unfolding order_request extract_ref str_field delivery_of
deliver wire token p c =
    delivery_of (extract_ref wire.repr)
      (wire.request (order_request (str_field wire.repr "deliver_path" "/orders" c.config) token p))

-- Here the partner's own reference goes first.
unfoldable pub parse_inbound : (repr : Json → String) → Fields → Option StatusUpdate
unfolding read_status or_value get_field
parse_inbound repr payload =
    read_status repr (or_value (get_field "external_ref" payload) (get_field "request_ref" payload))
      (get_field "status" payload) payload

unfoldable pub healthcheck : Wire → ChannelConfig → Option Health
unfolding health_of str_field
healthcheck wire c = health_of (
    wire.request (record {
      verb = "GET";
      path = str_field wire.repr "health_path" "/health" c.config;
      headers = [];
      body = none;
    }))
