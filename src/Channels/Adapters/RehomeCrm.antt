-- ===== src/Channels/Adapters/RehomeCrm.antt =====
-- `RehomeCrmChannel` of backend/src/api/channels/adapters/crm.py: a ticket in our own CRM, under the
-- key of the service.
use kb_partners.Prelude.{String, Option, none, some, [], ◌∷◌, is_empty, if◌then◌else◌}
use kb_partners.Json.{text, object, Fields, end, field, str_field}
use kb_partners.Channels.{
  ChannelConfig, DeliveryPayload, Delivery, answered, Health, healthy, unhealthy, HttpRequest, Wire,
}
use kb_partners.Channels.Adapters.{refused, delivery_of}
use kb_partners.Channels.Adapters.Crm.{lead_title, rehome_ref}

abbrev pub service_key_of : Wire → ChannelConfig → String
unfolding str_field
service_key_of wire c = str_field wire.repr "service_key" "" c.config

-- `if payload.x: body[key] = payload.x`
abbrev pub optional_field : String → Option String → Fields → Fields
optional_field key none rest = rest
optional_field key (some s) rest = if is_empty s then rest else field key (text s) rest

unfoldable pub ticket_request : (service_key : String) → DeliveryPayload → HttpRequest
unfolding lead_title
ticket_request service_key p = record {
  verb = "POST";
  path = "/api/v1/internal/crm/services/tickets";
  headers = ("X-Internal-Service-Key", service_key) ∷ [];
  body = some (
      object (
        field "external_ref" (text p.request_id) (
          field "number" (text p.number) (
            field "category" (text p.category) (
              field "subject" (text (lead_title p)) (
                field "description" (text p.summary) (
                  optional_field "premises_id" p.premises_id
                    (optional_field "booking_id" p.booking_id end))))))));
}

unfoldable pub deliver : Wire → DeliveryPayload → ChannelConfig → Delivery
unfolding ticket_request rehome_ref refused delivery_of
deliver wire p c =
    let service_key = service_key_of wire c in
    if is_empty service_key
    then answered (refused "missing_service_key")
    else delivery_of (rehome_ref wire.repr) (wire.request (ticket_request service_key p))

-- No request is made.
unfoldable pub healthcheck : Wire → ChannelConfig → Health
healthcheck wire c =
    if is_empty (service_key_of wire c)
    then record { status = unhealthy; detail = some "missing_service_key" }
    else record { status = healthy; detail = none }
