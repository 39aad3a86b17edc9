-- ===== src/Channels/Adapters/Mock.antt =====
-- backend/src/api/channels/adapters/mock.py: deliveries that are kept in memory, for development and
-- tests.
use Prim.Native.String.{◌++◌}
use kb_partners.Prelude.{true, ◌||◌, ◌==◌, String, Option, none, some, List, [], ◌∷◌, if◌then◌else◌}
use kb_partners.Prelude
use kb_partners.Json.{Json, boolean, text, Fields, end, field, get_field, is_null, str_json}
use kb_partners.Requests.Models.{DeliveryOutcome, sent, delivered, failed, ack}
use kb_partners.Channels.{DeliveryPayload, DeliveryResult, StatusUpdate, Health, healthy}

-- The answer, and the list of what was delivered, the new payload at its end.
unfoldable pub deliver :
    DeliveryPayload → List DeliveryPayload → DeliveryResult × List DeliveryPayload
deliver p delivered_before = (
  record {
    outcome = sent;
    provider_response = field "mock" (boolean true) end;
    external_ref = some ("mock:" ++ p.request_id);
  },
  Prelude.◌++◌ delivered_before (p ∷ []),
)

-- `DeliveryOutcome(outcome)`: any other value is a ValueError.
unfoldable pub outcome_of_value : Json → Option DeliveryOutcome
outcome_of_value (text s) =
    if s == "SENT"
    then some sent
    else if s == "DELIVERED"
    then some delivered
    else if s == "FAILED"
    then some failed
    else if s == "ACK"
    then some ack
    else none
outcome_of_value _ = none

abbrev pub update_of : String → Fields → Option DeliveryOutcome → Option StatusUpdate
update_of ref raw none = none
update_of ref raw (some outcome) = some (record { request_ref = ref; outcome = outcome; raw = raw })

unfoldable pub parse_inbound : (repr : Json → String) → Fields → Option StatusUpdate
unfolding get_field str_json outcome_of_value
parse_inbound repr payload =
    let ref = get_field "request_ref" payload in
    let outcome = get_field "outcome" payload in
    if is_null ref || is_null outcome
    then none
    else update_of (str_json repr ref) payload (outcome_of_value outcome)

unfoldable pub healthcheck : Health
healthcheck = record { status = healthy; detail = none }
