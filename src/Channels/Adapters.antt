-- ===== src/Channels/Adapters.antt =====
-- What the adapters of backend/src/api/channels/adapters share: the answer to a delivery, the
-- health that a probe shows, and the reading of a partner's status.
pub mod Crm
pub mod Bitrix24
pub mod AmoCrm
pub mod RehomeCrm
pub mod Bot
pub mod Email
pub mod PartnerApi
pub mod Mock
use Prim.Native.String.{◌++◌}
use kb_partners.Prelude.{
  ℕ, pos, Bool, true, false, String, Option, none, some, leb, lower_is, str_int, is_empty,
  if◌then◌else◌,
}
use kb_partners.Json.{
  Json, null, number, text, Fields, end, field, get_field, or_value, is_null, str_json,
}
use kb_partners.Requests.Models.{DeliveryOutcome, sent, delivered, failed, ack}
use kb_partners.Channels.{
  DeliveryResult, StatusUpdate, Health, healthy, degraded, unhealthy, HttpReply, replied,
  external_error, passed_error, Delivery, answered, crashed,
}

-- A failed delivery with the reason.
unfoldable pub refused : (reason : String) → DeliveryResult
refused reason = record {
  outcome = failed;
  provider_response = field "error" (text reason) end;
  external_ref = none;
}

-- The result that follows the request to the partner; `ref` reads the reference in the answer.
unfoldable pub delivery_of : (ref : Option Json → Option String) → HttpReply → Delivery
unfolding refused
delivery_of ref passed_error = crashed
delivery_of ref (external_error class_name) = answered (refused class_name)
delivery_of ref (replied code body) = answered (record {
  outcome = if leb 400 code then failed else sent;
  provider_response = field "status" (number (pos code)) end;
  external_ref = if leb 400 code then none else ref body;
})

-- The health that follows the probe, unless an exception passes.
unfoldable pub health_of : HttpReply → Option Health
health_of passed_error = none
health_of (external_error class_name) =
    some (record { status = unhealthy; detail = some "unreachable" })
health_of (replied code body) =
    if leb 400 code
    then some (record { status = degraded; detail = some ("status=" ++ str_int code) })
    else some (record { status = healthy; detail = none })

-- `_INBOUND_STATUS.get(status.lower())`
unfoldable pub inbound_status : String → Option DeliveryOutcome
inbound_status s =
    if lower_is s "accepted"
    then some ack
    else if lower_is s "delivered"
    then some delivered
    else if lower_is s "rejected"
    then some failed
    else if lower_is s "failed"
    then some failed
    else none

abbrev update_of : String → Fields → Option DeliveryOutcome → Option StatusUpdate
update_of ref raw none = none
update_of ref raw (some outcome) = some (record { request_ref = ref; outcome = outcome; raw = raw })

-- The status is a text, and the reference is not null.
unfoldable pub read_status :
    (repr : Json → String) → (ref status : Json) → Fields → Option StatusUpdate
unfolding inbound_status str_json
read_status repr ref (text status) raw =
    if is_null ref then none else update_of (str_json repr ref) raw (inbound_status status)
read_status repr ref _ raw = none

-- `_parse_inbound` of crm.py, and `parse_inbound` of the bots and of mail.
unfoldable pub parse_inbound : (repr : Json → String) → Fields → Option StatusUpdate
unfolding read_status or_value get_field
parse_inbound repr payload =
    read_status repr (or_value (get_field "request_ref" payload) (get_field "external_ref" payload))
      (get_field "status" payload) payload
