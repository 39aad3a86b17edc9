-- ===== src/Webhooks.antt =====
-- backend/src/api/webhooks/emitter.py: domain events, put into the outbox.
use kb_partners.Prelude.{String, Option, none, some, List, [], ◌∷◌, is_empty, if◌then◌else◌}
use Prim.Native.String.{◌++◌ as append}
use kb_partners.Auth.{Uuid, str_uuid}
use kb_partners.Config.{Env}
use kb_partners.Requests.Enums.{
  RequestStatus, needs_review, dispatched, failed_dispatch, accepted, in_progress, done,
  accepted_by_user, dispute, paid, cancelled, value, lower_value,
}
use kb_partners.Requests.Store.{Tables}
use kb_partners.Outbox.{enqueue}

abbrev pub webhook_kind : String
webhook_kind = "webhook"

-- `_STATUS_EVENT.get(status, f"request.{status.value.lower()}")`
unfoldable pub status_event : RequestStatus → String
unfolding lower_value
status_event RequestStatus.classified = "request.classified"
status_event needs_review = "request.needs_review"
status_event RequestStatus.assigned = "request.assigned"
status_event dispatched = "request.dispatched"
status_event failed_dispatch = "request.dispatch_failed"
status_event accepted = "request.accepted_by_partner"
status_event in_progress = "request.in_progress"
status_event done = "request.done"
status_event accepted_by_user = "request.accepted_by_user"
status_event dispute = "request.dispute_opened"
status_event paid = "request.paid"
status_event cancelled = "request.cancelled"
status_event status = append "request." (lower_value status)

-- The optional key of the payload (the date as its ISO text).
abbrev pub scheduled_entry : Option String → List (String × Option String)
scheduled_entry none = []
scheduled_entry (some at) = ("scheduled_at", some at) ∷ []

unfoldable pub emit_event :
    Env
    → (event : String) (request_id : Uuid) (number : String) → RequestStatus
    → (scheduled_at : Option String) → Tables
    → Tables
unfolding enqueue value
emit_event env event request_id number status scheduled_at t =
    if is_empty env.webhook_url
    then t
    else enqueue env webhook_kind
        (("event", some event)
          ∷ ("request_id", some (str_uuid request_id))
          ∷ ("number", some number)
          ∷ ("status", some (value status))
          ∷ scheduled_entry scheduled_at)
        t
