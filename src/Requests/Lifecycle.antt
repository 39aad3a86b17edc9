-- ===== src/Requests/Lifecycle.antt =====
-- `apply_transition` of backend/src/api/requests/service.py and `record_transition` of metrics.py:
-- the one way in which the status of a request changes.
pub mod Emits
pub mod Audit
pub mod Journal
pub mod Safe
pub mod Ends
pub mod Leads
use kb_partners.Prelude.{
  ℕ, Bool, true, false, String, Option, none, some, List, [], ◌∷◌, ◌++◌, Effect, ◌>>=◌, ◌>>◌, get,
  modify, sub_ℕ, ℤ,
}
use kb_partners.Auth.{Principal, Uuid, actor_of}
use kb_partners.Config.{Env}
use kb_partners.Requests.Enums.{
  RequestStatus, dispatched, accepted, done, accepted_by_user, paid, HistoryAction, status_changed,
  value,
}
use kb_partners.Requests.Fsm.{ensure_transition}
use kb_partners.Requests.Models.{
  ServiceRequest, RequestHistory, Observation, transitioned, ttfd, tta, ttr,
}
use kb_partners.Requests.Store.{Tables, Work, add_history, observe}
use kb_partners.Webhooks.{emit_event, status_event}
use kb_partners.Notifications.{emit_notifications}
use kb_partners.Concierge.{emit_concierge_status_update}

-- `_STATUS_TIMESTAMP.get(target)` and the `setattr`.
unfoldable pub set_timestamp : RequestStatus → ℕ → ServiceRequest → ServiceRequest
set_timestamp dispatched at r = record r { dispatched_at = some at }
set_timestamp accepted at r = record r { accepted_at = some at }
set_timestamp done at r = record r { done_at = some at }
set_timestamp accepted_by_user at r = record r { accepted_by_user_at = some at }
set_timestamp paid at r = record r { paid_at = some at }
set_timestamp _ at r = r

-- The duration of a stage, if its beginning is known.
abbrev since : (ℤ → Observation) → ℕ → Option ℕ → Tables → Tables
since kind at none t = t
since kind at (some from) t = observe (kind (sub_ℕ at from)) t

-- The branches of `record_transition` on the target.
unfoldable pub observe_stage :
    RequestStatus → (at : ℕ) → (created_at dispatched_at accepted_at : Option ℕ) → Tables → Tables
unfolding observe
observe_stage dispatched at created_at dispatched_at accepted_at t = since ttfd at created_at t
observe_stage accepted at created_at dispatched_at accepted_at t = since tta at dispatched_at t
observe_stage done at created_at dispatched_at accepted_at t = since ttr at accepted_at t
observe_stage _ at created_at dispatched_at accepted_at t = t

unfoldable pub record_transition :
    RequestStatus → (at : ℕ) → (created_at dispatched_at accepted_at : Option ℕ) → Tables → Tables
unfolding observe_stage
record_transition target at created_at dispatched_at accepted_at t =
    observe_stage target at created_at dispatched_at accepted_at (observe (transitioned target) t)

-- The audit row of a transition.
unfoldable pub transition_row : Env → Principal → ServiceRequest → RequestStatus → RequestHistory
transition_row env p r target = record {
  request_id = r.id;
  actor_id = actor_of p;
  action = status_changed;
  from_value = some (value r.status);
  to_value = some (value target);
  ts = env.now;
}

-- The request after the transition.
unfoldable pub moved : Env → ServiceRequest → RequestStatus → ServiceRequest
unfolding set_timestamp
moved env r target = set_timestamp target env.now (record r { status = target })

-- What the transition tells others, in the order of the calls.
unfoldable pub announce : Env → ServiceRequest → RequestStatus → Tables → Tables
announce env r target t =
    let measured =
      record_transition target env.now (some r.created_at) r.dispatched_at r.accepted_at t in
    let evented = emit_event env (status_event target) r.id r.number target none measured in
    let notified =
      emit_notifications env r.id r.number target r.requester_id r.partner_id evented in
    emit_concierge_status_update env r.id r.number target r.source_ref notified

-- The effect of an allowed transition on the unit of work.
unfoldable pub enter : Env → Principal → RequestStatus → Work → Work
unfolding moved
enter env p target w =
    let request = moved env w.request target in
    record {
      request = request;
      tables =
          announce env request target
            (add_history (transition_row env p w.request target) w.tables);
    }

unfoldable pub apply_transition : Env → Principal → RequestStatus → Effect Work Unit
unfolding ensure_transition
apply_transition env p target = do
  w ← get
  ensure_transition w.request.status target
  modify (enter env p target)
