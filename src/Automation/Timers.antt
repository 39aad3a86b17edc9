-- ===== src/Automation/Timers.antt =====
-- backend/src/api/automation/timers.py: a partner that does not accept in time, or that refuses, is
-- followed by the next one of the chain.
pub mod Sound
pub mod Chain
pub mod Overdue
use kb_partners.Prelude.{
  ℕ, suc, ◌+◌, Bool, true, false, ◌&&◌, not, String, Option, none, some, List, [], ◌∷◌, ltb, leb,
  take, select, sort_by, or_else, if◌then◌else◌, Result, ok, err, Effect, pure, get, ◌>>=◌, ◌>>◌,
}
use kb_partners.Errors.{Problem}
use kb_partners.Auth.{Principal, system_principal, sla_actor_id}
use kb_partners.Config.{Env}
use kb_partners.Sla.Engine.{SlaState, breached, evaluate, accept}
use kb_partners.Requests.Enums.{RequestStatus, matching, dispatched, failed_dispatch, is}
use kb_partners.Requests.Models.{ServiceRequest, OutboxMessage, Sla}
use kb_partners.Requests.Store.{Db, Work, find_request, open_work, set_request, set_tables}
use kb_partners.Requests.Lifecycle.{apply_transition}
use kb_partners.Requests.Partner.{partner_fallback_kind}
use kb_partners.Notifications.{emit_operator_escalation}
use kb_partners.Channels.Dispatch.{execute_dispatch}
use kb_partners.Channels.Drain.{
  Done, DispatchDeps, loaded_for, flush_row, then_done, end_session, drain_batch,
}

abbrev pub sla_timer_principal : Principal
sla_timer_principal = system_principal sla_actor_id

-- The outcome that a fallback is logged under.
pub data Fallback : Type 0 where
  exhausted redispatched failed_dispatch_outcome : Fallback

-- `_next_partner`: the head of the chain becomes the partner.
unfoldable pub take_partner : String → List String → ServiceRequest → ServiceRequest
take_partner next rest r = record r { partner_id = some next; fallback_chain = some rest }

-- `redispatch_to_next`, by the chain of the request.
unfoldable pub redispatch_along : Env → DispatchDeps → List String → Effect Work Fallback
unfolding take_partner execute_dispatch
redispatch_along env d [] = do
  set_tables (λ r.
      emit_operator_escalation env r.id r.number r.status
        "Fallback-цепочка исчерпана — требуется оператор")
  pure exhausted
redispatch_along env d (next ∷ rest) = do
  set_request (take_partner next rest)
  apply_transition env sla_timer_principal RequestStatus.assigned
  apply_transition env sla_timer_principal dispatched
  delivered ← execute_dispatch env d.resolver d.policy d.configs
  pure (if delivered then redispatched else failed_dispatch_outcome)

unfoldable pub redispatch_to_next : Env → DispatchDeps → Effect Work Fallback
unfolding redispatch_along
redispatch_to_next env d = do w ← get; redispatch_along env d (or_else w.request.fallback_chain [])

-- `run_accept_timeout_fallback`, by the chain of the request.
unfoldable pub fall_back_along : Env → DispatchDeps → List String → Effect Work Fallback
unfolding redispatch_to_next
fall_back_along env d [] = do
  apply_transition env sla_timer_principal failed_dispatch
  pure failed_dispatch_outcome
fall_back_along env d (next ∷ rest) = do
  apply_transition env sla_timer_principal matching
  redispatch_to_next env d

unfoldable pub run_accept_timeout_fallback : Env → DispatchDeps → Effect Work Fallback
unfolding fall_back_along
run_accept_timeout_fallback env d = do
  w ← get
  fall_back_along env d (or_else w.request.fallback_chain [])

-- The raw deadline of the acceptance.
abbrev pub accept_deadline_of : Option Sla → Option ℕ
accept_deadline_of none = none
accept_deadline_of (some sla) = sla.accept_deadline

abbrev pub overdue : ℕ → Option ℕ → Bool
overdue now none = false
overdue now (some deadline) = ltb deadline now

abbrev pub deadline_le : Option ℕ → Option ℕ → Bool
deadline_le none b = true
deadline_le (some a) none = false
deadline_le (some a) (some b) = leb a b

-- `RequestRepository.list_accept_overdue`; no row is locked by another scan.
unfoldable pub list_accept_overdue : (now limit : ℕ) → List ServiceRequest → List ServiceRequest
list_accept_overdue now limit rows = take limit (
    sort_by (λ a b. deadline_le (accept_deadline_of a.sla) (accept_deadline_of b.sla))
      (select (λ r. is r.status dispatched && overdue now (accept_deadline_of r.sla)) rows))

abbrev pub is_breached : SlaState → Bool
is_breached breached = true
is_breached _ = false

-- One round of the scan, on the session's object for a candidate: whether it fell back.
unfoldable pub scan_row : Env → DispatchDeps → Option ServiceRequest → Db → Result Bool × Db
unfolding run_accept_timeout_fallback flush_row open_work evaluate
scan_row env d none db = (ok false, db)
scan_row env d (some r) db =
    if is_breached (evaluate d.policy r.sla accept env.now)
    then flush_row ((run_accept_timeout_fallback env d >> pure true) (open_work r db)) db
    else (ok false, db)

-- The loop of the scan: an exception ends it. The number counts the requests that fell back.
unfoldable pub scan_each : Env → DispatchDeps → List ServiceRequest → ℕ → Db → Result ℕ × Db
unfolding scan_row find_request
scan_each env d [] processed db = (ok processed, db)
scan_each env d (r ∷ rest) processed db =
    let (end, after) = scan_row env d (find_request r.id db) db in
    elim end [
      | ok fell_back ↦ scan_each env d rest (if fell_back then suc processed else processed) after
      | err p ↦ (err p, after)
    ]

unfoldable pub scan_accept_timeouts : Env → DispatchDeps → Db → Result ℕ × Db
unfolding scan_each list_accept_overdue end_session
scan_accept_timeouts env d db =
    if env.automation_time_based_enabled
    then end_session
        (scan_each env d (list_accept_overdue env.now env.outbox_batch_size db.requests) 0 db) db
    else (ok 0, db)

-- A request that is no longer in MATCHING is left alone.
unfoldable pub fall_back_row : Env → DispatchDeps → Option ServiceRequest → Db → Done × Db
unfolding redispatch_to_next flush_row open_work
fall_back_row env d none db = (ok tt, db)
fall_back_row env d (some r) db =
    if is r.status matching
    then flush_row ((redispatch_to_next env d >> pure tt) (open_work r db)) db
    else (ok tt, db)

-- `_process_partner_fallback`, and the end of the message.
unfoldable pub process_partner_fallback : Env → DispatchDeps → OutboxMessage → Db → Done × Db
unfolding fall_back_row loaded_for then_done
process_partner_fallback env d m db = then_done env m (fall_back_row env d (loaded_for m db) db)

unfoldable pub drain_partner_fallback_batch : Env → (Problem → String) → DispatchDeps → Db → ℕ × Db
unfolding drain_batch process_partner_fallback
drain_partner_fallback_batch env error_text d =
    drain_batch env error_text partner_fallback_kind env.outbox_visibility_timeout_seconds
      (process_partner_fallback env d)
