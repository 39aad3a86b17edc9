-- ===== src/Automation/Timers/Sound.antt =====
-- The timers keep the database sound.
use kb_partners.Prelude.{
  ℕ, suc, String, ◌≡◌, refl, Bool, true, false, Option, none, some, List, [], ◌∷◌, if◌then◌else◌,
  Result, ok, err, find_first-All, ◌==◌, pure, ◌>>◌,
}
use kb_partners.Errors.{Problem}
use kb_partners.Config.{Env}
use kb_partners.Sla.Engine.{evaluate, accept}
use kb_partners.Requests.Models.{ServiceRequest, OutboxMessage}
use kb_partners.Requests.Enums.{matching, is}
use kb_partners.Requests.Store.{Db, Tables, find_request, open_work}
use kb_partners.Requests.Lifecycle.Safe.{Safe, IsSound, Current, safe_rules}
use kb_partners.Notifications.{emit_operator_escalation}
use kb_partners.Requests.Lifecycle.Emits.{Emits-emit_operator_escalation}
use kb_partners.Channels.Dispatch.Sound.{Safe-execute_dispatch}
use kb_partners.Channels.Drain.{DispatchDeps, loaded_for, flush_row, end_session}
use kb_partners.Channels.Drain.Sound.{
  flush_row-IsSound, then_done-IsSound, end_session-IsSound, loaded_for-Current,
  drain_batch-IsSound,
}
use kb_partners.Automation.Timers.{
  take_partner, redispatch_along, redispatch_to_next, fall_back_along, run_accept_timeout_fallback,
  list_accept_overdue, is_breached, scan_row, scan_each, scan_accept_timeouts, fall_back_row,
  process_partner_fallback, drain_partner_fallback_batch,
}

escalation_keeps :
    (env : Env) (summary : String) (r : ServiceRequest) (t : Tables)
    → (emit_operator_escalation env r.id r.number r.status summary t).history ≡ t.history
escalation_keeps env summary r t =
    (Emits-emit_operator_escalation env r.id r.number r.status summary t).history

partner_keeps :
    (next : String) (rest : List String) (r : ServiceRequest)
    → ((take_partner next rest r).id ≡ r.id) × ((take_partner next rest r).status ≡ r.status)
unfolding take_partner
partner_keeps next rest r = (refl, refl)

Safe-redispatch_along :
    (env : Env) (d : DispatchDeps) (chain : List String) → Safe (redispatch_along env d chain)
unfolding redispatch_along
Safe-redispatch_along env d [] = search (safe_rules, escalation_keeps) depth 12
Safe-redispatch_along env d (next ∷ rest) =
    search (safe_rules, partner_keeps, Safe-execute_dispatch) depth 16

pub Safe-redispatch_to_next : (env : Env) (d : DispatchDeps) → Safe (redispatch_to_next env d)
unfolding redispatch_to_next
Safe-redispatch_to_next env d = search (safe_rules, Safe-redispatch_along)

Safe-fall_back_along :
    (env : Env) (d : DispatchDeps) (chain : List String) → Safe (fall_back_along env d chain)
unfolding fall_back_along
Safe-fall_back_along env d [] = search safe_rules depth 12
Safe-fall_back_along env d (next ∷ rest) = search (safe_rules, Safe-redispatch_to_next) depth 12

Safe-run_accept_timeout_fallback :
    (env : Env) (d : DispatchDeps) → Safe (run_accept_timeout_fallback env d)
unfolding run_accept_timeout_fallback
Safe-run_accept_timeout_fallback env d = search (safe_rules, Safe-fall_back_along)

fall_back_row-IsSound :
    (env : Env) (d : DispatchDeps) (loaded : Option ServiceRequest) (db : Db)
    → IsSound db
    → ((r : ServiceRequest) → loaded ≡ some r → Current db r)
    → IsSound (fall_back_row env d loaded db).1
unfolding fall_back_row
fall_back_row-IsSound env d none db s now = s
fall_back_row-IsSound env d (some r) db s now = by_status (is r.status matching)
  where
    by_status :
        (b : Bool)
        → IsSound
            (if b
              then flush_row ((redispatch_to_next env d >> pure tt) (open_work r db)) db
              else (ok tt, db)).1
    by_status true =
        flush_row-IsSound (redispatch_to_next env d >> pure tt) r db
          (search (safe_rules, Safe-redispatch_to_next)) s (now r refl)
    by_status false = s

process_partner_fallback-IsSound :
    (env : Env) (d : DispatchDeps) (m : OutboxMessage) (db : Db)
    → IsSound db
    → IsSound (process_partner_fallback env d m db).1
unfolding process_partner_fallback
process_partner_fallback-IsSound env d m db s =
    let end = fall_back_row env d (loaded_for m db) db in
    then_done-IsSound env m end.0 end.1
      (fall_back_row-IsSound env d (loaded_for m db) db s (λ r. loaded_for-Current m db r s))

pub drain_partner_fallback_batch-IsSound :
    (env : Env) (error_text : Problem → String) (d : DispatchDeps) (db : Db)
    → IsSound db
    → IsSound (drain_partner_fallback_batch env error_text d db).1
unfolding drain_partner_fallback_batch
drain_partner_fallback_batch-IsSound env error_text d =
    drain_batch-IsSound env error_text _ _ (process_partner_fallback env d)
      (process_partner_fallback-IsSound env d)

scan_row-IsSound :
    (env : Env) (d : DispatchDeps) (loaded : Option ServiceRequest) (db : Db)
    → IsSound db
    → ((r : ServiceRequest) → loaded ≡ some r → Current db r)
    → IsSound (scan_row env d loaded db).1
unfolding scan_row
scan_row-IsSound env d none db s now = s
scan_row-IsSound env d (some r) db s now =
    by_state (is_breached (evaluate d.policy r.sla accept env.now))
  where
    by_state :
        (b : Bool)
        → IsSound
            (if b
              then flush_row ((run_accept_timeout_fallback env d >> pure true) (open_work r db)) db
              else (ok false, db)).1
    by_state true =
        flush_row-IsSound (run_accept_timeout_fallback env d >> pure true) r db
          (search (safe_rules, Safe-run_accept_timeout_fallback)) s (now r refl)
    by_state false = s

scan_each-IsSound :
    (env : Env) (d : DispatchDeps) (rows : List ServiceRequest) (processed : ℕ) (db : Db)
    → IsSound db
    → IsSound (scan_each env d rows processed db).1
unfolding scan_each find_request
scan_each-IsSound env d [] processed db s = s
scan_each-IsSound env d (r ∷ rest) processed db s =
    let step = scan_row env d (find_request r.id db) db in
    onward step.0 step.1
      (scan_row-IsSound env d (find_request r.id db) db s
        (λ x found. find_first-All (Current db) (λ y. y.id == r.id) db.requests x s.current found))
      (λ n after h. scan_each-IsSound env d rest n after h)
  where
    onward :
        (end : Result Bool) (after : Db)
        → IsSound after
        → ((n : ℕ) (db : Db) → IsSound db → IsSound (scan_each env d rest n db).1)
        → IsSound
            (elim end as (λ _. Result ℕ × Db) [
              | ok fell_back ↦
                  scan_each env d rest (if fell_back then suc processed else processed) after
              | err p ↦ (err p, after)
            ]).1
    onward (ok fell_back) after h next = next _ after h
    onward (err p) after h next = h

pub scan_accept_timeouts-IsSound :
    (env : Env) (d : DispatchDeps) (db : Db)
    → IsSound db
    → IsSound (scan_accept_timeouts env d db).1
unfolding scan_accept_timeouts
scan_accept_timeouts-IsSound env d db s = by_gate env.automation_time_based_enabled
  where
    rows : List ServiceRequest
    rows = list_accept_overdue env.now env.outbox_batch_size db.requests

    by_gate :
        (b : Bool)
        → IsSound (if b then end_session (scan_each env d rows 0 db) db else (ok 0, db)).1
    by_gate true =
        let end = scan_each env d rows 0 db in
        end_session-IsSound end.0 end.1 db (scan_each-IsSound env d rows 0 db s) s
    by_gate false = s
