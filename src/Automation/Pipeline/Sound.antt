-- ===== src/Automation/Pipeline/Sound.antt =====
-- The pipeline of a new request keeps the database sound.
use kb_partners.Prelude.{
  Bool, true, false, String, ◌≡◌, refl, Option, none, some, if◌then◌else◌, Result, ok, err, Effect,
  find_first, find_first-All,
}
use kb_partners.Errors.{Problem, internal}
use kb_partners.Auth.{Uuid}
use kb_partners.Config.{Env}
use kb_partners.Requests.Models.{ServiceRequest, OutboxMessage}
use kb_partners.Requests.Store.{Db, Work}
use kb_partners.Requests.Access.{get_visible, is_visible}
use kb_partners.Requests.Detail.{RequestDetail}
use kb_partners.Requests.Lifecycle.Safe.{Safe, IsSound, Current}
use kb_partners.Requests.Classify.{classify_body, Safe-classify_body}
use kb_partners.Requests.Assign.Sound.{Safe-assign_body}
use kb_partners.Channels.Drain.{Done, then_done, payload_text, drain_now}
use kb_partners.Channels.Drain.Sound.{
  flush_row-IsSound, then_done-IsSound, drain_now-IsSound, answer_keeps, Safe-order_dispatch,
  drain_batch-IsSound,
}
use kb_partners.Automation.Pipeline.{
  AutomationDeps, automation_principal, in_session, drain_ordered, dispatch_now, after_dispatch,
  dispatch_stage, after_assign, assign_stage, after_classify, has_status, run_on_create,
  process_on_create, drain_on_create_batch,
}

in_session-IsSound :
    {A : Type 0} (body : Effect Work A) (p : ServiceRequest → Bool) (db : Db)
    → Safe body
    → IsSound db
    → IsSound (in_session (find_first p db.requests) body db).1
unfolding in_session
in_session-IsSound body p db safe s = by_row (find_first p db.requests) refl
  where
    by_row :
        (loaded : Option ServiceRequest)
        → find_first p db.requests ≡ loaded
        → IsSound (in_session loaded body db).1
    by_row none e = s
    by_row (some r) e =
        flush_row-IsSound body r db safe s (find_first-All (Current db) p db.requests r s.current e)

IsSound-if :
    {A : Type 0} (b : Bool) (x y : A × Db)
    → IsSound x.1
    → IsSound y.1
    → IsSound (if b then x else y).1
IsSound-if true x y hx hy = hx
IsSound-if false x y hx hy = hy

module _ (env : Env) (deps : AutomationDeps) (id : Uuid) where
  drain_ordered-IsSound :
      (end : Result Uuid) (db : Db) → IsSound db → IsSound (drain_ordered env deps id (end, db)).1
  unfolding drain_ordered
  drain_ordered-IsSound (err p) db s = s
  drain_ordered-IsSound (ok outbox_id) db s =
      let end = drain_now env deps.delivery outbox_id db in
      rw (answer_keeps env automation_principal id end.0 end.1)
        (drain_now-IsSound env deps.delivery outbox_id db s)

  dispatch_now-IsSound : (db : Db) → IsSound db → IsSound (dispatch_now env deps id db).1
  unfolding dispatch_now get_visible
  dispatch_now-IsSound db s = drain_ordered-IsSound _ _ (
      in_session-IsSound _ (is_visible automation_principal id) db
        (Safe-order_dispatch env automation_principal) s)

  after_dispatch-IsSound :
      (end : Result RequestDetail) (db : Db)
      → IsSound db
      → IsSound (after_dispatch env deps id (end, db)).1
  unfolding after_dispatch
  after_dispatch-IsSound (ok detail) db s = s
  after_dispatch-IsSound (err p) db s = IsSound-if _ _ _ s s

  dispatch_stage-IsSound : (db : Db) → IsSound db → IsSound (dispatch_stage env deps id db).1
  unfolding dispatch_stage
  dispatch_stage-IsSound db s =
      let end = dispatch_now env deps id db in
      IsSound-if _ _ _ s (after_dispatch-IsSound end.0 end.1 (dispatch_now-IsSound db s))

  after_assign-IsSound :
      (end : Result RequestDetail) (db : Db)
      → IsSound db
      → IsSound (after_assign env deps id (end, db)).1
  unfolding after_assign
  after_assign-IsSound (ok detail) db s = dispatch_stage-IsSound db s
  after_assign-IsSound (err p) db s =
      IsSound-if {A = Result String} (has_status 422 p) (ok "no_partner", db) _ s
        (IsSound-if (has_status 409 p) (dispatch_stage env deps id db) (err p, db)
          (dispatch_stage-IsSound db s) s)

  assign_stage-IsSound : (db : Db) → IsSound db → IsSound (assign_stage env deps id db).1
  unfolding assign_stage get_visible
  assign_stage-IsSound db s = IsSound-if _ _ _ s (
      after_assign-IsSound _ _ (
        in_session-IsSound _ (is_visible automation_principal id) db
          (Safe-assign_body env automation_principal deps.platform deps.require_service_order
            (record { partner_id = none; service_area = none }))
          s))

  after_classify-IsSound :
      (end : Result RequestDetail) (db : Db)
      → IsSound db
      → IsSound (after_classify env deps id (end, db)).1
  unfolding after_classify
  after_classify-IsSound (ok detail) db s = IsSound-if _ _ _ s (assign_stage-IsSound db s)
  after_classify-IsSound (err p) db s = IsSound-if _ _ _ (assign_stage-IsSound db s) s

  run_on_create-IsSound : (db : Db) → IsSound db → IsSound (run_on_create env deps id db).1
  unfolding run_on_create get_visible
  run_on_create-IsSound db s =
      let end =
        in_session (get_visible automation_principal id db)
          (classify_body env automation_principal deps.confidence_threshold deps.engine) db in
      after_classify-IsSound end.0 end.1 (
        in_session-IsSound _ (is_visible automation_principal id) db
          (Safe-classify_body env automation_principal deps.confidence_threshold deps.engine) s)

process_on_create-IsSound :
    (env : Env) (deps : AutomationDeps) (m : OutboxMessage) (db : Db)
    → IsSound db
    → IsSound (process_on_create env deps m db).1
unfolding process_on_create
process_on_create-IsSound env deps m db s = by_id (payload_text "request_id" m.payload)
  where
    by_id :
        (found : Option Uuid)
        → IsSound
            (elim found as (λ _. Done × Db) [
              | none ↦ (err internal, db)
              | some id ↦ then_done env m (run_on_create env deps id db)
            ]).1
    by_id none = s
    by_id (some id) =
        let end = run_on_create env deps id db in
        then_done-IsSound env m end.0 end.1 (run_on_create-IsSound env deps id db s)

pub drain_on_create_batch-IsSound :
    (env : Env) (error_text : Problem → String) (deps : AutomationDeps) (db : Db)
    → IsSound db
    → IsSound (drain_on_create_batch env error_text deps db).1
unfolding drain_on_create_batch
drain_on_create_batch-IsSound env error_text deps =
    drain_batch-IsSound env error_text _ _ (process_on_create env deps)
      (process_on_create-IsSound env deps)
