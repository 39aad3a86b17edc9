-- ===== src/Automation/Pipeline.antt =====
-- backend/src/api/automation/pipeline.py and autonomy.py: a new request is classified, assigned and
-- dispatched without a human, as far as the policy of autonomy lets it.
pub mod Sound
use kb_partners.Prelude.{
  ℕ, Bool, true, String, Option, none, some, [], ◌∷◌, eqb, ltb, lower_is, if◌then◌else◌, Result, ok,
  err, Effect,
}
use kb_partners.Errors.{Problem, internal, not_found}
use kb_partners.Errors
use kb_partners.Auth.{Principal, PrincipalKind, Uuid, automation_actor_id, staff_admin_scope}
use kb_partners.Config.{Env}
use kb_partners.Requests.Enums.{needs_review, is}
use kb_partners.Requests.Models.{ServiceRequest, OutboxMessage}
use kb_partners.Requests.Store.{Db, Work, open_work}
use kb_partners.Requests.Access.{get_visible}
use kb_partners.Requests.Detail.{RequestDetail}
use kb_partners.Requests.Classify.{Outcome, classify_body}
use kb_partners.Requests.Assign.{Platform, assign_body}
use kb_partners.Requests.Partner.{strip_left, strip_right}
use kb_partners.Channels.Drain.{
  Done, DispatchDeps, flush_row, then_done, payload_text, drain_batch, order_dispatch, drain_now,
  answer,
}

pub data AutonomyLevel : Type 0 where
  classify assign dispatch : AutonomyLevel

abbrev level_rank : AutonomyLevel → ℕ
level_rank classify = 1
level_rank assign = 2
level_rank dispatch = 3

-- `a < b` on levels
abbrev pub below : AutonomyLevel → AutonomyLevel → Bool
below a b = ltb (level_rank a) (level_rank b)

unfoldable pub parse_autonomy : String → AutonomyLevel
unfolding strip_left strip_right lower_is
parse_autonomy value =
    let level = strip_right (strip_left value) in
    if lower_is level "classify"
    then classify
    else if lower_is level "assign"
    then assign
    else if lower_is level "dispatch"
    then dispatch
    else classify

abbrev pub on_create_kind : String
on_create_kind = "automation_on_create"

abbrev pub automation_principal : Principal
automation_principal = record {
  user_id = automation_actor_id;
  kind = PrincipalKind.operator;
  scopes = staff_admin_scope ∷ [];
  partner_id = none;
  on_behalf_of = none;
  acting_agent = none;
}

pub record AutomationDeps : Type 0 where
  pub engine : String → Outcome
  pub confidence_threshold : ℕ
  pub platform : Platform
  pub delivery : DispatchDeps
  pub require_service_order : Bool
  pub autonomy : AutonomyLevel

-- A service called in the worker's session: no exception rolls it back.
unfoldable pub in_session :
    {A : Type 0} → Option ServiceRequest → Effect Work A → Db → Result A × Db
unfolding flush_row open_work
in_session none body db = (err not_found, db)
in_session (some r) body db = flush_row (body (open_work r db)) db

-- `exc.status == code`
abbrev pub has_status : ℕ → Problem → Bool
has_status code p = eqb (Errors.status p) code

module _ (env : Env) (deps : AutomationDeps) (id : Uuid) where
  unfoldable pub drain_ordered : Result Uuid × Db → Result RequestDetail × Db
  unfolding drain_now answer
  drain_ordered (err p, db) = (err p, db)
  drain_ordered (ok outbox_id, db) =
      answer env automation_principal id (drain_now env deps.delivery outbox_id db)

  -- `DispatchService.dispatch` in the worker's session.
  unfoldable pub dispatch_now : Db → Result RequestDetail × Db
  unfolding in_session get_visible order_dispatch drain_ordered
  dispatch_now db = drain_ordered (
      in_session (get_visible automation_principal id db) (order_dispatch env automation_principal)
        db)

  unfoldable pub after_dispatch : Result RequestDetail × Db → Result String × Db
  after_dispatch (ok detail, db) = (ok "dispatched", db)
  after_dispatch (err p, db) = if has_status 409 p then (ok "dispatched", db) else (err p, db)

  unfoldable pub dispatch_stage : Db → Result String × Db
  unfolding dispatch_now after_dispatch
  dispatch_stage db =
      if below deps.autonomy dispatch then (ok "assigned", db) else after_dispatch (dispatch_now db)

  unfoldable pub after_assign : Result RequestDetail × Db → Result String × Db
  unfolding dispatch_stage
  after_assign (ok detail, db) = dispatch_stage db
  after_assign (err p, db) =
      if has_status 422 p
      then (ok "no_partner", db)
      else if has_status 409 p
      then dispatch_stage db
      else (err p, db)

  unfoldable pub assign_stage : Db → Result String × Db
  unfolding in_session get_visible assign_body after_assign
  assign_stage db =
      if below deps.autonomy assign
      then (ok "classified", db)
      else after_assign (
          in_session (get_visible automation_principal id db)
            (assign_body env automation_principal deps.platform deps.require_service_order
              (record { partner_id = none; service_area = none }))
            db)

  unfoldable pub after_classify : Result RequestDetail × Db → Result String × Db
  unfolding assign_stage
  after_classify (ok detail, db) =
      if is detail.status needs_review then (ok "needs_review", db) else assign_stage db
  after_classify (err p, db) = if has_status 409 p then assign_stage db else (err p, db)

  unfoldable pub run_on_create : Db → Result String × Db
  unfolding in_session get_visible classify_body after_classify
  run_on_create db = after_classify (
      in_session (get_visible automation_principal id db)
        (classify_body env automation_principal deps.confidence_threshold deps.engine) db)

-- A payload without an identifier is a KeyError.
unfoldable pub process_on_create : Env → AutomationDeps → OutboxMessage → Db → Done × Db
unfolding run_on_create then_done payload_text
process_on_create env deps m db = elim (payload_text "request_id" m.payload) [
  | none ↦ (err internal, db)
  | some id ↦ then_done env m (run_on_create env deps id db)
]

unfoldable pub drain_on_create_batch : Env → (Problem → String) → AutomationDeps → Db → ℕ × Db
unfolding drain_batch process_on_create
drain_on_create_batch env error_text deps =
    drain_batch env error_text on_create_kind env.outbox_visibility_timeout_seconds
      (process_on_create env deps)
