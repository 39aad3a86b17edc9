-- ===== src/Examples/Journal.antt =====
-- Runs on the sample database: transitions, intake, assignment, lives of a request.

use kb_partners.Prelude.{
  true, false, ◌≡◌, ◌≤◌, ◌↔◌, ◌⊎◌, refl, List, [], ◌∷◌, ok, err, ◌>>=◌, find_first,
}
use kb_partners.Errors.{conflict, forbidden}
use kb_partners.Requests.Enums.{
  RequestStatus, new, classifying, matching, dispatched, accepted, in_progress, done,
  accepted_by_user, paid, value,
}
use kb_partners.Requests.Fsm.{can_transition}
use kb_partners.Requests.Fsm.Diagram.{◌⟶◌, can_transition_iff}
use kb_partners.Requests.Fsm.Paths.{
  Life, born, step, Visits, paid-Visits, is_work, transitions, accepted_work,
}
use kb_partners.Requests.Store.{Work, handle, open_work}
use kb_partners.Requests.Access.{get_visible, can_drive_lifecycle}
use kb_partners.Auth.{is_operator, has_scope, is_staff_admin, is_agent, is_partner}
use kb_partners.Requests.Lifecycle.{apply_transition}
use kb_partners.Requests.Lifecycle.Audit.{Transitioned, apply_transition-Transitioned}
use kb_partners.Requests.Lifecycle.Journal.{replay, other}
use kb_partners.Requests.Lifecycle.Safe.{IsSound}
use kb_partners.Requests.Service.{transition, transition_body}
use kb_partners.Requests.Service.{cancel}
use kb_partners.Requests.Service.Cancellation.{MayCancel, cancel-Succeeds}
use kb_partners.Requests.Service.Outcomes.{Succeeds, MayMove, transition-Succeeds}
use kb_partners.Requests.Calls.{Call, to_transition, to_cancel}
use kb_partners.Examples.{noon, alice, olga, request_at, one_request}

pub one_request-IsSound : IsSound one_request
unfolding replay value
one_request-IsSound = record { current = (refl, tt); legal = (other (λ e. cc e), tt) }

-- The operator classifies; then the requester cancels, twice.
abbrev some_calls : List Call
some_calls =
    record { env = noon; principal = olga; request_id = "r1"; endpoint = to_transition classifying }
    ∷ record { env = noon; principal = alice; request_id = "r1"; endpoint = to_cancel "late" }
    ∷ record { env = noon; principal = alice; request_id = "r1"; endpoint = to_cancel "again" }
    ∷ []

abbrev sample : Work
sample = open_work (request_at new) one_request

apply_transition-Transitioned_example :
    ((can_transition new classifying ≡ false)
      × (apply_transition noon olga classifying sample ≡ (err conflict, sample)))
    ⊎ ((can_transition new classifying ≡ true)
        × ((apply_transition noon olga classifying sample).0 ≡ ok tt)
        × Transitioned noon olga classifying sample
            (apply_transition noon olga classifying sample).1)
unfolding open_work
apply_transition-Transitioned_example = apply_transition-Transitioned noon olga classifying sample

transition-Succeeds_example :
    Succeeds (transition noon olga "r1" classifying one_request).0
    ↔ MayMove olga "r1" classifying one_request
transition-Succeeds_example = transition-Succeeds noon olga "r1" classifying one_request

alice_forbidden :
    (handle
      (get_visible alice "r1" one_request)
      (transition_body noon alice classifying)
      one_request).0
    ≡ err forbidden
unfolding get_visible handle transition_body find_first is_operator has_scope is_staff_admin
    is_agent is_partner ◌>>=◌ can_drive_lifecycle
alice_forbidden = refl

can_transition_iff_example : (can_transition new classifying ≡ true) ↔ (new ⟶ classifying)
can_transition_iff_example = can_transition_iff new classifying

working_life : Life accepted done
unfolding can_transition
working_life = step {t = in_progress} (step born refl) refl

paid_life : Life new paid
unfolding can_transition
paid_life =
    step {t = accepted_by_user}
      (step {t = done}
        (step {t = in_progress}
          (step {t = accepted}
            (step {t = dispatched}
              (step {t = RequestStatus.assigned}
                (step {t = matching}
                  (step {t = RequestStatus.classified}
                    (step {t = classifying} (step born refl) refl) refl)
                  refl)
                refl)
              refl)
            refl)
          refl)
        refl)
      refl

accepted_work_example : (is_work done ≡ true) × (transitions working_life ≤ 5)
accepted_work_example = accepted_work accepted done working_life refl

paid-Visits_example :
    Visits dispatched paid_life
    × Visits accepted paid_life
    × Visits in_progress paid_life
    × Visits done paid_life
    × Visits accepted_by_user paid_life
paid-Visits_example = paid-Visits paid_life

cancel-Succeeds_example :
    Succeeds (cancel noon alice "r1" "late" one_request).0 ↔ MayCancel alice "r1" one_request
cancel-Succeeds_example = cancel-Succeeds noon alice "r1" "late" one_request
