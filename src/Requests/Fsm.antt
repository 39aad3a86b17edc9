-- ===== src/Requests/Fsm.antt =====
-- backend/src/api/requests/fsm.py: the state machine of a request (section 7 of the specification).
-- A frozenset of statuses is a list read through `is_in`; a dict over all statuses is a function.
pub mod Diagram
pub mod Paths
use kb_partners.Errors.{Problem, conflict}
use kb_partners.Prelude.{Bool, not, List, [], ◌∷◌, Effect, require, if◌then◌else◌}
use kb_partners.Requests.Enums.{
  RequestStatus, new, classifying, needs_review, matching, dispatched, failed_dispatch, accepted,
  in_progress, done, accepted_by_user, dispute, paid, cancelled, rejected, is_in,
}

abbrev pub terminal_statuses : List RequestStatus
terminal_statuses = paid ∷ cancelled ∷ rejected ∷ []

-- `_BASE_TRANSITIONS.get(status, frozenset())`
unfoldable pub base_transitions : RequestStatus → List RequestStatus
base_transitions new = classifying ∷ []
base_transitions classifying = RequestStatus.classified ∷ []
base_transitions RequestStatus.classified = matching ∷ needs_review ∷ []
base_transitions needs_review = matching ∷ []
base_transitions matching = RequestStatus.assigned ∷ []
base_transitions RequestStatus.assigned = dispatched ∷ []
base_transitions dispatched = accepted ∷ matching ∷ failed_dispatch ∷ []
base_transitions failed_dispatch = matching ∷ []
base_transitions accepted = in_progress ∷ []
base_transitions in_progress = done ∷ []
base_transitions done = accepted_by_user ∷ dispute ∷ []
base_transitions accepted_by_user = paid ∷ dispute ∷ []
base_transitions dispute = rejected ∷ []
base_transitions _ = []

unfoldable pub is_terminal : RequestStatus → Bool
is_terminal status = is_in status terminal_statuses

-- One entry of `_build_allowed`: CANCELLED joins the targets of every status that is not terminal.
unfoldable pub build_allowed : RequestStatus → List RequestStatus
unfolding base_transitions is_terminal
build_allowed status =
    let targets = base_transitions status in
    if not (is_terminal status) then cancelled ∷ targets else targets

unfoldable pub allowed_transitions : RequestStatus → List RequestStatus
unfolding build_allowed
allowed_transitions status = build_allowed status

unfoldable pub can_transition : RequestStatus → RequestStatus → Bool
unfolding allowed_transitions
can_transition source target = is_in target (allowed_transitions source)

unfoldable pub ensure_transition {ℓ} : {S : Type ℓ} → RequestStatus → RequestStatus → Effect S Unit
ensure_transition source target = require (can_transition source target) conflict
