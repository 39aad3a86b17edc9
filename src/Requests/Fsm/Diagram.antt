-- ===== src/Requests/Fsm/Diagram.antt =====
-- The diagram of section 7 of the specification, as the comment of fsm.py draws it, and how the
-- table of transitions differs from it.
use kb_partners.Prelude.{◌≡◌, refl, ◌↔◌, true, false, arith}
use kb_partners.Requests.Enums.{
  RequestStatus, new, classifying, needs_review, matching, dispatched, failed_dispatch, accepted,
  in_progress, done, accepted_by_user, dispute, paid, cancelled, rejected,
}
use kb_partners.Requests.Fsm.{can_transition, is_terminal}

pub data IsFinal : RequestStatus → Type 0 where
  paid_final : IsFinal paid
  cancelled_final : IsFinal cancelled
  rejected_final : IsFinal rejected

-- An edge that the diagram draws.
pub data IsDrawn : RequestStatus → RequestStatus → Type 0 where
  begin : IsDrawn new classifying
  name : IsDrawn classifying RequestStatus.classified
  doubt : IsDrawn RequestStatus.classified needs_review
  match_directly : IsDrawn RequestStatus.classified matching
  match_reviewed : IsDrawn needs_review matching
  assign : IsDrawn matching RequestStatus.assigned
  send : IsDrawn RequestStatus.assigned dispatched
  take_on : IsDrawn dispatched accepted
  pass_on : IsDrawn dispatched matching
  give_up : IsDrawn dispatched failed_dispatch
  match_again : IsDrawn failed_dispatch matching
  start : IsDrawn accepted in_progress
  finish : IsDrawn in_progress done
  approve : IsDrawn done accepted_by_user
  dispute_done : IsDrawn done dispute
  dispute_approved : IsDrawn accepted_by_user dispute
  pay : IsDrawn accepted_by_user paid
  cancel : {s : RequestStatus} → ¬ IsFinal s → IsDrawn s cancelled

-- An edge of the state machine: one that is drawn, or the end of a dispute, which is not.
infix 40 ◌⟶◌
pub data ◌⟶◌ : RequestStatus → RequestStatus → Type 0 where
  drawn : {s t : RequestStatus} → IsDrawn s t → s ⟶ t
  undrawn : dispute ⟶ rejected

ruleset edges = (
  begin, name, doubt, match_directly, match_reviewed, assign, send, take_on, pass_on, give_up,
  match_again, start, finish, approve, dispute_done, dispute_approved, pay, drawn, undrawn,
)

IsFinal→terminal : {s : RequestStatus} → IsFinal s → is_terminal s ≡ true
unfolding is_terminal
IsFinal→terminal paid_final = refl
IsFinal→terminal cancelled_final = refl
IsFinal→terminal rejected_final = refl

terminal→IsFinal : (s : RequestStatus) → is_terminal s ≡ true → IsFinal s
unfolding is_terminal
terminal→IsFinal paid h = paid_final
terminal→IsFinal cancelled h = cancelled_final
terminal→IsFinal rejected h = rejected_final
terminal→IsFinal _ h = cc

can-cancel : (s : RequestStatus) → ¬ IsFinal s → can_transition s cancelled ≡ true
unfolding can_transition
can-cancel paid h = absurd (h paid_final)
can-cancel cancelled h = absurd (h cancelled_final)
can-cancel rejected h = absurd (h rejected_final)
can-cancel _ h = refl

IsDrawn-can : {s t : RequestStatus} → IsDrawn s t → can_transition s t ≡ true
unfolding can_transition
IsDrawn-can (cancel {s} h) = can-cancel s h
IsDrawn-can begin = refl
IsDrawn-can _ = refl

⟶-can : {s t : RequestStatus} → s ⟶ t → can_transition s t ≡ true
unfolding can_transition
⟶-can (drawn d) = IsDrawn-can d
⟶-can undrawn = refl

cancel_open : (s : RequestStatus) → is_terminal s ≡ false → IsDrawn s cancelled
cancel_open s h = cancel (λ f. cc (IsFinal→terminal f))

can-⟶ : (s t : RequestStatus) → can_transition s t ≡ true → s ⟶ t
unfolding can_transition
can-⟶ s t h = grind (arith, edges, cancel_open s)

-- The table of transitions allows exactly the edges that the documented diagram draws and, beyond
-- the diagram, the step from DISPUTE to REJECTED, for all pairs of statuses.
pub can_transition_iff : (s t : RequestStatus) → (can_transition s t ≡ true) ↔ (s ⟶ t)
can_transition_iff s t = (can-⟶ s t, ⟶-can)

-- The diagram does not draw the end of a dispute.
pub undrawn_end : ¬ IsDrawn dispute rejected
undrawn_end = elim [ ]

terminal_stuck : (s t : RequestStatus) → is_terminal s ≡ true → can_transition s t ≡ false
unfolding is_terminal can_transition
terminal_stuck s t h = ground arith

stuck_terminal : (s : RequestStatus) → can_transition s cancelled ≡ false → is_terminal s ≡ true
unfolding is_terminal can_transition
stuck_terminal s h = ground arith

-- A status is terminal exactly when no transition leaves it.
pub is_terminal_iff :
    (s : RequestStatus)
    → (is_terminal s ≡ true) ↔ ((t : RequestStatus) → can_transition s t ≡ false)
is_terminal_iff s = (λ h t. terminal_stuck s t h, λ h. stuck_terminal s (h cancelled))
