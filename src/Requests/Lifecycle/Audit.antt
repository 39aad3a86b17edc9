-- ===== src/Requests/Lifecycle/Audit.antt =====
-- What every transition guarantees.
use kb_partners.Prelude.{
  true, false, ◌≡◌, refl, ap, none, some, List, [], ◌∷◌, ◌++◌, ok, err, ◌>>=◌, arith, ◌⊎◌, inl, inr,
  Bool-cases,
}
use kb_partners.Errors.{conflict}
use kb_partners.Auth.{Principal, Uuid, actor_of}
use kb_partners.Config.{Env}
use kb_partners.Requests.Enums.{RequestStatus, status_changed, value}
use kb_partners.Requests.Fsm.{can_transition, ensure_transition}
use kb_partners.Requests.Models.{ServiceRequest, RequestHistory, OutboxMessage}
use kb_partners.Requests.Store.{Work, add_history}
use kb_partners.Requests.Lifecycle.{transition_row, moved, enter, apply_transition}
use kb_partners.Requests.Lifecycle.Emits.{Emits-announce}

-- The parts of a request that no transition touches.
pub record SameIdentity (r s : ServiceRequest) : Type 0 where
  pub id : s.id ≡ r.id
  pub number : s.number ≡ r.number
  pub requester_id : s.requester_id ≡ r.requester_id
  pub raw_input : s.raw_input ≡ r.raw_input
  pub raw_input_masked : s.raw_input_masked ≡ r.raw_input_masked
  pub partner_id : s.partner_id ≡ r.partner_id
  pub fallback_chain : s.fallback_chain ≡ r.fallback_chain
  pub access_level : s.access_level ≡ r.access_level

moved-SameIdentity :
    (env : Env) (r : ServiceRequest) (target : RequestStatus)
    → SameIdentity r (moved env r target) × ((moved env r target).status ≡ target)
unfolding moved
moved-SameIdentity env r target = ground arith

-- What the row of a transition says: the request, the user for whom the subject acts or else the
-- subject, both statuses as they are stored, and the instant.
pub record Names (env : Env) (p : Principal) (r : ServiceRequest) (target : RequestStatus)
    (row : RequestHistory) : Type 0 where
  pub request_id : row.request_id ≡ r.id
  pub for_user : (u : Uuid) → p.on_behalf_of ≡ some u → row.actor_id ≡ u
  pub for_itself : p.on_behalf_of ≡ none → row.actor_id ≡ p.user_id
  pub action : row.action ≡ status_changed
  pub from_value : row.from_value ≡ some (value r.status)
  pub to_value : row.to_value ≡ some (value target)
  pub ts : row.ts ≡ env.now

transition_row-Names :
    (env : Env) (p : Principal) (r : ServiceRequest) (target : RequestStatus)
    → Names env p r target (transition_row env p r target)
unfolding transition_row actor_of
transition_row-Names env p r target = record {
  request_id = refl;
  for_user = λ u h. rw h refl;
  for_itself = λ h. rw h refl;
  action = refl;
  from_value = refl;
  to_value = refl;
  ts = refl;
}

-- What an allowed transition did to the unit of work.
pub record Transitioned (env : Env) (p : Principal) (target : RequestStatus) (w w' : Work)
    : Type 0 where
  pub named : Names env p w.request target (transition_row env p w.request target)
  pub same : SameIdentity w.request w'.request
  pub status : w'.request.status ≡ target
  pub history : w'.history ≡ w.history ++ transition_row env p w.request target ∷ []
  pub messages : w'.messages ≡ w.messages
  pub estimates : w'.estimates ≡ w.estimates
  pub attempts : w'.attempts ≡ w.attempts
  pub sent : (new : List OutboxMessage) × (w'.outbox ≡ w.outbox ++ new)

pub enter-Transitioned :
    (env : Env) (p : Principal) (target : RequestStatus) (w : Work)
    → Transitioned env p target w (enter env p target w)
unfolding enter add_history
enter-Transitioned env p target w =
    let e =
      Emits-announce env (moved env w.request target) target
        (add_history (transition_row env p w.request target) w.tables) in
    record {
      named = transition_row-Names env p w.request target;
      same = (moved-SameIdentity env w.request target).0;
      status = (moved-SameIdentity env w.request target).1;
      history = e.history;
      messages = e.messages;
      estimates = e.estimates;
      attempts = e.attempts;
      sent = e.sent;
    }

pub apply_transition_allowed :
    (env : Env) (p : Principal) (target : RequestStatus) (w : Work)
    → can_transition w.request.status target ≡ true
    → apply_transition env p target w ≡ (ok tt, enter env p target w)
unfolding apply_transition ◌>>=◌
apply_transition_allowed env p target w h = rw (h, apply_transition, ensure_transition)

pub apply_transition_refused :
    (env : Env) (p : Principal) (target : RequestStatus) (w : Work)
    → can_transition w.request.status target ≡ false
    → apply_transition env p target w ≡ (err conflict, w)
unfolding apply_transition ◌>>=◌
apply_transition_refused env p target w h = rw (h, apply_transition, ensure_transition)

-- A transition answers conflict and changes nothing, when the table of transitions does not allow
-- it; otherwise it succeeds: the request has the target status and is otherwise the same in what
-- identifies it and in its partners; the journal has exactly one row more, which holds the request,
-- as the actor the user for whom the subject acts or else the subject, the old and the new status
-- as they are stored, and the instant; and all that it sends goes behind the old outbox.
pub apply_transition-Transitioned :
    (env : Env) (p : Principal) (target : RequestStatus) (w : Work)
    → ((can_transition w.request.status target ≡ false)
        × (apply_transition env p target w ≡ (err conflict, w)))
      ⊎ ((can_transition w.request.status target ≡ true)
          × ((apply_transition env p target w).0 ≡ ok tt)
          × Transitioned env p target w (apply_transition env p target w).1)
apply_transition-Transitioned env p target w =
    elim (Bool-cases (can_transition w.request.status target)) [
      | inl allowed ↦
          let e = apply_transition_allowed env p target w allowed in
          inr (allowed, ap (λ r. r.0) e, rw e (enter-Transitioned env p target w))
      | inr refused ↦ inl (refused, apply_transition_refused env p target w refused)
    ]
