-- ===== src/Requests/Lifecycle/Emits.antt =====
-- What the emitters of a transition may change: they append to the outbox and to the metrics.
use mathlib.Core.List.{append-nil, append_assoc}
use kb_partners.Prelude.{
  ℕ, Bool, true, false, String, ◌≡◌, refl, sym, ◌∙◌, Option, none, some, List, [], ◌∷◌, ◌++◌,
  if◌then◌else◌, is_empty,
}
use kb_partners.Auth.{Uuid}
use kb_partners.Config.{Env}
use kb_partners.Requests.Enums.{RequestStatus}
use kb_partners.Requests.Models.{ServiceRequest, OutboxMessage, Observation}
use kb_partners.Requests.Store.{Tables, observe}
use kb_partners.Outbox.{enqueue}
use kb_partners.Webhooks.{emit_event}
use kb_partners.Notifications.{
  Notification, notifications_for, emit_each, emit_notifications, emit_operator_escalation,
}
use kb_partners.Concierge.{callback, chat_session_of, status_text, emit_concierge_status_update}
use kb_partners.Requests.Lifecycle.{record_transition, observe_stage, announce}

-- A change of the tables that only appends to the outbox and to the metrics.
pub record Emits (t u : Tables) : Type 0 where
  pub history : u.history ≡ t.history
  pub messages : u.messages ≡ t.messages
  pub estimates : u.estimates ≡ t.estimates
  pub attempts : u.attempts ≡ t.attempts
  pub sent : (new : List OutboxMessage) × (u.outbox ≡ t.outbox ++ new)

pub Emits-refl : (t : Tables) → Emits t t
Emits-refl t = record {
  history = refl;
  messages = refl;
  estimates = refl;
  attempts = refl;
  sent = ([], sym (append-nil t.outbox));
}

pub Emits-trans : {t u v : Tables} → Emits t u → Emits u v → Emits t v
Emits-trans {t} a b = record {
  history = b.history ∙ a.history;
  messages = b.messages ∙ a.messages;
  estimates = b.estimates ∙ a.estimates;
  attempts = b.attempts ∙ a.attempts;
  sent = (a.sent.0 ++ b.sent.0, b.sent.1 ∙ (rw a.sent.1 (append_assoc t.outbox a.sent.0 b.sent.0)));
}

pub Emits-if : (b : Bool) (t u v : Tables) → Emits t u → Emits t v → Emits t (if b then u else v)
Emits-if true t u v a c = a
Emits-if false t u v a c = c

pub Emits-enqueue :
    (env : Env) (kind : String) (payload : List (String × Option String)) (t : Tables)
    → Emits t (enqueue env kind payload t)
unfolding enqueue
Emits-enqueue env kind payload t = record {
  history = refl;
  messages = refl;
  estimates = refl;
  attempts = refl;
  sent = (_, refl);
}

Emits-observe : (o : Observation) (t : Tables) → Emits t (observe o t)
unfolding observe
Emits-observe o t = record {
  history = refl;
  messages = refl;
  estimates = refl;
  attempts = refl;
  sent = ([], sym (append-nil t.outbox));
}

pub Emits-emit_event :
    (env : Env) (event : String) (id : Uuid) (number : String) (s : RequestStatus)
    (at : Option String) (t : Tables)
    → Emits t (emit_event env event id number s at t)
unfolding emit_event
Emits-emit_event env event id number s at t =
    Emits-if _ t t _ (Emits-refl t) (Emits-enqueue env _ _ t)

Emits-emit_each :
    (env : Env) (id : Uuid) (number : String) (s : RequestStatus) (requester : String)
    (partner : Option String) (ns : List Notification) (t : Tables)
    → Emits t (emit_each env id number s requester partner ns t)
unfolding emit_each
Emits-emit_each env id number s requester partner [] t = Emits-refl t
Emits-emit_each env id number s requester partner (n ∷ ns) t =
    Emits-trans (Emits-if _ t t _ (Emits-refl t) (Emits-enqueue env _ _ t))
      (Emits-emit_each env id number s requester partner ns _)

pub Emits-emit_notifications :
    (env : Env) (id : Uuid) (number : String) (s : RequestStatus) (requester : String)
    (partner : Option String) (t : Tables)
    → Emits t (emit_notifications env id number s requester partner t)
unfolding emit_notifications
Emits-emit_notifications env id number s requester partner t =
    Emits-if env.notifications_enabled t _ t
      (Emits-emit_each env id number s requester partner (notifications_for s) t) (Emits-refl t)

pub Emits-emit_operator_escalation :
    (env : Env) (id : Uuid) (number : String) (s : RequestStatus) (summary : String) (t : Tables)
    → Emits t (emit_operator_escalation env id number s summary t)
unfolding emit_operator_escalation
Emits-emit_operator_escalation env id number s summary t =
    Emits-if _ t _ t (Emits-enqueue env _ _ t) (Emits-refl t)

Emits-callback :
    (env : Env) (id : Uuid) (number : String) (s : RequestStatus) (session text : Option String)
    (t : Tables)
    → Emits t (callback env id number s session text t)
unfolding callback
Emits-callback env id number s (some session) (some text) t =
    Emits-if _ t t _ (Emits-refl t) (Emits-enqueue env _ _ t)
Emits-callback env id number s _ _ t = Emits-refl t

Emits-concierge :
    (env : Env) (id : Uuid) (number : String) (s : RequestStatus)
    (source : Option (List (String × String))) (t : Tables)
    → Emits t (emit_concierge_status_update env id number s source t)
unfolding emit_concierge_status_update
Emits-concierge env id number s source t =
    Emits-if (is_empty env.concierge_api_base_url) t t _ (Emits-refl t)
      (Emits-callback env id number s (chat_session_of source) (status_text s number) t)

Emits-observe_stage :
    (target : RequestStatus) (at : ℕ) (c d a : Option ℕ) (t : Tables)
    → Emits t (observe_stage target at c d a t)
unfolding observe_stage
Emits-observe_stage RequestStatus.dispatched at none d a t = Emits-refl t
Emits-observe_stage RequestStatus.dispatched at (some c) d a t = Emits-observe _ t
Emits-observe_stage RequestStatus.accepted at c none a t = Emits-refl t
Emits-observe_stage RequestStatus.accepted at c (some d) a t = Emits-observe _ t
Emits-observe_stage RequestStatus.done at c d none t = Emits-refl t
Emits-observe_stage RequestStatus.done at c d (some a) t = Emits-observe _ t
Emits-observe_stage _ at c d a t = Emits-refl t

pub Emits-announce :
    (env : Env) (r : ServiceRequest) (target : RequestStatus) (t : Tables)
    → Emits t (announce env r target t)
unfolding announce record_transition
Emits-announce env r target t = Emits-trans (Emits-observe _ t) (
    Emits-trans (Emits-observe_stage target env.now _ _ _ _) (
      Emits-trans (Emits-emit_event env _ _ _ _ _ _)
        (Emits-trans (Emits-emit_notifications env _ _ _ _ _ _) (Emits-concierge env _ _ _ _ _))))
