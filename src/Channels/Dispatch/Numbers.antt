-- ===== src/Channels/Dispatch/Numbers.antt =====
-- The numbers and the idempotency keys of delivery attempts.
use mathlib.Core.List.{append-nil}
use kb_partners.Prelude.{
  ℕ, suc, ◌+◌, Bool, true, false, ◌≡◌, refl, ◌∙◌, ◌==◌, Option, none, some, List, [], ◌∷◌, ◌++◌,
  length, select, if◌then◌else◌, Result, ok, err, Effect, continue, pure, raise, get, modify, ◌>>=◌,
  arith, Bool-cases, inl, inr, All, eq_iff,
}
use kb_partners.Auth.{Uuid, Principal}
use kb_partners.Config.{Env}
use kb_partners.Sla.Engine.{SlaPolicy}
use kb_partners.Requests.Models.{ServiceRequest, DispatchAttempt, Sla}
use kb_partners.Requests.Enums.{RequestStatus}
use kb_partners.Requests.Fsm.{can_transition}
use kb_partners.Requests.Store.{Work, set_request}
use kb_partners.Requests.Lifecycle.{apply_transition}
use kb_partners.Requests.Lifecycle.Audit.{
  apply_transition_allowed, apply_transition_refused, enter-Transitioned,
}
use kb_partners.Channels.{PartnerChannelConfig, DeliveryResult}
use kb_partners.Channels.Resolver.{ChannelResolver}
use kb_partners.Channels.Dispatch.{
  dispatch_key, is_success, attempt_delivery, attempt_row, count_attempts, conclude, accept_from,
  put_accept_sla, execute_dispatch, Chosen, Progress,
}
use kb_partners.Channels.Dispatch.Tour.{
  Route, routes_of, Walk, stopped, passed, step, walk, with_attempts,
}
use kb_partners.Channels.Dispatch.Walks.{tour, partners_of, execute_dispatch-walk}

-- Attempts numbered without a gap after `n`, each under the key of its number.
abbrev pub Numbered : ℕ → List DispatchAttempt → Type 0
Numbered n [] = Unit
Numbered n (a ∷ rest) =
    (a.attempt_no ≡ n + 1)
    × (a.idempotency_key ≡ dispatch_key a.request_id (n + 1))
    × Numbered (n + 1) rest

abbrev pub attempts_of : Uuid → List DispatchAttempt → List DispatchAttempt
attempts_of id = select (λ a. a.request_id == id)

Numbered-append :
    (n : ℕ) (xs ys : List DispatchAttempt)
    → Numbered n xs
    → Numbered (n + length xs) ys
    → Numbered n (xs ++ ys)
Numbered-append n [] ys hx hy = let e : n + 0 ≡ n = omega arith in rw e at hy
Numbered-append n (x ∷ xs) ys hx hy =
    let e : n + suc (length xs) ≡ n + 1 + length xs = omega arith in
    (hx.0, hx.1, Numbered-append (n + 1) xs ys hx.2 (rw e at hy))

attempts_of-append :
    (id : Uuid) (xs ys : List DispatchAttempt)
    → attempts_of id (xs ++ ys) ≡ attempts_of id xs ++ attempts_of id ys
unfolding select
attempts_of-append id [] ys = refl
attempts_of-append id (x ∷ xs) ys = ground (arith, attempts_of-append id xs ys)

-- All rows are of the request `r`, or none is.
attempts_of-own :
    (id : Uuid) (rows : List DispatchAttempt)
    → All (λ a. a.request_id ≡ id) rows
    → attempts_of id rows ≡ rows
unfolding select
attempts_of-own id [] own = refl
attempts_of-own id (a ∷ rows) own =
    let hit : (a.request_id == id) ≡ true = (eq_iff a.request_id id).1 own.0 in
    ground (arith, attempts_of-own id rows own.1)

attempts_of-foreign :
    (id other : Uuid) (rows : List DispatchAttempt)
    → (id == other) ≡ false
    → All (λ a. a.request_id ≡ id) rows
    → attempts_of other rows ≡ []
unfolding select
attempts_of-foreign id other [] apart own = refl
attempts_of-foreign id other (a ∷ rows) apart own =
    let miss : (a.request_id == other) ≡ false = rw own.0 apart in
    ground (arith, attempts_of-foreign id other rows apart own.1)

-- New rows of the request `j`, numbered on from its old ones.
Numbered-added :
    (id j : Uuid) (old rows : List DispatchAttempt)
    → All (λ a. a.request_id ≡ j) rows
    → Numbered (length (attempts_of j old)) rows
    → Numbered 0 (attempts_of id old)
    → Numbered 0 (attempts_of id (old ++ rows))
Numbered-added id j old rows own new numbered =
    rw (attempts_of-append id old rows) (elim (Bool-cases (j == id)) [
      | inl same ↦
          let e : j ≡ id = (eq_iff j id).0 same in
          rw (attempts_of-own id rows (rw e at own))
            (Numbered-append 0 (attempts_of id old) rows numbered (from_zero (rw e at new)))
      | inr apart ↦
          rw (attempts_of-foreign j id rows apart own, append-nil (attempts_of id old)) numbered
    ])
  where
    from_zero :
        Numbered (length (attempts_of id old)) rows
        → Numbered (0 + length (attempts_of id old)) rows
    from_zero h =
        let e : 0 + length (attempts_of id old) ≡ length (attempts_of id old) = omega arith in
        rw e h

module _ (env : Env) (resolver : ChannelResolver) (r : ServiceRequest) where
  step-Numbered :
      (route : Route) (n : ℕ) (result : Result DeliveryResult) (rest : Walk)
      → Numbered (n + 1) rest.rows × All (λ a. a.request_id ≡ r.id) rest.rows
      → let t = step env resolver r route (n + 1) result rest in
        Numbered n t.rows × All (λ a. a.request_id ≡ r.id) t.rows
  unfolding attempt_row
  step-Numbered route n (err p) rest h = (tt, tt)
  step-Numbered route n (ok result) rest h = by_success (is_success result.outcome)
    where
      by_success :
          (success : Bool)
          → let row = attempt_row env r route.config (n + 1) result in
            let t : Walk = if success then stopped route (n + 1) row else passed row rest in
            Numbered n t.rows × All (λ a. a.request_id ≡ r.id) t.rows
      by_success true = ((refl, refl, tt), (refl, tt))
      by_success false = ((refl, refl, h.0), (refl, h.1))

  walk-Numbered :
      (routes : List Route) (n : ℕ)
      → let rows = (walk env resolver r routes n).rows in
        Numbered n rows × All (λ a. a.request_id ≡ r.id) rows
  unfolding walk
  walk-Numbered [] n = (tt, tt)
  walk-Numbered (route ∷ rest) n =
      step-Numbered route n (attempt_delivery resolver r route.config (n + 1))
        (walk env resolver r rest (n + 1)) (walk-Numbered rest (n + 1))

-- Whether it returns or raises, `m` adds no attempts.
record Attempts {A : Type 0} (m : Effect Work A) : Type 0 where
  at : (w : Work) → (m w).1.attempts ≡ w.attempts

module _ {A B : Type 0} where
  Attempts-bind :
      (m : Effect Work A) (f : A → Effect Work B)
      → Attempts m
      → ((a : A) → Attempts (f a))
      → Attempts (m >>= f)
  unfolding ◌>>=◌
  Attempts-bind m f hm hf = record { at = λ w. onward (m w).0 (m w).1 ∙ hm.at w }
    where
      onward : (end : Result A) (u : Work) → (continue end f u).1.attempts ≡ u.attempts
      onward (ok a) u = (hf a).at u
      onward (err p) u = refl

Attempts-pure : {A : Type 0} (a : A) → Attempts (pure {S = Work} a)
unfolding pure
Attempts-pure a = record { at = λ w. refl }

Attempts-get : Attempts (get {S = Work})
unfolding get
Attempts-get = record { at = λ w. refl }

Attempts-set_request : (f : ServiceRequest → ServiceRequest) → Attempts (set_request f)
unfolding set_request modify
Attempts-set_request f = record { at = λ w. refl }

Attempts-apply_transition :
    (env : Env) (p : Principal) (target : RequestStatus) → Attempts (apply_transition env p target)
Attempts-apply_transition env p target = record {
  at = λ w. elim (Bool-cases (can_transition w.request.status target)) [
    | inl c ↦
        rw (apply_transition_allowed env p target w c) (enter-Transitioned env p target w).attempts
    | inr c ↦ rw (apply_transition_refused env p target w c) refl
  ];
}

Attempts-put_accept_sla : (sla : Result Sla) (at : ℕ) → Attempts (put_accept_sla sla at)
unfolding put_accept_sla raise
Attempts-put_accept_sla (err p) at = record { at = λ w. refl }
Attempts-put_accept_sla (ok sla) at = Attempts-set_request _

Attempts-accept_from :
    (policy : SlaPolicy) (sla : Option Sla) (at : Option ℕ) → Attempts (accept_from policy sla at)
unfolding accept_from raise
Attempts-accept_from policy sla none = record { at = λ w. refl }
Attempts-accept_from policy sla (some at) = Attempts-put_accept_sla _ at

ruleset attempts_rules = (
  Attempts-bind, Attempts-pure, Attempts-get, Attempts-set_request, Attempts-apply_transition,
  Attempts-accept_from,
)

Attempts-conclude :
    (env : Env) (policy : SlaPolicy) (chosen : Option Chosen)
    → Attempts (conclude env policy chosen)
unfolding conclude
Attempts-conclude env policy none = search attempts_rules depth 12
Attempts-conclude env policy (some chosen) = search attempts_rules depth 12

-- `execute_dispatch` adds the rows of the walk, and no others.
execute_dispatch-rows :
    (env : Env) (resolver : ChannelResolver) (policy : SlaPolicy)
    (configs : List PartnerChannelConfig) (w : Work)
    → (execute_dispatch env resolver policy configs w).1.attempts
      ≡ w.attempts ++ (tour env resolver configs w).rows
unfolding with_attempts
execute_dispatch-rows env resolver policy configs w =
    let t = tour env resolver configs w in
    rw (execute_dispatch-walk env resolver policy configs w) (onward t.end t.rows)
  where
    onward :
        (end : Result Progress) (rows : List DispatchAttempt)
        → (continue end
            (λ progress. conclude env policy progress.chosen)
            (with_attempts rows w)).1.attempts
          ≡ w.attempts ++ rows
    onward (ok progress) rows =
        (Attempts-conclude env policy progress.chosen).at (with_attempts rows w)
    onward (err p) rows = refl

-- However `execute_dispatch` ends, the attempts of every request stay numbered 1, 2, 3 and so on
-- without a gap, each under the idempotency key of its request and number, if they were.
pub execute_dispatch-Numbered :
    (env : Env) (resolver : ChannelResolver) (policy : SlaPolicy)
    (configs : List PartnerChannelConfig) (w : Work) (id : Uuid)
    → Numbered 0 (attempts_of id w.attempts)
    → Numbered 0 (attempts_of id (execute_dispatch env resolver policy configs w).1.attempts)
unfolding tour count_attempts
execute_dispatch-Numbered env resolver policy configs w id numbered =
    let rows = (tour env resolver configs w).rows in
    let (new, own) =
      walk-Numbered env resolver w.request (routes_of configs (partners_of w.request))
        (count_attempts w.request.id w.tables) in
    rw (execute_dispatch-rows env resolver policy configs w)
      (Numbered-added id w.request.id w.attempts rows own new numbered)
