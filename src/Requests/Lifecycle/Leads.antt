-- ===== src/Requests/Lifecycle/Leads.antt =====
-- Operations that return: from a given unit of work, an operation raises nothing and ends in what
-- is claimed. One rule for each way to build an operation.
use kb_partners.Prelude.{
  true, ◌≡◌, refl, Result, ok, err, Effect, pure, get, modify, continue, ◌>>=◌,
}
use kb_partners.Auth.{Principal}
use kb_partners.Config.{Env}
use kb_partners.Requests.Enums.{RequestStatus}
use kb_partners.Requests.Models.{ServiceRequest}
use kb_partners.Requests.Fsm.{can_transition}
use kb_partners.Requests.Store.{Work, Tables, set_request, set_tables}
use kb_partners.Requests.Lifecycle.{moved, enter, apply_transition}
use kb_partners.Requests.Lifecycle.Audit.{apply_transition_allowed}

-- From `w`, `m` returns a value for which `P` holds with the request that is left.
pub record Leads {A : Type 0} (w : Work) (m : Effect Work A) (P : A → ServiceRequest → Type 0)
    : Type 0 where
  pub result : A
  pub returns : (m w).0 ≡ ok result
  pub holds : P result (m w).1.request

module _ {A : Type 0} where
  pub Leads-pure :
      (w : Work) (a : A) (P : A → ServiceRequest → Type 0) → P a w.request → Leads w (pure a) P
  unfolding pure
  Leads-pure w a P h = record { result = a; returns = refl; holds = h }

module _ {A B : Type 0} where
  pub Leads-bind :
      (w : Work) (m : Effect Work A) (f : A → Effect Work B) (P : A → ServiceRequest → Type 0)
      (Q : B → ServiceRequest → Type 0)
      → Leads w m P
      → ((a : A) (u : Work) → P a u.request → Leads u (f a) Q)
      → Leads w (m >>= f) Q
  unfolding ◌>>=◌
  Leads-bind w m f P Q first next =
      let (b, e, h) = onward (m w).0 (m w).1 first.result first.returns first.holds in
      record { result = b; returns = e; holds = h }
    where
      onward :
          (end : Result A) (u : Work) (a : A)
          → end ≡ ok a
          → P a u.request
          → (b : B) × ((continue end f u).0 ≡ ok b) × Q b (continue end f u).1.request
      onward (ok c) u a e h =
          let same : a ≡ c = cc in
          let rest = next c u (rw same at h) in (rest.result, rest.returns, rest.holds)
      onward (err p) u a e h = absurd (cc)

pub Leads-get :
    {B : Type 0} (w : Work) (f : Work → Effect Work B) (Q : B → ServiceRequest → Type 0)
    → Leads w (f w) Q
    → Leads w (get >>= f) Q
unfolding ◌>>=◌ get
Leads-get w f Q h = record { result = h.result; returns = h.returns; holds = h.holds }

pub Leads-set_request :
    (w : Work) (f : ServiceRequest → ServiceRequest) (P : ServiceRequest → Type 0)
    → P (f w.request)
    → Leads w (set_request f) (λ _. P)
unfolding set_request modify
Leads-set_request w f P h = record { result = tt; returns = refl; holds = h }

pub Leads-set_tables :
    (w : Work) (f : ServiceRequest → Tables → Tables) (P : ServiceRequest → Type 0)
    → P w.request
    → Leads w (set_tables f) (λ _. P)
unfolding set_tables modify
Leads-set_tables w f P h = record { result = tt; returns = refl; holds = h }

pub Leads-apply_transition :
    (env : Env) (p : Principal) (target : RequestStatus) (w : Work) (P : ServiceRequest → Type 0)
    → can_transition w.request.status target ≡ true
    → P (moved env w.request target)
    → Leads w (apply_transition env p target) (λ _. P)
unfolding enter
Leads-apply_transition env p target w P can h =
    let e = apply_transition_allowed env p target w can in
    record { result = tt; returns = rw e refl; holds = rw e h }
