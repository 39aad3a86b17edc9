-- ===== src/Requests/Lifecycle/Ends.antt =====
-- What holds of the unit of work once an operation has succeeded, one rule for each way to build
-- an operation.
use kb_partners.Prelude.{
  Bool, true, false, String, Option, modify, ◌≡◌, refl, Result, ok, err, Effect, pure, raise,
  require, get, continue, ◌>>=◌, Bool-cases, inl, inr, if◌then◌else◌,
}
use kb_partners.Errors.{Problem}
use kb_partners.Auth.{Principal}
use kb_partners.Config.{Env}
use kb_partners.Requests.Enums.{RequestStatus, HistoryAction}
use kb_partners.Requests.Models.{ServiceRequest}
use kb_partners.Requests.Fsm.{can_transition}
use kb_partners.Requests.Store.{Work, Tables, set_request, set_tables, journal}
use kb_partners.Requests.Lifecycle.{moved, enter, apply_transition}
use kb_partners.Requests.Lifecycle.Audit.{
  apply_transition_allowed, apply_transition_refused, enter-Transitioned,
}

module _ {A : Type 0} (P : ServiceRequest → Type 0) where
  -- If `m` succeeds, the request ends in `P`.
  pub record Ends (m : Effect Work A) : Type 0 where
    pub at : (w : Work) (a : A) → (m w).0 ≡ ok a → P (m w).1.request

  -- If `m` succeeds, the request does not leave `P`.
  pub record Keeps (m : Effect Work A) : Type 0 where
    pub at : (w : Work) (a : A) → (m w).0 ≡ ok a → P w.request → P (m w).1.request

module _ {A B : Type 0} (m : Effect Work A) (f : A → Effect Work B) where
  -- The state and the value in the middle of a sequence that succeeds.
  middle :
      (w : Work) (b : B)
      → ((m >>= f) w).0 ≡ ok b
      → (a : A) × ((m w).0 ≡ ok a) × ((m >>= f) w ≡ f a (m w).1)
  unfolding ◌>>=◌
  middle w b h = through (m w) h
    where
      through :
          (end : Result A × Work)
          → (continue end.0 f end.1).0 ≡ ok b
          → (a : A) × (end.0 ≡ ok a) × (continue end.0 f end.1 ≡ f a end.1)
      through (ok a, v) e = (a, refl, refl)
      through (err p, v) e = cc

  module _ {P : ServiceRequest → Type 0} where
    -- The last step ends in `P`.
    pub Ends-last : ((a : A) → Ends P (f a)) → Ends P (m >>= f)
    Ends-last last = record {
      at = λ w b h. let (a, e, s) = middle w b h in rw s ((last a).at (m w).1 b (rw s at h));
    }

    -- The first step ends in `P`, and the rest does not leave it.
    pub Ends-first : Ends P m → ((a : A) → Keeps P (f a)) → Ends P (m >>= f)
    Ends-first first keeps = record {
      at = λ w b h.
          let (a, e, s) = middle w b h in
          rw s ((keeps a).at (m w).1 b (rw s at h) (first.at w a e));
    }

    pub Keeps-bind : Keeps P m → ((a : A) → Keeps P (f a)) → Keeps P (m >>= f)
    Keeps-bind first keeps = record {
      at = λ w b h q.
          let (a, e, s) = middle w b h in
          rw s ((keeps a).at (m w).1 b (rw s at h) (first.at w a e q));
    }

-- The same from one given unit of work.
pub record EndsFrom {A : Type 0} (P : ServiceRequest → Type 0) (w : Work) (m : Effect Work A)
    : Type 0 where
  pub at : (a : A) → (m w).0 ≡ ok a → P (m w).1.request

module _ {A B : Type 0} {P : ServiceRequest → Type 0} (w : Work) (m : Effect Work A)
    (f : A → Effect Work B) where
  pub EndsFrom-bind : ((a : A) → (m w).0 ≡ ok a → EndsFrom P (m w).1 (f a)) → EndsFrom P w (m >>= f)
  EndsFrom-bind rest = record {
    at = λ b h. let (a, e, s) = middle m f w b h in rw s ((rest a e).at b (rw s at h));
  }

  pub EndsFrom-first : EndsFrom P w m → ((a : A) → Keeps P (f a)) → EndsFrom P w (m >>= f)
  EndsFrom-first first keeps =
      EndsFrom-bind (λ a e. record { at = λ b h. (keeps a).at (m w).1 b h (first.at a e) })

-- A passed check leaves the unit of work as it is.
pub EndsFrom-require :
    {B : Type 0} {P : ServiceRequest → Type 0} (w : Work) (b : Bool) (p : Problem)
    (f : Unit → Effect Work B)
    → (b ≡ true → EndsFrom P w (f tt))
    → EndsFrom P w (require b p >>= f)
unfolding ◌>>=◌
EndsFrom-require w true p f rest = record { at = (rest refl).at }
EndsFrom-require w false p f rest = record { at = λ a h. cc }

pub EndsFrom-get :
    {B : Type 0} {P : ServiceRequest → Type 0} (w : Work) (f : Work → Effect Work B)
    → EndsFrom P w (f w)
    → EndsFrom P w (get >>= f)
unfolding ◌>>=◌
EndsFrom-get w f rest = record { at = rest.at }

module _ {P : ServiceRequest → Type 0} where
  module _ {A : Type 0} where
    pub Keeps-pure : (a : A) → Keeps P (pure {S = Work} a)
    unfolding pure
    Keeps-pure a = record { at = λ w b h q. q }

    pub Keeps-if :
        (b : Bool) (m n : Effect Work A) → Keeps P m → Keeps P n → Keeps P (if b then m else n)
    Keeps-if true m n km kn = km
    Keeps-if false m n km kn = kn

    pub Ends-if :
        (b : Bool) (m n : Effect Work A) → Ends P m → Ends P n → Ends P (if b then m else n)
    Ends-if true m n km kn = km
    Ends-if false m n km kn = kn

    pub Ends-raise : (p : Problem) → Ends P (raise {S = Work} {A = A} p)
    unfolding raise
    Ends-raise p = record { at = λ w a h. cc }

    pub Keeps-raise : (p : Problem) → Keeps P (raise {S = Work} {A = A} p)
    unfolding raise
    Keeps-raise p = record { at = λ w a h q. cc }

  pub Keeps-get : Keeps P (get {S = Work})
  unfolding get
  Keeps-get = record { at = λ w a h q. q }

  pub Keeps-set_tables : (f : ServiceRequest → Tables → Tables) → Keeps P (set_tables f)
  unfolding set_tables modify
  Keeps-set_tables f = record { at = λ w a h q. q }

  pub Keeps-journal :
      (env : Env) (p : Principal) (action : HistoryAction)
      (from_value to_value : ServiceRequest → Option String)
      → Keeps P (journal env p action from_value to_value)
  unfolding journal
  Keeps-journal env p action from_value to_value = Keeps-set_tables _

  pub Ends-set_request :
      (f : ServiceRequest → ServiceRequest)
      → ((r : ServiceRequest) → P (f r))
      → Ends P (set_request f)
  unfolding set_request modify
  Ends-set_request f h = record { at = λ w a e. h w.request }

  pub Keeps-set_request :
      (f : ServiceRequest → ServiceRequest)
      → ((r : ServiceRequest) → P r → P (f r))
      → Keeps P (set_request f)
  unfolding set_request modify
  Keeps-set_request f h = record { at = λ w a e q. h w.request q }

  pub Keeps-apply_transition :
      (env : Env) (p : Principal) (target : RequestStatus)
      → ((r : ServiceRequest) → P r → P (moved env r target))
      → Keeps P (apply_transition env p target)
  unfolding enter
  Keeps-apply_transition env p target h = record {
    at = λ w a e q. elim (Bool-cases (can_transition w.request.status target)) [
      | inl c ↦ rw (apply_transition_allowed env p target w c) (h w.request q)
      | inr c ↦ rw (apply_transition_refused env p target w c) q
    ];
  }

pub Ends-apply_transition :
    (env : Env) (p : Principal) (target : RequestStatus)
    → Ends (λ r. r.status ≡ target) (apply_transition env p target)
Ends-apply_transition env p target = record {
  at = λ w a e. elim (Bool-cases (can_transition w.request.status target)) [
    | inl c ↦
        rw (apply_transition_allowed env p target w c) (enter-Transitioned env p target w).status
    | inr c ↦ cc (apply_transition_refused env p target w c)
  ];
}

pub ruleset keeps_rules = (
  Keeps-pure, Keeps-if, Keeps-raise, Keeps-get, Keeps-bind, Keeps-set_tables, Keeps-journal,
  Keeps-set_request, Keeps-apply_transition,
)
