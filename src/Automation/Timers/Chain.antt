-- ===== src/Automation/Timers/Chain.antt =====
-- The chain of partners comes to its end: enough missed deadlines take a request out of DISPATCHED.
use mathlib.Core.Path.{subst}
use kb_partners.Prelude.{
  ◌<◌, ◌≡◌, refl, sym, String, Bool, true, false, some, List, [], ◌∷◌, length, or_else,
  if◌then◌else◌, Effect, pure, get, ◌>>=◌, ◌>>◌, All, arith, ◌⊎◌, inl, inr,
}
use kb_partners.Config.{Env}
use kb_partners.Requests.Enums.{RequestStatus, Category, matching, dispatched, failed_dispatch, is}
use kb_partners.Requests.Models.{ServiceRequest}
use kb_partners.Requests.Fsm.{can_transition}
use kb_partners.Requests.Store.{Work}
use kb_partners.Requests.Lifecycle.{moved, set_timestamp}
use kb_partners.Requests.Lifecycle.Leads.{
  Leads, Leads-pure, Leads-bind, Leads-set_request, Leads-get, Leads-apply_transition,
}
use kb_partners.Channels.Dispatch.Tour.{step}
use kb_partners.Channels.Drain
use kb_partners.Channels.Dispatch.Returns.{
  IsReliable, InFlight, AfterDispatch, Leads-execute_dispatch,
}
use kb_partners.Automation.Timers.{
  Fallback, redispatched, failed_dispatch_outcome, take_partner, redispatch_along,
  redispatch_to_next, fall_back_along, run_accept_timeout_fallback,
}

-- A classified request in a given status, with a chain of partners behind.
record Standing (status : RequestStatus) (behind : List String) (r : ServiceRequest) : Type 0 where
  now : r.status ≡ status
  category : (c : Category) × (r.category ≡ some c)
  chain : or_else r.fallback_chain [] ≡ behind

-- A fallback along a chain: the request is on its way again with a shorter chain, or its dispatch
-- failed.
abbrev pub Falls : List String → Fallback → ServiceRequest → Type 0
Falls chain outcome r =
    ((shorter : List String) × (length shorter < length chain) × InFlight shorter r)
    ⊎ (r.status ≡ failed_dispatch)

outcome_cases :
    (next : String) (rest : List String) (delivered : Bool) (outcome : Fallback)
    (r : ServiceRequest)
    → AfterDispatch rest delivered r
    → Falls (next ∷ rest) outcome r
outcome_cases next rest true outcome r h = inl (rest, omega arith, h)
outcome_cases next rest false outcome r h = inr h

abbrev outcome_of : Bool → Fallback
outcome_of delivered = if delivered then redispatched else failed_dispatch_outcome

module _ (env : Env) (d : Drain.DispatchDeps) (reliable : IsReliable d.resolver d.policy) where
  Leads-redispatch_along :
      (next : String) (rest : List String) (w : Work)
      → Standing matching (next ∷ rest) w.request
      → Leads w (redispatch_along env d (next ∷ rest)) (Falls (next ∷ rest))
  unfolding redispatch_along can_transition take_partner moved set_timestamp
  Leads-redispatch_along next rest w m =
      Leads-bind w _ _ (λ _. Standing matching rest) (Falls (next ∷ rest))
        (Leads-set_request w _ (Standing matching rest)
          (record { now = m.now; category = m.category; chain = refl }))
        (λ _ u f.
          Leads-bind u _ _ (λ _. Standing RequestStatus.assigned rest) (Falls (next ∷ rest))
            (Leads-apply_transition env _ RequestStatus.assigned u
              (Standing RequestStatus.assigned rest) (rw f.now refl)
              (record { now = refl; category = f.category; chain = f.chain }))
            (λ _ v g.
              Leads-bind v _ _ (λ _. InFlight rest) (Falls (next ∷ rest))
                (Leads-apply_transition env _ dispatched v (InFlight rest) (rw g.now refl) (record {
                  status = refl;
                  category = g.category;
                  dispatched_at = (env.now, refl);
                  chain = g.chain;
                }))
                (λ _ x h.
                  Leads-bind x _ _ (AfterDispatch rest) (Falls (next ∷ rest))
                    (Leads-execute_dispatch env d.resolver d.policy d.configs rest x reliable h)
                    (λ delivered y k.
                      Leads-pure y (outcome_of delivered) (Falls (next ∷ rest))
                        (outcome_cases next rest delivered (outcome_of delivered) y.request k)))))

  Leads-redispatch_to_next :
      (next : String) (rest : List String) (w : Work)
      → Standing matching (next ∷ rest) w.request
      → Leads w (redispatch_to_next env d) (Falls (next ∷ rest))
  unfolding redispatch_to_next
  Leads-redispatch_to_next next rest w m = Leads-get w _ (Falls (next ∷ rest)) (
      subst (λ chain. Leads w (redispatch_along env d chain) (Falls (next ∷ rest))) (sym m.chain)
        (Leads-redispatch_along next rest w m))

  Leads-fall_back_along :
      (chain : List String) (w : Work)
      → InFlight chain w.request
      → Leads w (fall_back_along env d chain) (Falls chain)
  unfolding fall_back_along can_transition moved set_timestamp
  Leads-fall_back_along [] w f =
      Leads-bind w _ _ (λ _ r. r.status ≡ failed_dispatch) (Falls [])
        (Leads-apply_transition env _ failed_dispatch w (λ r. r.status ≡ failed_dispatch)
          (rw f.status refl) refl)
        (λ _ u h. Leads-pure u _ (Falls []) (inr h))
  Leads-fall_back_along (next ∷ rest) w f =
      Leads-bind w _ _ (λ _. Standing matching (next ∷ rest)) (Falls (next ∷ rest))
        (Leads-apply_transition env _ matching w (Standing matching (next ∷ rest))
          (rw f.status refl) (record { now = refl; category = f.category; chain = f.chain }))
        (λ _ u h. Leads-redispatch_to_next next rest u h)

  -- A missed deadline of acceptance: the handling returns, and the request is on its way to a
  -- partner again, with fewer behind, or its dispatch failed.
  Leads-run_accept_timeout_fallback :
      (chain : List String) (w : Work)
      → InFlight chain w.request
      → Leads w (run_accept_timeout_fallback env d) (Falls chain)
  unfolding run_accept_timeout_fallback
  Leads-run_accept_timeout_fallback chain w f = Leads-get w _ (Falls chain) (
      subst (λ q. Leads w (fall_back_along env d q) (Falls chain)) (sym f.chain)
        (Leads-fall_back_along chain w f))

-- A scan that finds the deadline missed, with its clock and its channels.
pub record Round : Type 0 where
  pub env : Env
  pub d : Drain.DispatchDeps

-- Round after round the deadline is missed, as long as the request waits for a partner.
unfoldable pub misses : List Round → Effect Work Unit
misses [] = pure tt
misses (round ∷ rounds) =
    let later = misses rounds in
    do
      w ← get
      if is w.request.status dispatched
          then (run_accept_timeout_fallback round.env round.d >> later)
          else pure tt

abbrev Failed : Unit {0} → ServiceRequest → Type 0
Failed _ r = r.status ≡ failed_dispatch

-- The test of a round, for a status that is known.
waiting :
    (status : RequestStatus) (w : Work) (step : Effect Work Unit)
    → w.request.status ≡ status
    → Leads w (if is status dispatched then step else pure tt) Failed
    → Leads w (if is w.request.status dispatched then step else pure tt) Failed
waiting status w step same h =
    subst (λ s. Leads w (if is s dispatched then step else pure tt) Failed) (sym same) h

Leads-stopped :
    (rounds : List Round) (w : Work)
    → w.request.status ≡ failed_dispatch
    → Leads w (misses rounds) Failed
unfolding misses
Leads-stopped [] w h = Leads-pure w tt Failed h
Leads-stopped (round ∷ rounds) w h =
    Leads-get w _ Failed (waiting failed_dispatch w _ h (Leads-pure w tt Failed h))

-- A request that is on its way to a partner with a chain of others behind, whose deadline of
-- acceptance is missed in more rounds than the chain has partners, ends in FAILED_DISPATCH, and
-- no round raises: if the channels raise nothing unexpected and the deadlines can be computed.
pub misses-Failed :
    (rounds : List Round) (chain : List String) (w : Work)
    → All (λ round. IsReliable round.d.resolver round.d.policy) rounds
    → length chain < length rounds
    → InFlight chain w.request
    → Leads w (misses rounds) (λ _ r. r.status ≡ failed_dispatch)
unfolding misses
misses-Failed [] chain w reliable few f = absurd (omega arith)
misses-Failed (round ∷ rounds) chain w reliable few f = Leads-get w _ Failed (
    waiting dispatched w _ f.status (
      Leads-bind w _ _ (Falls chain) Failed
        (Leads-run_accept_timeout_fallback round.env round.d reliable.0 chain w f)
        (λ outcome u h. elim h [
          | inl (shorter, less, g) ↦
              misses-Failed rounds shorter u reliable.1 (omega (arith, less, few)) g
          | inr failed ↦ Leads-stopped rounds u failed
        ])))
