-- ===== src/Clients/Request.antt =====
-- `ResilientHttpClient.request` of backend/src/api/clients/base.py: a permit of the breaker, the
-- retried call, and what is reported to the breaker. The answers of the network are an argument, as
-- are the times at which the breaker reads its clock.
use kb_partners.Prelude.{
  ℕ, ◌+◌, ◌≤◌, Bool, true, false, ◌≡◌, refl, ap, ◌∙◌, List, All, arith, inl, inr,
}
use kb_partners.Clients.Breaker.{CircuitBreaker, opened, acquire, record_success, record_failure}
use kb_partners.Clients.Breaker.Runs.{acquire_all, acquire_all-IsProbing, acquire-opened}
use kb_partners.Clients.Retry.{RetryPolicy, Attempt, returned, retryable, fatal, retry_async}

-- A response with its status, which may be below 500, or one of the exceptions: the breaker is
-- open, the neighbour is not available, or another exception of the call that passes through.
pub data Answer (A E : Type 0) : Type 0 where
  response : A → Answer A E
  circuit_open : Answer A E
  external_service_error : E → Answer A E
  passed : E → Answer A E

module _ {A E : Type 0} where
  -- The `except` clauses, and the report of a success.
  unfoldable pub report :
      Attempt A E → (failed_at : ℕ) → CircuitBreaker → Answer A E × CircuitBreaker
  report (returned a) failed_at b = (response a, record_success b)
  report (retryable e) failed_at b = (external_service_error e, record_failure failed_at b)
  report (fatal e) failed_at b = (passed e, b)

  unfoldable pub permitted : Bool → Attempt A E → ℕ → CircuitBreaker → Answer A E × CircuitBreaker
  unfolding report
  permitted true end failed_at b = report end failed_at b
  permitted false end failed_at b = (circuit_open, b)

  unfoldable pub request :
      RetryPolicy
      → (network : ℕ → Attempt A E) → (now failed_at : ℕ) → CircuitBreaker
      → Answer A E × CircuitBreaker
  unfolding permitted
  request p network now failed_at b =
      let (permit, held) = acquire now b in
      let end = (retry_async network p).end in permitted permit end failed_at held

-- If the probe of an open breaker whose timeout has passed meets an exception that is not to be
-- retried, the breaker refuses every request for a permit from then on, at whatever time.
pub request-stuck :
    {A E : Type 0} (p : RetryPolicy) (network : ℕ → Attempt A E) (now failed_at : ℕ)
    (b : CircuitBreaker) (e : E) (later : List ℕ)
    → b.state ≡ opened
    → b.opened_at + b.reset_timeout ≤ now
    → (retry_async network p).end ≡ fatal e
    → let (answer, after) = request p network now failed_at b in
      (answer ≡ passed e) × All (λ permit. permit ≡ false) (acquire_all later after).0
unfolding request permitted report
request-stuck p network now failed_at b e later o passed_by h = elim (acquire-opened now b o) [
  | inl (early, refused) ↦ absurd (omega (arith, early, passed_by))
  | inr (late, permit, probing) ↦
      let held = (acquire now b).1 in
      let same : request p network now failed_at b ≡ (passed e, held) =
        ap (λ c. permitted c (retry_async network p).end failed_at held) permit
        ∙ ap (λ a. permitted true a failed_at held) h in
      rw same (refl, (acquire_all-IsProbing later held probing).0)
]
