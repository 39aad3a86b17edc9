-- ===== src/Examples/Neighbours.antt =====
-- Runs of the circuit breaker and of the retries.
use kb_partners.Prelude.{
  ℕ, ◌<◌, ◌≤◌, true, false, ◌≡◌, ◌↔◌, refl, String, List, [], ◌∷◌, All, arith, length, eqb,
  if◌then◌else◌,
}
use kb_partners.Clients.Breaker.{
  CircuitBreaker, closed, opened, half_open, new_breaker, acquire, record_failure,
}
use kb_partners.Clients.Breaker.Runs.{acquire_all, fail_all, fail_all-opens, fail_all-recovers}
use kb_partners.Clients.Retry.{
  RetryPolicy, Attempt, returned, retryable, fatal, IsFinished, retry_from, retry_async,
  retry_async-IsFinished,
}
use kb_partners.Clients.Request.{passed, request, request-stuck}

abbrev probing : CircuitBreaker
probing = record (new_breaker 3 30) { state = half_open; half_open_in_flight = true; opened_at = 5 }

abbrev tripped : CircuitBreaker
tripped = record (new_breaker 3 30) { state = opened; failures = 3; opened_at = 5 }

abbrev some_times : List ℕ
some_times = 40 ∷ 1000 ∷ []

fail_all-recovers_example :
    let waited =
      acquire_all (8 ∷ 34 ∷ []) (record_failure 5 (fail_all (1 ∷ 2 ∷ []) (new_breaker 3 30))) in
    let probed = acquire 40 waited.1 in
    All (λ permit. permit ≡ false) waited.0
    × (probed.0 ≡ true)
    × All (λ permit. permit ≡ false) (acquire_all some_times probed.1).0
fail_all-recovers_example =
    fail_all-recovers 3 30 5 40 (1 ∷ 2 ∷ []) (8 ∷ 34 ∷ []) some_times (omega arith) (omega arith)
      (omega arith, (omega arith, tt)) (omega arith)

fail_all-opens_example :
    ((length some_times < 3) ↔ ((fail_all some_times (new_breaker 3 30)).state ≡ closed))
    × ((3 ≤ length some_times) ↔ ((fail_all some_times (new_breaker 3 30)).state ≡ opened))
fail_all-opens_example = fail_all-opens 3 30 some_times (omega arith)

abbrev policy : RetryPolicy
policy = record { attempts = 3; base_delay = 100; max_delay = 150 }

-- The first attempt times out, the second one is answered.
abbrev flaky : ℕ → Attempt String String
flaky n = if eqb n 1 then retryable "timeout" else returned "200"

retry_async-IsFinished_example : IsFinished flaky 3 150 1 (retry_async flaky policy)
retry_async-IsFinished_example = retry_async-IsFinished flaky policy (omega arith)

abbrev broken : ℕ → Attempt String String
broken n = fatal "bad url"

request-stuck_example :
    ((request policy broken 40 41 tripped).0 ≡ passed "bad url")
    × All
        (λ permit. permit ≡ false)
        (acquire_all some_times (request policy broken 40 41 tripped).1).0
unfolding new_breaker retry_async retry_from
request-stuck_example =
    request-stuck policy broken 40 41 tripped "bad url" some_times refl (omega arith) refl
