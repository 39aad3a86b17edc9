-- ===== src/Clients/Breaker.antt =====
-- `CircuitBreaker` of backend/src/api/clients/circuit_breaker.py. A lock serialises its operations,
-- so that each is a function on its state; the clock is an argument.
pub mod Runs
use kb_partners.Prelude.{ℕ, ◌+◌, Bool, true, false, List, [], ◌∷◌, leb, if◌then◌else◌}

pub data CircuitState : Type 0 where
  closed opened half_open : CircuitState

pub record CircuitBreaker : Type 0 where
  pub threshold : ℕ
  pub reset_timeout : ℕ
  pub state : CircuitState
  pub failures : ℕ
  pub opened_at : ℕ
  pub half_open_in_flight : Bool

-- `CircuitBreaker(...)`
unfoldable pub new_breaker : (failure_threshold reset_timeout : ℕ) → CircuitBreaker
new_breaker failure_threshold reset_timeout = record {
  threshold = failure_threshold;
  reset_timeout = reset_timeout;
  state = closed;
  failures = 0;
  opened_at = 0;
  half_open_in_flight = false;
}

-- The branches of `acquire` on the state.
unfoldable pub acquire_in : CircuitState → ℕ → CircuitBreaker → Bool × CircuitBreaker
acquire_in closed now b = (true, b)
acquire_in opened now b =
    if leb (b.opened_at + b.reset_timeout) now
    then (true, record b { state = half_open; half_open_in_flight = true })
    else (false, b)
acquire_in half_open now b =
    if b.half_open_in_flight then (false, b) else (true, record b { half_open_in_flight = true })

unfoldable pub acquire : ℕ → CircuitBreaker → Bool × CircuitBreaker
unfolding acquire_in
acquire now b = acquire_in b.state now b

unfoldable pub record_success : CircuitBreaker → CircuitBreaker
record_success b = record b { failures = 0; half_open_in_flight = false; state = closed }

-- The branches of `record_failure` on the state.
unfoldable pub failure_in : CircuitState → ℕ → CircuitBreaker → CircuitBreaker
failure_in half_open now b = record b {
  half_open_in_flight = false;
  state = opened;
  opened_at = now;
}
failure_in _ now b =
    let counted = record b { half_open_in_flight = false; failures = b.failures + 1 } in
    if leb b.threshold (b.failures + 1)
    then record counted { state = opened; opened_at = now }
    else counted

unfoldable pub record_failure : ℕ → CircuitBreaker → CircuitBreaker
unfolding failure_in
record_failure now b = failure_in b.state now b
