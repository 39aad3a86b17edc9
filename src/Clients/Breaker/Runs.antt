-- ===== src/Clients/Breaker/Runs.antt =====
-- What runs of the breaker's operations guarantee.
use kb_partners.Prelude.{
  ℕ, ◌+◌, ◌<◌, ◌≤◌, Bool, true, false, ◌≡◌, ◌↔◌, ◌⊎◌, refl, ap, ◌∙◌, if◌then◌else◌, List, [], ◌∷◌,
  leb, arith, length, Bool-cases, inl, inr, All,
}
use kb_partners.Clients.Breaker.{
  CircuitState, closed, opened, half_open, CircuitBreaker, new_breaker, acquire, acquire_in,
  record_failure, failure_in,
}

-- Requests for a permit at the given times, one after another: the permits, and the breaker.
unfoldable pub acquire_all : List ℕ → CircuitBreaker → List Bool × CircuitBreaker
acquire_all [] b = ([], b)
acquire_all (now ∷ times) b =
    let (permit, next) = acquire now b in
    let (permits, end) = acquire_all times next in (permit ∷ permits, end)

-- A probe is under way.
pub record IsProbing (b : CircuitBreaker) : Type 0 where
  pub state : b.state ≡ half_open
  pub in_flight : b.half_open_in_flight ≡ true

if_true {ℓ} : {A : Type ℓ} (b : Bool) (x y : A) → b ≡ true → (if b then x else y) ≡ x
if_true b x y h = rw h

if_false {ℓ} : {A : Type ℓ} (b : Bool) (x y : A) → b ≡ false → (if b then x else y) ≡ y
if_false b x y h = rw h

acquire-IsProbing : (now : ℕ) (b : CircuitBreaker) → IsProbing b → acquire now b ≡ (false, b)
unfolding acquire acquire_in
acquire-IsProbing now b p =
    ap (λ s. acquire_in s now b) p.state ∙ if_true b.half_open_in_flight _ _ p.in_flight

-- While a probe is under way every request for a permit is refused and changes nothing.
pub acquire_all-IsProbing :
    (times : List ℕ) (b : CircuitBreaker)
    → IsProbing b
    → All (λ permit. permit ≡ false) (acquire_all times b).0 × ((acquire_all times b).1 ≡ b)
unfolding acquire_all
acquire_all-IsProbing [] b p = (tt, refl)
acquire_all-IsProbing (now ∷ times) b p =
    let rest = acquire_all-IsProbing times b p in
    rw (acquire-IsProbing now b p) ((refl, rest.0), rest.1)

acquire-opened_early :
    (now : ℕ) (b : CircuitBreaker)
    → b.state ≡ opened
    → leb (b.opened_at + b.reset_timeout) now ≡ false
    → acquire now b ≡ (false, b)
unfolding acquire acquire_in
acquire-opened_early now b o early =
    ap (λ s. acquire_in s now b) o ∙ if_false (leb (b.opened_at + b.reset_timeout) now) _ _ early

acquire-opened_late :
    (now : ℕ) (b : CircuitBreaker)
    → b.state ≡ opened
    → leb (b.opened_at + b.reset_timeout) now ≡ true
    → acquire now b ≡ (true, record b { state = half_open; half_open_in_flight = true })
unfolding acquire acquire_in
acquire-opened_late now b o late =
    ap (λ s. acquire_in s now b) o ∙ if_true (leb (b.opened_at + b.reset_timeout) now) _ _ late

-- An open breaker refuses, and stays as it is, until the timeout has passed since it opened; from
-- then on it permits a request and is probing.
pub acquire-opened :
    (now : ℕ) (b : CircuitBreaker)
    → b.state ≡ opened
    → ((now < b.opened_at + b.reset_timeout) × (acquire now b ≡ (false, b)))
      ⊎ ((b.opened_at + b.reset_timeout ≤ now)
          × ((acquire now b).0 ≡ true)
          × IsProbing (acquire now b).1)
acquire-opened now b o = elim (Bool-cases (leb (b.opened_at + b.reset_timeout) now)) [
  | inl late ↦ inr (
    ground arith,
    rw (acquire-opened_late now b o late) refl,
    rw (acquire-opened_late now b o late) (record { state = refl; in_flight = refl }),
  )
  | inr early ↦ inl (ground arith, acquire-opened_early now b o early)
]

-- Failures at the given times, with no success between them.
unfoldable pub fail_all : List ℕ → CircuitBreaker → CircuitBreaker
fail_all [] b = b
fail_all (now ∷ times) b = fail_all times (record_failure now b)

-- A breaker after a number of failures in a row.
record IsCounting (limit n : ℕ) (b : CircuitBreaker) : Type 0 where
  threshold : b.threshold ≡ limit
  failures : b.failures ≡ n
  low : n < limit → b.state ≡ closed
  high : limit ≤ n → b.state ≡ opened

-- What a failure does to a breaker that is closed or open.
counted : ℕ → CircuitBreaker → CircuitBreaker
counted now b = failure_in closed now b

record_failure-counted :
    (now : ℕ) (b : CircuitBreaker)
    → (b.state ≡ closed) ⊎ (b.state ≡ opened)
    → record_failure now b ≡ counted now b
unfolding record_failure failure_in counted
record_failure-counted now b (inl c) = ap (λ s. failure_in s now b) c
record_failure-counted now b (inr o) = ap (λ s. failure_in s now b) o

counted-IsCounting :
    (limit now n k : ℕ) (b : CircuitBreaker)
    → k ≡ n + 1
    → IsCounting limit n b
    → IsCounting limit k (counted now b)
unfolding counted failure_in
counted-IsCounting limit now n k b e c = elim (Bool-cases (leb b.threshold (b.failures + 1))) [
  | inl over ↦ rw over (record {
    threshold = c.threshold;
    failures = omega (arith, c.failures, e);
    low = λ h. absurd (ground (arith, c.failures, c.threshold, e));
    high = λ h. refl;
  })
  | inr under ↦ rw under (record {
    threshold = c.threshold;
    failures = omega (arith, c.failures, e);
    low = λ h. c.low (omega (arith, e));
    high = λ h. absurd (ground (arith, c.failures, c.threshold, e));
  })
]

calm_at :
    (limit n : ℕ) (b : CircuitBreaker)
    → IsCounting limit n b
    → (b.state ≡ closed) ⊎ (b.state ≡ opened)
calm_at limit n b c = elim (Bool-cases (leb limit n)) [
  | inl h ↦ inr (c.high (ground arith))
  | inr h ↦ inl (c.low (ground arith))
]

opens_at :
    (now : ℕ) (b : CircuitBreaker)
    → leb b.threshold (b.failures + 1) ≡ true
    → ((counted now b).state ≡ opened) × ((counted now b).opened_at ≡ now)
unfolding counted failure_in
opens_at now b over = rw over (refl, refl)

fail_all-IsCounting :
    (limit n k : ℕ) (times : List ℕ) (b : CircuitBreaker)
    → k ≡ n + length times
    → IsCounting limit n b
    → IsCounting limit k (fail_all times b)
unfolding fail_all
fail_all-IsCounting limit n k [] b e c = let same : k ≡ n = omega (arith, e) in rw same c
fail_all-IsCounting limit n k (now ∷ times) b e c =
    fail_all-IsCounting limit (n + 1) k times (record_failure now b) (omega (arith, e)) (
      rw (record_failure-counted now b (calm_at limit n b c))
        (counted-IsCounting limit now n (n + 1) b refl c))

new-IsCounting :
    (limit reset : ℕ) (times : List ℕ)
    → 0 < limit
    → IsCounting limit (length times) (fail_all times (new_breaker limit reset))
unfolding new_breaker
new-IsCounting limit reset times some_allowed =
    fail_all-IsCounting limit 0 (length times) times (new_breaker limit reset) (omega arith)
      (record {
        threshold = refl;
        failures = refl;
        low = λ h. refl;
        high = λ h. absurd (omega (arith, h));
      })

-- A new breaker, after failures in a row, is closed as long as they are fewer than the threshold,
-- and open from the failure that reaches the threshold on.
pub fail_all-opens :
    (failure_threshold reset_timeout : ℕ) (times : List ℕ)
    → 0 < failure_threshold
    → let b = fail_all times (new_breaker failure_threshold reset_timeout) in
      ((length times < failure_threshold) ↔ (b.state ≡ closed))
      × ((failure_threshold ≤ length times) ↔ (b.state ≡ opened))
unfolding new_breaker
fail_all-opens failure_threshold reset_timeout times some_allowed =
    let c = new-IsCounting failure_threshold reset_timeout times some_allowed in
    elim (Bool-cases (leb failure_threshold (length times))) [
      | inl over ↦
          let high = c.high (ground arith) in
          ((λ h. absurd (ground arith), λ h. absurd (cc)), (λ h. high, λ h. ground arith))
      | inr under ↦
          let low = c.low (ground arith) in
          ((λ h. low, λ h. ground arith), (λ h. absurd (ground arith), λ h. absurd (cc)))
    ]

new_breaker-reset : (limit reset : ℕ) → (new_breaker limit reset).reset_timeout ≡ reset
unfolding new_breaker
new_breaker-reset limit reset = refl

record_failure-reset :
    (now : ℕ) (b : CircuitBreaker) → (record_failure now b).reset_timeout ≡ b.reset_timeout
unfolding record_failure failure_in
record_failure-reset now b = by_state b.state
  where
    by_state : (s : CircuitState) → (failure_in s now b).reset_timeout ≡ b.reset_timeout
    by_state half_open = refl
    by_state closed = ground arith
    by_state opened = ground arith

fail_all-reset :
    (times : List ℕ) (b : CircuitBreaker) → (fail_all times b).reset_timeout ≡ b.reset_timeout
unfolding fail_all
fail_all-reset [] b = refl
fail_all-reset (now ∷ times) b =
    fail_all-reset times (record_failure now b) ∙ record_failure-reset now b

-- The failure that reaches the threshold, or comes after it, opens the breaker at its own time.
record_failure-opened_at :
    (limit n now : ℕ) (b : CircuitBreaker)
    → IsCounting limit n b
    → limit ≤ n + 1
    → ((record_failure now b).state ≡ opened) × ((record_failure now b).opened_at ≡ now)
record_failure-opened_at limit n now b c enough =
    rw (record_failure-counted now b (calm_at limit n b c))
      (opens_at now b (ground (arith, c.failures, c.threshold)))

acquire_all-early :
    (times : List ℕ) (b : CircuitBreaker)
    → b.state ≡ opened
    → All (λ now. now < b.opened_at + b.reset_timeout) times
    → All (λ permit. permit ≡ false) (acquire_all times b).0 × ((acquire_all times b).1 ≡ b)
unfolding acquire_all
acquire_all-early [] b o early = (tt, refl)
acquire_all-early (now ∷ times) b o early =
    let rest = acquire_all-early times b o early.1 in
    rw (acquire-opened_early now b o (ground (arith, early.0))) ((refl, rest.0), rest.1)

-- A new breaker, after failures in a row that reach the threshold, the last of them at `last`:
-- it refuses every call that comes earlier than the timeout after `last`, then it permits the first
-- call that comes later as its probe, and while the probe is under way it refuses all others.
pub fail_all-recovers :
    (failure_threshold reset_timeout last probe : ℕ) (times early later : List ℕ)
    → 0 < failure_threshold
    → failure_threshold ≤ length times + 1
    → All (λ now. now < last + reset_timeout) early
    → last + reset_timeout ≤ probe
    → let tripped =
        record_failure last (fail_all times (new_breaker failure_threshold reset_timeout)) in
      let waited = acquire_all early tripped in
      let probed = acquire probe waited.1 in
      All (λ permit. permit ≡ false) waited.0
      × (probed.0 ≡ true)
      × All (λ permit. permit ≡ false) (acquire_all later probed.1).0
fail_all-recovers limit reset last probe times early later some_allowed enough soon late =
    let b = fail_all times (new_breaker limit reset) in
    let open_ =
      record_failure-opened_at limit (length times) last b
        (new-IsCounting limit reset times some_allowed) enough in
    let same_reset : (record_failure last b).reset_timeout ≡ reset =
      record_failure-reset last b
      ∙ (fail_all-reset times (new_breaker limit reset) ∙ new_breaker-reset limit reset) in
    let refused =
      acquire_all-early early (record_failure last b) open_.0 (rw (open_.1, same_reset) soon) in
    elim (acquire-opened probe (record_failure last b) open_.0) [
      | inl too_soon ↦ absurd (omega (arith, too_soon.0, open_.1, same_reset, late))
      | inr now_probing ↦ (
        refused.0,
        rw refused.1 now_probing.1,
        rw refused.1
            (acquire_all-IsProbing later (acquire probe (record_failure last b)).1 now_probing.2).0,
      )
    ]
