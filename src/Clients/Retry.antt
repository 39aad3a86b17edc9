-- ===== src/Clients/Retry.antt =====
-- `retry_async` and `RetryPolicy` of backend/src/api/clients/retry.py. What the call does at each
-- attempt is an argument; the delays that are slept are collected.
use kb_partners.Prelude.{
  ℕ, zero, suc, ◌+◌, ◌-◌, ◌*◌, ◌^◌, ◌<◌, ◌≤◌, Bool, true, false, ◌≡◌, refl, List, [], ◌∷◌, leb,
  length, arith, if◌then◌else◌, All, ltb, Bool-cases, ◌⊎◌, inl, inr, ap, sym,
}

pub record RetryPolicy : Type 0 where
  pub attempts : ℕ
  pub base_delay : ℕ
  pub max_delay : ℕ

-- `min(a, b)`
abbrev pub min : ℕ → ℕ → ℕ
min a b = if leb a b then a else b

unfoldable pub backoff : RetryPolicy → ℕ → ℕ
backoff p attempt = min (p.base_delay * 2 ^ (attempt - 1)) p.max_delay

-- How one attempt ends: with a value, with an exception of `retry_on`, or with another one.
pub data Attempt {ℓ} (A E : Type ℓ) : Type ℓ where
  returned : A → Attempt A E
  retryable : E → Attempt A E
  fatal : E → Attempt A E

-- What the loop did: the end, the number of calls, and the delays between them.
pub record Retried {ℓ} (A E : Type ℓ) : Type ℓ where
  pub end : Attempt A E
  pub calls : ℕ
  pub slept : List ℕ

module _ {ℓ} {A E : Type ℓ} (fn : ℕ → Attempt A E) (p : RetryPolicy) where
  -- One more call before what the rest of the loop did.
  abbrev after_sleep : ℕ → Retried A E → Retried A E
  after_sleep delay rest = record {
    end = rest.end;
    calls = suc rest.calls;
    slept = delay ∷ rest.slept;
  }

  abbrev once : Attempt A E → Retried A E
  once a = record { end = a; calls = 1; slept = [] }

  abbrev go_on : Attempt A E → ℕ → Retried A E → Retried A E
  go_on (returned a) delay rest = once (returned a)
  go_on (fatal e) delay rest = once (fatal e)
  go_on (retryable e) delay rest = after_sleep delay rest

  -- The loop from a given attempt on, with so many attempts left after it.
  unfoldable pub retry_from : (left attempt : ℕ) → Retried A E
  retry_from zero attempt = once (fn attempt)
  retry_from (suc left) attempt =
      let rest = retry_from left (suc attempt) in go_on (fn attempt) (backoff p attempt) rest

  -- `retry_async`, for a policy that passed its check of `attempts >= 1`.
  unfoldable pub retry_async : Retried A E
  unfolding retry_from
  retry_async = retry_from (p.attempts - 1) 1

abbrev pub is_retryable {ℓ} : {A E : Type ℓ} → Attempt A E → Bool
is_retryable (returned a) = false
is_retryable (retryable e) = true
is_retryable (fatal e) = false

-- A loop that started at an attempt, with a limit of calls and a cap on the delays.
pub record IsFinished {A E : Type 0} (fn : ℕ → Attempt A E) (limit cap attempt : ℕ)
    (r : Retried A E) : Type 0 where
  pub last : ℕ
  pub counted : last + 1 ≡ attempt + r.calls
  pub some_call : 1 ≤ r.calls
  pub bounded : r.calls ≤ limit
  pub between : length r.slept + 1 ≡ r.calls
  pub delays : All (λ d. d ≤ cap) r.slept
  pub answer : r.end ≡ fn last
  pub earlier : (j : ℕ) → attempt ≤ j → j < last → is_retryable (fn j) ≡ true
  pub stopped : (is_retryable (fn last) ≡ false) ⊎ (r.calls ≡ limit)

min_le : (a b : ℕ) → min a b ≤ b
min_le a b = ground arith

module _ {A E : Type 0} (fn : ℕ → Attempt A E) (p : RetryPolicy) where
  once-IsFinished :
      (limit attempt : ℕ) (a : Attempt A E)
      → fn attempt ≡ a
      → (is_retryable (fn attempt) ≡ false) ⊎ (1 ≡ limit)
      → 1 ≤ limit
      → IsFinished fn limit p.max_delay attempt (once fn p a)
  once-IsFinished limit attempt a e why room = record {
    last = attempt;
    counted = refl;
    some_call = omega arith;
    bounded = room;
    between = refl;
    delays = tt;
    answer = sym e;
    earlier = λ j from below. absurd (omega (arith, from, below));
    stopped = why;
  }

  retry_from-IsFinished :
      (left attempt : ℕ)
      → IsFinished fn (left + 1) p.max_delay attempt (retry_from fn p left attempt)
  unfolding retry_from backoff
  retry_from-IsFinished zero attempt =
      once-IsFinished 1 attempt (fn attempt) refl (inr refl) (omega arith)
  retry_from-IsFinished (suc left) attempt =
      next (fn attempt) refl (retry_from-IsFinished left (suc attempt))
    where
      rest : Retried A E
      rest = retry_from fn p left (suc attempt)

      next :
          (a : Attempt A E)
          → fn attempt ≡ a
          → IsFinished fn (left + 1) p.max_delay (suc attempt) rest
          → IsFinished fn (suc left + 1) p.max_delay attempt (go_on fn p a (backoff p attempt) rest)
      next (returned v) e f =
          once-IsFinished (suc left + 1) attempt _ e (inl (ap is_retryable e)) (omega arith)
      next (fatal x) e f =
          once-IsFinished (suc left + 1) attempt _ e (inl (ap is_retryable e)) (omega arith)
      next (retryable x) e f = record {
        last = f.last;
        counted = omega (arith, f.counted);
        some_call = omega (arith, f.some_call);
        bounded = omega (arith, f.bounded);
        between = omega (arith, f.between);
        delays = (min_le _ p.max_delay, f.delays);
        answer = f.answer;
        earlier = λ j from below. elim (Bool-cases (ltb attempt j)) [
          | inl later ↦ f.earlier j (ground arith) below
          | inr first ↦ let same : j ≡ attempt = ground arith in rw (same, e)
        ];
        stopped = elim f.stopped [ inl final ↦ inl final | inr spent ↦ inr (omega (arith, spent)) ];
      }

-- A retried call is attempted at least once and at most as often as the policy says, with a sleep
-- of at most the policy's cap between two attempts and none after the last; it ends as the last
-- attempt did, all the earlier ones were exceptions to retry on, and the last one was none of those
-- or used up the attempts.
pub retry_async-IsFinished :
    {A E : Type 0} (fn : ℕ → Attempt A E) (p : RetryPolicy)
    → 1 ≤ p.attempts
    → IsFinished fn p.attempts p.max_delay 1 (retry_async fn p)
unfolding retry_async
retry_async-IsFinished fn p valid =
    let whole : p.attempts - 1 + 1 ≡ p.attempts = omega (arith, valid) in
    rw whole at (retry_from-IsFinished fn p (p.attempts - 1) 1)
