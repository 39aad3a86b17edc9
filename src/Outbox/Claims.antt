-- ===== src/Outbox/Claims.antt =====
-- What the claims of the outbox guarantee.
use kb_partners.Prelude.{
  ℕ, suc, ◌+◌, ◌<◌, ◌≤◌, Bool, true, false, ◌≡◌, refl, ◌↔◌, String, List, [], ◌∷◌, map, leb, select,
  All, All-sort_by, All-take, arith, length, update_where, if◌then◌else◌, Bool-cases, inl, inr,
}
use kb_partners.Auth.{Uuid}
use kb_partners.Requests.Models.{OutboxMessage, pending, failed}
use kb_partners.Outbox.{
  is_open, is_claimable, claimed, claimable_batch, id_in, claim_batch, mark_failed_or_retry,
}

All-select-if :
    (Q : OutboxMessage → Type 0) (p : OutboxMessage → Bool) (ms : List OutboxMessage)
    → All (λ m. p m ≡ true → Q m) ms
    → All Q (select p ms)
unfolding select
All-select-if Q p [] h = tt
All-select-if Q p (m ∷ ms) h = ground (arith, All-select-if Q p ms h.1, h.0)

-- A claimed row waits for the end of its window.
claimed-waits :
    (kind : String) (until later : ℕ) (m : OutboxMessage)
    → later < until
    → is_claimable kind later (claimed until m) ≡ false
unfolding is_claimable claimed
claimed-waits kind until later m h = ground arith

id_in-claimed :
    (i : Uuid) (until : ℕ) (ms : List OutboxMessage) → id_in i (map (claimed until) ms) ≡ id_in i ms
unfolding id_in claimed
id_in-claimed i until [] = refl
id_in-claimed i until (m ∷ ms) = rw (id_in-claimed i until ms)

module _ (kind' : String) (until later : ℕ) (batch : List OutboxMessage)
    (early : later < until) where
  others_claimable :
      (rows : List OutboxMessage)
      → All
          (λ m. is_claimable kind' later m ≡ true → id_in m.id (map (claimed until) batch) ≡ false)
          (update_where (λ m. id_in m.id batch) (claimed until) rows)
  unfolding update_where
  others_claimable [] = tt
  others_claimable (m ∷ rows) = (here (id_in m.id batch) refl, others_claimable rows)
    where
      here :
          (b : Bool)
          → id_in m.id batch ≡ b
          → let n = if b then claimed until m else m in
            is_claimable kind' later n ≡ true → id_in n.id (map (claimed until) batch) ≡ false
      here true e h = cc (claimed-waits kind' until later m early)
      here false e h = rw (id_in-claimed m.id until batch) e

-- Rows that one worker has claimed are in no batch that any worker claims before the visibility
-- timeout has passed, whatever its kind and limit.
pub claim_batch-exclusive :
    (kind kind' : String) (now later limit limit' visibility_timeout : ℕ)
    (rows : List OutboxMessage)
    → later < now + visibility_timeout
    → let first = claim_batch kind now limit visibility_timeout rows in
      All (λ m. id_in m.id first.0 ≡ false) (claimable_batch kind' later limit' first.1)
unfolding claim_batch claimable_batch
claim_batch-exclusive kind kind' now later limit limit' visibility_timeout rows early =
    All-take _ limit' _ (
      All-sort_by _ _ _ (
        All-select-if _ (is_claimable kind' later) _
          (others_claimable kind' _ later (claimable_batch kind now limit rows) early rows)))

-- A delivery of an open message that fails: it is claimed, with its window until `reclaim_at`, and
-- then given back or given up.
unfoldable pub fail_once :
    (error : String) (now reclaim_at max_attempts retry_at : ℕ) → OutboxMessage → OutboxMessage
unfolding claimed mark_failed_or_retry
fail_once error now reclaim_at max_attempts retry_at m =
    if is_open m.status
    then mark_failed_or_retry error now max_attempts retry_at (claimed reclaim_at m)
    else m

-- As many failing deliveries as the list has times.
unfoldable pub failing :
    (error : String) (max_attempts delay : ℕ) → List ℕ → OutboxMessage → OutboxMessage
unfolding fail_once
failing error max_attempts delay [] m = m
failing error max_attempts delay (now ∷ times) m =
    failing error max_attempts delay times
      (fail_once error now (now + delay) max_attempts (now + delay) m)

-- A message after a number of failed deliveries.
pub record AfterFailures (max_attempts : ℕ) (n : ℕ) (m : OutboxMessage) : Type 0 where
  pub waits : n < max_attempts → (m.status ≡ pending) × (m.attempts ≡ n)
  pub dead : max_attempts ≤ n → m.status ≡ failed

module _ (error : String) (now reclaim_at max_attempts retry_at : ℕ) where
  fail_once-again :
      (m : OutboxMessage)
      → m.status ≡ pending
      → m.attempts + 1 < max_attempts
      → let n = fail_once error now reclaim_at max_attempts retry_at m in
        (n.status ≡ pending) × (n.attempts ≡ m.attempts + 1)
  unfolding fail_once mark_failed_or_retry claimed
  fail_once-again m waiting more =
      let short : leb max_attempts (m.attempts + 1) ≡ false = ground arith in
      rw (waiting, short) (refl, refl)

  fail_once-last :
      (m : OutboxMessage)
      → m.status ≡ pending
      → max_attempts ≤ m.attempts + 1
      → (fail_once error now reclaim_at max_attempts retry_at m).status ≡ failed
  unfolding fail_once mark_failed_or_retry claimed
  fail_once-last m waiting enough =
      let last : leb max_attempts (m.attempts + 1) ≡ true = ground arith in rw (waiting, last)

  fail_once-dead :
      (m : OutboxMessage)
      → m.status ≡ failed
      → (fail_once error now reclaim_at max_attempts retry_at m).status ≡ failed
  unfolding fail_once
  fail_once-dead m dead = let shut : is_open m.status ≡ false = rw dead in rw shut dead

  fail_once-AfterFailures :
      (n : ℕ) (m : OutboxMessage)
      → AfterFailures max_attempts n m
      → AfterFailures max_attempts (suc n) (fail_once error now reclaim_at max_attempts retry_at m)
  fail_once-AfterFailures n m a = record {
    waits = λ h.
        let (waiting, count) = a.waits (omega arith) in
        let (again, counted) = fail_once-again m waiting (omega (arith, count)) in
        (again, omega (arith, counted, count));
    dead = λ h. elim (Bool-cases (leb max_attempts n)) [
      | inl over ↦ fail_once-dead m (a.dead (ground arith))
      | inr under ↦
          let (waiting, count) = a.waits (ground arith) in
          fail_once-last m waiting (omega (arith, count))
    ];
  }

failing-AfterFailures :
    (error : String) (max_attempts delay n k : ℕ) (times : List ℕ) (m : OutboxMessage)
    → k ≡ n + length times
    → AfterFailures max_attempts n m
    → AfterFailures max_attempts k (failing error max_attempts delay times m)
unfolding failing
failing-AfterFailures error max_attempts delay n k [] m e a =
    let same : k ≡ n = omega (arith, e) in rw same a
failing-AfterFailures error max_attempts delay n k (now ∷ times) m e a =
    failing-AfterFailures error max_attempts delay (suc n) k times _ (omega (arith, e))
      (fail_once-AfterFailures error now (now + delay) max_attempts (now + delay) n m a)

-- A new message whose deliveries all fail is still waiting after fewer failures than the limit, and
-- is given up for good from the failure that reaches the limit on.
pub failing-gives_up :
    (error : String) (max_attempts delay : ℕ) (times : List ℕ) (m : OutboxMessage)
    → m.status ≡ pending
    → m.attempts ≡ 0
    → 0 < max_attempts
    → ((length times < max_attempts)
        ↔ ((failing error max_attempts delay times m).status ≡ pending))
      × ((max_attempts ≤ length times)
          ↔ ((failing error max_attempts delay times m).status ≡ failed))
failing-gives_up error max_attempts delay times m fresh none_yet some_allowed =
    let a =
      failing-AfterFailures error max_attempts delay 0 (length times) times m (omega arith)
        (record { waits = λ h. (fresh, none_yet); dead = λ h. absurd (omega (arith, h)) }) in
    elim (Bool-cases (leb max_attempts (length times))) [
      | inl over ↦
          let dead = a.dead (ground arith) in
          ((λ h. absurd (ground arith), λ h. absurd (cc)), (λ h. dead, λ h. ground arith))
      | inr under ↦
          let waiting = (a.waits (ground arith)).0 in
          ((λ h. waiting, λ h. ground arith), (λ h. absurd (ground arith), λ h. absurd (cc)))
    ]
