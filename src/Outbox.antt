-- ===== src/Outbox.antt =====
-- backend/src/api/outbox/repository.py: the transactional outbox.
pub mod Claims
use kb_partners.Prelude.{
  ℕ, suc, ◌+◌, ◌*◌, ◌-◌, ◌^◌, Bool, true, false, ◌&&◌, ◌||◌, String, ◌==◌, Option, none, some, List,
  [], ◌∷◌, ◌++◌, map, leb, select, take, truncate, sort_by, update_where, if◌then◌else◌,
}
use kb_partners.Auth.{Uuid}
use kb_partners.Config.{Env}
use kb_partners.Requests.Models.{OutboxMessage, OutboxStatus, pending, processing, done, failed}
use kb_partners.Requests.Store.{Tables}

-- `OutboxRepository.enqueue`, with the defaults of the row (`attempts`, `available_at`, the id).
unfoldable pub enqueue : Env → String → List (String × Option String) → Tables → Tables
enqueue env kind payload t = record t { outbox = t.outbox ++ message ∷ []; drawn = suc t.drawn }
  where
    message : OutboxMessage
    message = record {
      id = env.uuid4 t.drawn;
      kind = kind;
      payload = payload;
      status = pending;
      attempts = 0;
      available_at = env.now;
      last_error = none;
      created_at = env.now;
      processed_at = none;
    }

-- `status in (PENDING, PROCESSING)`
abbrev pub is_open : OutboxStatus → Bool
is_open pending = true
is_open processing = true
is_open done = false
is_open failed = false

-- The WHERE clause of `claim_batch`.
unfoldable pub is_claimable : String → ℕ → OutboxMessage → Bool
is_claimable kind now m = m.kind == kind && (is_open m.status && leb m.available_at now)

-- What a claim does to a row.
unfoldable pub claimed : ℕ → OutboxMessage → OutboxMessage
claimed reclaim_at m = record m {
  status = processing;
  attempts = m.attempts + 1;
  available_at = reclaim_at;
}

-- The rows that `claim_batch` takes: the claimable ones, oldest `available_at` first, at most
-- `limit` of them. No other worker holds a lock here; a locked row would be skipped.
unfoldable pub claimable_batch : String → ℕ → ℕ → List OutboxMessage → List OutboxMessage
unfolding is_claimable
claimable_batch kind now limit rows =
    take limit
      (sort_by (λ a b. leb a.available_at b.available_at) (select (is_claimable kind now) rows))

-- `m.id in [row.id for row in batch]`
unfoldable pub id_in : Uuid → List OutboxMessage → Bool
id_in i [] = false
id_in i (m ∷ batch) = m.id == i || id_in i batch

-- `claim_batch`: the claimed rows, and the table with them updated.
unfoldable pub claim_batch :
    String → ℕ → ℕ → ℕ → List OutboxMessage → List OutboxMessage × List OutboxMessage
unfolding claimable_batch claimed id_in
claim_batch kind now limit visibility_timeout rows =
    let batch = claimable_batch kind now limit rows in
    (
      map (claimed (now + visibility_timeout)) batch,
      update_where (λ m. id_in m.id batch) (claimed (now + visibility_timeout)) rows,
    )

unfoldable pub mark_done : ℕ → OutboxMessage → OutboxMessage
mark_done now m = record m { status = done; processed_at = some now }

abbrev pub max_error_len : ℕ
max_error_len = 1000

unfoldable pub mark_failed_or_retry :
    (error : String) (now max_attempts retry_at : ℕ) → OutboxMessage → OutboxMessage
mark_failed_or_retry error now max_attempts retry_at m =
    let m' = record m { last_error = some (truncate max_error_len error) } in
    if leb max_attempts m.attempts
    then record m' { status = failed; processed_at = some now }
    else record m' { status = pending; available_at = retry_at }

-- `outbox_retry_base_seconds * (2 ** (attempts - 1))`; a claimed message has `attempts >= 1`.
unfoldable pub retry_delay : Env → OutboxMessage → ℕ
retry_delay env m = env.outbox_retry_base_seconds * 2 ^ (m.attempts - 1)
