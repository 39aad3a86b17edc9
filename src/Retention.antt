-- ===== src/Retention.antt =====
-- backend/src/api/retention/worker.py: the raw input of a request is wiped when its time is over.
pub mod Erasure
use kb_partners.Prelude.{
  ℕ, ◌-◌, ◌*◌, Bool, not, ◌&&◌, String, ◌==◌, ◌≡◌, refl, Option, none, some, List, [], ◌∷◌, leb,
  ltb, length, take, select, sort_by, if◌then◌else◌, Effect, true, false, find_first-All, ◌>>◌,
}
use kb_partners.Auth.{Principal, system_principal, retention_actor_id}
use kb_partners.Config.{Env}
use kb_partners.Sla.Calendar.{day}
use kb_partners.Requests.Enums.{anonymized}
use kb_partners.Requests.Models.{ServiceRequest}
use kb_partners.Requests.Store.{Db, Work, find_request, open_work, set_request, journal}
use kb_partners.Requests.Lifecycle.Safe.{Safe, IsSound, Current, safe_rules}
use kb_partners.Channels.Drain.{flush_row}
use kb_partners.Channels.Drain.Sound.{flush_row-IsSound}

abbrev pub retention_principal : Principal
retention_principal = system_principal retention_actor_id

-- Older than the cutoff and not wiped yet.
unfoldable pub is_expired : (cutoff : ℕ) → ServiceRequest → Bool
is_expired cutoff r = ltb r.created_at cutoff && not (r.raw_input == r.raw_input_masked)

-- The cutoff of a run.
abbrev pub cutoff_of : Env → ℕ
cutoff_of env = env.now - env.raw_input_retention_days * day

-- `RequestRepository.list_raw_input_expired`; no row is locked by another worker.
unfoldable pub list_raw_input_expired :
    (cutoff limit : ℕ) → List ServiceRequest → List ServiceRequest
unfolding is_expired
list_raw_input_expired cutoff limit rows =
    take limit (sort_by (λ a b. leb a.created_at b.created_at) (select (is_expired cutoff) rows))

unfoldable pub wipe_raw_input : ServiceRequest → ServiceRequest
wipe_raw_input r = record r { raw_input = r.raw_input_masked }

unfoldable pub anonymize : Env → Effect Work Unit
unfolding wipe_raw_input
anonymize env = do
  set_request wipe_raw_input
  journal env retention_principal anonymized (λ r. none) (λ r. some "raw_input")

-- One round of the loop, on the session's object for a row.
unfoldable pub anonymize_row : Env → Option ServiceRequest → Db → Db
unfolding anonymize flush_row open_work
anonymize_row env none db = db
anonymize_row env (some r) db = (flush_row (anonymize env (open_work r db)) db).1

unfoldable pub anonymize_each : Env → List ServiceRequest → Db → Db
unfolding anonymize_row find_request
anonymize_each env [] db = db
anonymize_each env (r ∷ rest) db =
    anonymize_each env rest (anonymize_row env (find_request r.id db) db)

-- The number of rows, and the database after the commit.
unfoldable pub anonymize_expired_raw_input : Env → Db → ℕ × Db
unfolding list_raw_input_expired anonymize_each
anonymize_expired_raw_input env db =
    let rows = list_raw_input_expired (cutoff_of env) env.outbox_batch_size db.requests in
    if env.retention_worker_enabled then (length rows, anonymize_each env rows db) else (0, db)

wipe_keeps :
    (r : ServiceRequest) → ((wipe_raw_input r).id ≡ r.id) × ((wipe_raw_input r).status ≡ r.status)
unfolding wipe_raw_input
wipe_keeps r = (refl, refl)

Safe-anonymize : (env : Env) → Safe (anonymize env)
unfolding anonymize
Safe-anonymize env = search (safe_rules, wipe_keeps) depth 12

anonymize_row-IsSound :
    (env : Env) (loaded : Option ServiceRequest) (db : Db)
    → IsSound db
    → ((r : ServiceRequest) → loaded ≡ some r → Current db r)
    → IsSound (anonymize_row env loaded db)
unfolding anonymize_row
anonymize_row-IsSound env none db s now = s
anonymize_row-IsSound env (some r) db s now =
    flush_row-IsSound (anonymize env) r db (Safe-anonymize env) s (now r refl)

anonymize_each-IsSound :
    (env : Env) (rows : List ServiceRequest) (db : Db)
    → IsSound db
    → IsSound (anonymize_each env rows db)
unfolding anonymize_each find_request
anonymize_each-IsSound env [] db s = s
anonymize_each-IsSound env (r ∷ rest) db s = anonymize_each-IsSound env rest _ (
    anonymize_row-IsSound env (find_request r.id db) db s
      (λ x found. find_first-All (Current db) (λ y. y.id == r.id) db.requests x s.current found))

pub anonymize_expired_raw_input-IsSound :
    (env : Env) (db : Db) → IsSound db → IsSound (anonymize_expired_raw_input env db).1
unfolding anonymize_expired_raw_input
anonymize_expired_raw_input-IsSound env db s = by_gate env.retention_worker_enabled
  where
    rows : List ServiceRequest
    rows = list_raw_input_expired (cutoff_of env) env.outbox_batch_size db.requests

    by_gate :
        (b : Bool)
        → let end : ℕ × Db = if b then (length rows, anonymize_each env rows db) else (0, db) in
          IsSound end.1
    by_gate true = anonymize_each-IsSound env rows db s
    by_gate false = s
