-- ===== src/Requests/Intake/Laws.antt =====
-- Idempotency of the intake, and the new row.
use text.Mathlib.TextPositions.{eq_refl}
use kb_partners.Prelude.{
  Bool, true, false, String, ◌==◌, ◌≡◌, refl, sym, ◌∙◌, Option, none, some, List, [], ◌∷◌, ◌++◌,
  holds_text, find_first, arith, Result, ok, err, All, All-append, eq_iff,
}
use kb_partners.Auth.{Principal, Uuid}
use kb_partners.Config.{Env}
use kb_partners.Requests.Enums.{value}
use kb_partners.Requests.Models.{ServiceRequest, RequestHistory}
use kb_partners.Requests.Store.{Db, Tables, add_history, add_request}
use kb_partners.Requests.Lifecycle.Emits.{
  Emits, Emits-trans, Emits-if, Emits-refl, Emits-enqueue, Emits-emit_event,
  Emits-emit_notifications,
}
use kb_partners.Requests.Lifecycle.Journal.{replay, replay-append, IsLegal, other}
use kb_partners.Requests.Lifecycle.Safe.{IsSound}
use kb_partners.Requests.Intake.Drafts.{NewRequest, draft_of, create_request}
use kb_partners.Requests.Intake.{
  Draft, by_key, new_request, created_row, announce_new, take_number, create, existing_for, answer,
  flush, intake,
}

find_first-append :
    (p : ServiceRequest → Bool) (rows : List ServiceRequest) (r : ServiceRequest)
    → find_first p rows ≡ none
    → p r ≡ true
    → find_first p (rows ++ r ∷ []) ≡ some r
unfolding find_first
find_first-append p [] r e h = rw h
find_first-append p (x ∷ rows) r e h = ground (arith, find_first-append p rows r)

-- What holds of both answers holds of `answer`.
answer-both :
    (Q : ServiceRequest → Db → Type 0) (o : Option ServiceRequest) (kept : Db)
    (fresh : (ServiceRequest × Bool) × Db)
    → (o ≡ none → Q fresh.0.0 fresh.1)
    → ((r : ServiceRequest) → o ≡ some r → Q r kept)
    → Q (answer o kept fresh).0.0 (answer o kept fresh).1
unfolding answer
answer-both Q none kept fresh f g = f refl
answer-both Q (some r) kept fresh f g = g r refl

answer-some :
    (o : Option ServiceRequest) (r : ServiceRequest) (kept : Db)
    (fresh : (ServiceRequest × Bool) × Db)
    → o ≡ some r
    → answer o kept fresh ≡ ((r, false), kept)
unfolding answer
answer-some o r kept fresh h = rw h

keyed_existing :
    (k : Option String) (key : String) (db : Db) → k ≡ some key → existing_for k db ≡ by_key key db
unfolding existing_for
keyed_existing none key db h = cc
keyed_existing (some k) key db h = cc

module _ (env : Env) (mask : String → String) (automation : Bool) (p : Principal) (d : Draft) where
  create-found :
      (key : String) (db : Db)
      → d.idempotency_key ≡ some key
      → by_key key db ≡ none
      → let end = create env mask automation p d db in by_key key end.1 ≡ some end.0.0
  unfolding create by_key new_request add_request
  create-found key db keyed e =
      find_first-append (λ r. holds_text r.idempotency_key key) db.requests _ e
        (rw (keyed, eq_refl key))

  flush-found :
      (key : String) (db : Db)
      → d.idempotency_key ≡ some key
      → let end = flush env mask automation p d db in by_key key end.1 ≡ some end.0.0
  unfolding flush by_key
  flush-found key db keyed =
      answer-both (λ r after. by_key key after ≡ some r) (existing_for d.idempotency_key db) _ _
        (λ e. create-found key db keyed (sym (keyed_existing _ key db keyed) ∙ e))
        (λ r e. kept_by_key r (sym (keyed_existing _ key db keyed) ∙ e))
    where
      kept_by_key :
          (r : ServiceRequest)
          → by_key key db ≡ some r
          → by_key key (record db { tables = take_number db.tables }) ≡ some r
      kept_by_key r e = e

  intake-found :
      (key : String) (racing : Db → Db) (db : Db)
      → d.idempotency_key ≡ some key
      → let end = intake env mask automation p d racing db in by_key key end.1 ≡ some end.0.0
  unfolding intake
  intake-found key racing db keyed =
      answer-both (λ r after. by_key key after ≡ some r) (existing_for d.idempotency_key db) _ _
        (λ e. flush-found key (racing db) keyed) (λ r e. sym (keyed_existing _ key db keyed) ∙ e)

-- After an intake under a key, whether it made the request, found it, or lost a race for it, any
-- other intake under the same key answers with the same request as not new, and changes nothing.
pub intake-repeat :
    (env env' : Env) (mask mask' : String → String) (automation automation' : Bool)
    (p p' : Principal) (d d' : Draft) (racing racing' : Db → Db) (key : String) (db : Db)
    → d.idempotency_key ≡ some key
    → d'.idempotency_key ≡ some key
    → let first = intake env mask automation p d racing db in
      intake env' mask' automation' p' d' racing' first.1 ≡ ((first.0.0, false), first.1)
unfolding intake
intake-repeat env env' mask mask' automation automation' p p' d d' racing racing' key db keyed
      keyed' =
    let found = intake-found env mask automation p d key racing db keyed in
    let known = keyed_existing _ key (intake env mask automation p d racing db).1 keyed' ∙ found in
    answer-some _ _ _ _ known

-- The identifier that is drawn next is on no request.
pub record IsFresh (env : Env) (db : Db) : Type 0 where
  pub absent : All (λ r. (r.id == env.uuid4 db.drawn) ≡ false) db.requests

Emits-announce_new :
    (env : Env) (automation : Bool) (r : ServiceRequest) (t : Tables)
    → Emits t (announce_new env automation r t)
unfolding announce_new
Emits-announce_new env automation r t =
    Emits-trans (Emits-if automation t _ _ (Emits-enqueue env _ _ t) (Emits-refl t))
      (Emits-trans (Emits-emit_event env _ _ _ _ _ _) (Emits-emit_notifications env _ _ _ _ _ _))

Current : List RequestHistory → ServiceRequest → Type 0
Current rows r = replay r.id none rows ≡ some (value r.status)

old-Current :
    (i : Uuid) (rows : List RequestHistory) (row : RequestHistory) (rs : List ServiceRequest)
    → row.request_id ≡ i
    → All (λ r. (r.id == i) ≡ false) rs
    → All (Current rows) rs
    → All (Current (rows ++ row ∷ [])) rs
unfolding Current
old-Current i rows row [] own absent now = tt
old-Current i rows row (r ∷ rs) own absent now = (
  rw (replay-append r.id none rows row, own, apart) now.0,
  old-Current i rows row rs own absent.1 now.1,
)
  where
    apart : (i == r.id) ≡ false
    apart = ground (arith, absent.0, eq_iff i r.id, eq_iff r.id i)

module _ (env : Env) (mask : String → String) (automation : Bool) (p : Principal) (d : Draft) where
  create-history :
      (db : Db)
      → (create env mask automation p d db).1.history
        ≡ db.history ++ created_row env p (new_request env mask d db.tables) ∷ []
  unfolding create add_history
  create-history db =
      (Emits-announce_new env automation (new_request env mask d db.tables) (
        add_history (created_row env p (new_request env mask d db.tables))
          (take_number db.tables))).history

  create-Current :
      (db : Db)
      → All (λ r. (r.id == env.uuid4 db.drawn) ≡ false) db.requests
      → All (Current db.history) db.requests
      → All
          (Current (db.history ++ created_row env p (new_request env mask d db.tables) ∷ []))
          (db.requests ++ new_request env mask d db.tables ∷ [])
  unfolding Current new_request created_row
  create-Current db absent now =
      All-append _ db.requests _ (old-Current _ db.history _ db.requests refl absent now) (mine, tt)
    where
      mine :
          Current
            (db.history ++ created_row env p (new_request env mask d db.tables) ∷ [])
            (new_request env mask d db.tables)
      mine = rw (replay-append (env.uuid4 db.drawn) none db.history, eq_refl (env.uuid4 db.drawn))

  create-IsSound :
      (db : Db) → IsFresh env db → IsSound db → IsSound (create env mask automation p d db).1
  unfolding create add_request Current
  create-IsSound db fresh s = record {
    current = rw (create-history db) (create-Current db fresh.absent s.current);
    legal = rw (create-history db) (All-append IsLegal db.history _ s.legal (created_legal, tt));
  }
    where
      created_legal : IsLegal (created_row env p (new_request env mask d db.tables))
      created_legal = other (λ e. cc e)

  flush-IsSound :
      (db : Db) → IsFresh env db → IsSound db → IsSound (flush env mask automation p d db).1
  unfolding flush
  flush-IsSound db fresh s =
      answer-both (λ _ after. IsSound after) (existing_for d.idempotency_key db) _ _
        (λ e. create-IsSound db fresh s) (λ r e. record { current = s.current; legal = s.legal })

-- An intake keeps the database sound, whatever sound commits of others it races with, as long as
-- the identifier that it draws is fresh.
pub intake-IsSound :
    (env : Env) (mask : String → String) (automation : Bool) (p : Principal) (d : Draft)
    (racing : Db → Db) (db : Db)
    → IsSound db
    → IsSound (racing db)
    → IsFresh env (racing db)
    → IsSound (intake env mask automation p d racing db).1
unfolding intake
intake-IsSound env mask automation p d racing db s raced fresh =
    answer-both (λ _ after. IsSound after) (existing_for d.idempotency_key db) db _
      (λ e. flush-IsSound env mask automation p d (racing db) fresh raced) (λ r e. s)

-- A creation keeps the database sound.
pub create_request-IsSound :
    (env : Env) (mask : String → String) (automation : Bool) (p : Principal) (body : NewRequest)
    (db : Db)
    → IsFresh env db
    → IsSound db
    → IsSound (create_request env mask automation p body db).1
unfolding create_request
create_request-IsSound env mask automation p body db fresh s = by_draft (draft_of p body)
  where
    by_draft :
        (d : Result Draft)
        → IsSound
            (elim d as (λ _. Result (ServiceRequest × Bool) × Db) [
              | err problem ↦ (err problem, db)
              | ok draft ↦
                  let end = intake env mask automation p draft (λ kept. kept) db in
                  (ok end.0, end.1)
            ]).1
    by_draft (err problem) = s
    by_draft (ok draft) = intake-IsSound env mask automation p draft (λ kept. kept) db s s fresh
