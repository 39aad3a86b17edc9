-- ===== src/Retention/Erasure.antt =====
-- A run that takes all expired rows leaves none.
use mathlib.Core.Path.{subst}
use text.Mathlib.TextPositions.{eq_refl}
use kb_partners.Prelude.{
  ℕ, ◌≤◌, Bool, true, false, ◌||◌, ◌==◌, ◌≡◌, refl, sym, ◌∙◌, ◌⊎◌, inl, inr, Option, none, some,
  List, [], ◌∷◌, length, take, take-all, select, sort_by, insert_by, length-sort_by, find_first,
  find_first-none, find_first-holds, All, All-update_where, eq_iff, arith, if◌then◌else◌, leb,
  ◌>>=◌, modify,
}
use kb_partners.Auth.{Uuid}
use kb_partners.Config.{Env}
use kb_partners.Requests.Models.{ServiceRequest}
use kb_partners.Requests.Store.{
  Db, find_request, open_work, commit, set_request, set_tables, journal,
}
use kb_partners.Channels.Drain.{flush_row}
use kb_partners.Retention.{
  is_expired, cutoff_of, list_raw_input_expired, wipe_raw_input, anonymize, anonymize_row,
  anonymize_each, anonymize_expired_raw_input,
}

abbrev is_among : Uuid → List ServiceRequest → Bool
is_among id [] = false
is_among id (r ∷ rest) = id == r.id || is_among id rest

is_among-insert_by :
    (le : ServiceRequest → ServiceRequest → Bool) (id : Uuid) (a : ServiceRequest)
    (xs : List ServiceRequest)
    → is_among id (insert_by le a xs) ≡ (id == a.id || is_among id xs)
unfolding insert_by
is_among-insert_by le id a [] = refl
is_among-insert_by le id a (x ∷ xs) = ground (arith, is_among-insert_by le id a xs)

is_among-sort_by :
    (le : ServiceRequest → ServiceRequest → Bool) (id : Uuid) (xs : List ServiceRequest)
    → is_among id (sort_by le xs) ≡ is_among id xs
unfolding sort_by
is_among-sort_by le id [] = refl
is_among-sort_by le id (x ∷ xs) =
    rw (is_among-insert_by le id x (sort_by le xs), is_among-sort_by le id xs) refl

module _ (cutoff : ℕ) where
  -- A row that is expired only if it is still to be wiped.
  abbrev Pending : List ServiceRequest → ServiceRequest → Type 0
  Pending rest r = (is_expired cutoff r ≡ false) ⊎ (is_among r.id rest ≡ true)

  Pending-weaken :
      (y : ServiceRequest) (rest rows : List ServiceRequest)
      → All (Pending rest) rows
      → All (Pending (y ∷ rest)) rows
  Pending-weaken y rest [] h = tt
  Pending-weaken y rest (x ∷ rows) h = (widen h.0, Pending-weaken y rest rows h.1)
    where
      widen : Pending rest x → Pending (y ∷ rest) x
      widen (inl e) = inl e
      widen (inr e) = inr (ground arith)

  selected-Pending :
      (rows : List ServiceRequest) → All (Pending (select (is_expired cutoff) rows)) rows
  unfolding select
  selected-Pending [] = tt
  selected-Pending (x ∷ rows) = by_test (is_expired cutoff x) refl (selected-Pending rows)
    where
      by_test :
          (b : Bool)
          → is_expired cutoff x ≡ b
          → All (Pending (select (is_expired cutoff) rows)) rows
          → let found = select (is_expired cutoff) rows in
            All (Pending (if b then x ∷ found else found)) (x ∷ rows)
      by_test true e h =
          let own : (x.id == x.id) ≡ true = eq_refl x.id in
          (inr (rw own refl), Pending-weaken x _ rows h)
      by_test false e h = (inl e, h)

  wiped : (r : ServiceRequest) → is_expired cutoff (wipe_raw_input r) ≡ false
  unfolding is_expired wipe_raw_input
  wiped r = rw (eq_refl r.raw_input_masked) (ground arith)

  -- A row that is no longer among those to be wiped.
  leave :
      (r x : ServiceRequest) (rest : List ServiceRequest)
      → (x.id == r.id) ≡ false
      → Pending (r ∷ rest) x
      → Pending rest x
  leave r x rest apart (inl e) = inl e
  leave r x rest apart (inr e) = inr (ground arith)

  leave-All :
      (r : ServiceRequest) (rest rows : List ServiceRequest)
      → All (λ x. (x.id == r.id) ≡ false) rows
      → All (Pending (r ∷ rest)) rows
      → All (Pending rest) rows
  leave-All r rest [] apart h = tt
  leave-All r rest (x ∷ rows) apart h =
      (leave r x rest apart.0 h.0, leave-All r rest rows apart.1 h.1)

  module _ (env : Env) where
    anonymize_row-Pending :
        (r : ServiceRequest) (rest : List ServiceRequest) (db : Db)
        → All (Pending (r ∷ rest)) db.requests
        → All (Pending rest) (anonymize_row env (find_request r.id db) db).requests
    unfolding anonymize_row find_request anonymize flush_row commit open_work set_request set_tables
        journal ◌>>=◌ wipe_raw_input modify
    anonymize_row-Pending r rest db h = by_row (find_first (λ x. x.id == r.id) db.requests) refl
      where
        by_row :
            (found : Option ServiceRequest)
            → find_first (λ x. x.id == r.id) db.requests ≡ found
            → All (Pending rest) (anonymize_row env found db).requests
        by_row none e =
            leave-All r rest db.requests (find_first-none (λ x. x.id == r.id) db.requests e) h
        by_row (some y) e =
            let same : y.id ≡ r.id =
              (eq_iff y.id r.id).0 (find_first-holds (λ x. x.id == r.id) db.requests y e) in
            All-update_where (Pending (r ∷ rest)) (Pending rest) (λ x. x.id == y.id)
              (λ _. wipe_raw_input y) db.requests (λ x p hit. inl (wiped y))
              (λ x p miss. leave r x rest (rw same at miss) p) h

    anonymize_each-Pending :
        (rest : List ServiceRequest) (db : Db)
        → All (Pending rest) db.requests
        → All (Pending []) (anonymize_each env rest db).requests
    unfolding anonymize_each
    anonymize_each-Pending [] db h = h
    anonymize_each-Pending (r ∷ rest) db h =
        anonymize_each-Pending rest _ (anonymize_row-Pending r rest db h)

All-wiped :
    (cutoff : ℕ) (rows : List ServiceRequest)
    → All (Pending cutoff []) rows
    → All (λ r. is_expired cutoff r ≡ false) rows
All-wiped cutoff [] h = tt
All-wiped cutoff (x ∷ rows) h = (sure h.0, All-wiped cutoff rows h.1)
  where
    sure : Pending cutoff [] x → is_expired cutoff x ≡ false
    sure (inl e) = e
    sure (inr e) = cc

sorted-Pending :
    (cutoff : ℕ) (le : ServiceRequest → ServiceRequest → Bool) (found rows : List ServiceRequest)
    → All (Pending cutoff found) rows
    → All (Pending cutoff (sort_by le found)) rows
sorted-Pending cutoff le found [] h = tt
sorted-Pending cutoff le found (x ∷ rows) h = (still h.0, sorted-Pending cutoff le found rows h.1)
  where
    still : Pending cutoff found x → Pending cutoff (sort_by le found) x
    still (inl e) = inl e
    still (inr e) = inr (is_among-sort_by le x.id found ∙ e)

batch-Pending :
    (cutoff limit : ℕ) (rows : List ServiceRequest)
    → length (select (is_expired cutoff) rows) ≤ limit
    → All (Pending cutoff (list_raw_input_expired cutoff limit rows)) rows
unfolding list_raw_input_expired
batch-Pending cutoff limit rows fits =
    let le : ServiceRequest → ServiceRequest → Bool = λ a b. leb a.created_at b.created_at in
    let found = select (is_expired cutoff) rows in
    let whole : take limit (sort_by le found) ≡ sort_by le found =
      take-all limit (sort_by le found) (omega (arith, length-sort_by le found)) in
    subst (λ batch. All (Pending cutoff batch) rows) (sym whole)
      (sorted-Pending cutoff le found rows (selected-Pending cutoff rows))

-- After a run of the worker that is enabled, on a database with no more expired requests than a
-- batch holds, no request older than the cutoff keeps a raw input that differs from the masked one.
pub anonymize_expired_raw_input-wiped :
    (env : Env) (db : Db)
    → env.retention_worker_enabled ≡ true
    → length (select (is_expired (cutoff_of env)) db.requests) ≤ env.outbox_batch_size
    → All
        (λ r. is_expired (cutoff_of env) r ≡ false)
        (anonymize_expired_raw_input env db).1.requests
unfolding anonymize_expired_raw_input
anonymize_expired_raw_input-wiped env db enabled fits = by_gate env.retention_worker_enabled enabled
  where
    rows : List ServiceRequest
    rows = list_raw_input_expired (cutoff_of env) env.outbox_batch_size db.requests

    by_gate :
        (b : Bool)
        → b ≡ true
        → let end : ℕ × Db = if b then (length rows, anonymize_each env rows db) else (0, db) in
          All (λ r. is_expired (cutoff_of env) r ≡ false) end.1.requests
    by_gate false e = absurd (cc)
    by_gate true e = All-wiped (cutoff_of env) _ (
        anonymize_each-Pending (cutoff_of env) env rows db
          (batch-Pending (cutoff_of env) env.outbox_batch_size db.requests fits))
