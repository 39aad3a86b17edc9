-- ===== src/Requests/Lifecycle/Safe.antt =====
-- Operations on a unit of work all of whose steps respect the journal, one rule for each way to
-- build an operation, and what a handler built so does to the database.
use kb_partners.Prelude.{
  Bool, true, false, String, ◌==◌, ◌≡◌, refl, Option, none, some, arith, if◌then◌else◌, All,
  All-append, eq_iff, Result, ok, err, Effect, pure, raise, modify, require, get, continue, ◌>>=◌,
  find_first, All-update_where, find_first-All, Bool-cases, inl, inr,
}
use kb_partners.Errors.{Problem}
use kb_partners.Auth.{Principal}
use kb_partners.Config.{Env}
use kb_partners.Requests.Enums.{RequestStatus, HistoryAction, value}
use kb_partners.Requests.Models.{ServiceRequest}
use kb_partners.Requests.Store.{
  Db, Work, Tables, set_request, set_tables, journal, add_history, open_work, commit, settle,
  handle,
}
use kb_partners.Requests.Fsm.{can_transition}
use kb_partners.Requests.Lifecycle.{apply_transition}
use kb_partners.Requests.Lifecycle.Audit.{apply_transition_allowed, apply_transition_refused}
use kb_partners.Requests.Lifecycle.Journal.{
  replay, replay-append_rows, replay_foreign, IsLegal, Advances, enter-Advances, Advances-same,
  Advances-note, Advances-trans, is_status_row,
}

-- Whether it returns or raises, `m` respects the journal.
pub record Safe {A : Type 0} (m : Effect Work A) : Type 0 where
  pub at : (w : Work) → Advances w (m w).1

Advances-refl : (w : Work) → Advances w w
Advances-refl w = Advances-same w w refl refl refl

module _ {A : Type 0} where
  pub Safe-pure : (a : A) → Safe (pure {S = Work} a)
  unfolding pure
  Safe-pure a = record { at = λ w. Advances-refl w }

  pub Safe-raise : (p : Problem) → Safe (raise {S = Work} {A = A} p)
  unfolding raise
  Safe-raise p = record { at = λ w. Advances-refl w }

  pub Safe-if : (b : Bool) (m n : Effect Work A) → Safe m → Safe n → Safe (if b then m else n)
  Safe-if true m n sm sn = sm
  Safe-if false m n sm sn = sn

pub Safe-get : Safe (get {S = Work})
unfolding get
Safe-get = record { at = λ w. Advances-refl w }

pub Safe-require : (b : Bool) (p : Problem) → Safe (require {S = Work} b p)
unfolding require
Safe-require true p = record { at = λ w. Advances-refl w }
Safe-require false p = record { at = λ w. Advances-refl w }

pub Safe-modify : (f : Work → Work) → ((w : Work) → Advances w (f w)) → Safe (modify f)
unfolding modify
Safe-modify f h = record { at = h }

module _ {A B : Type 0} where
  Advances-continue :
      (u v : Work) (r : Result A) (f : A → Effect Work B)
      → Advances u v
      → ((a : A) → Safe (f a))
      → Advances u (continue r f v).1
  Advances-continue u v (ok a) f h sf = Advances-trans h ((sf a).at v)
  Advances-continue u v (err p) f h sf = h

  pub Safe-bind :
      (m : Effect Work A) (f : A → Effect Work B) → Safe m → ((a : A) → Safe (f a)) → Safe (m >>= f)
  unfolding ◌>>=◌
  Safe-bind m f sm sf = record { at = λ w. Advances-continue w (m w).1 (m w).0 f (sm.at w) sf }

pub Safe-apply_transition :
    (env : Env) (p : Principal) (target : RequestStatus) → Safe (apply_transition env p target)
Safe-apply_transition env p target = record {
  at = λ w. elim (Bool-cases (can_transition w.request.status target)) [
    | inl allowed ↦
        rw (apply_transition_allowed env p target w allowed) (enter-Advances env p target w allowed)
    | inr refused ↦ rw (apply_transition_refused env p target w refused) (Advances-refl w)
  ];
}

pub Safe-set_request :
    (f : ServiceRequest → ServiceRequest)
    → ((r : ServiceRequest) → ((f r).id ≡ r.id) × ((f r).status ≡ r.status))
    → Safe (set_request f)
unfolding set_request
Safe-set_request f h = Safe-modify _ (λ w. Advances-same w _ (h w.request).0 (h w.request).1 refl)

pub Safe-set_tables :
    (f : ServiceRequest → Tables → Tables)
    → ((r : ServiceRequest) (t : Tables) → (f r t).history ≡ t.history)
    → Safe (set_tables f)
unfolding set_tables
Safe-set_tables f h = Safe-modify _ (λ w. Advances-same w _ refl refl (h w.request w.tables))

pub Safe-journal :
    (env : Env) (p : Principal) (action : HistoryAction)
    (from_value to_value : ServiceRequest → Option String)
    → is_status_row action ≡ false
    → Safe (journal env p action from_value to_value)
unfolding journal set_tables add_history
Safe-journal env p action from_value to_value quiet =
    Safe-modify _ (λ w. Advances-note w _ _ refl refl refl refl quiet)

pub ruleset safe_rules = (
  Safe-pure, Safe-raise, Safe-if, Safe-get, Safe-require, Safe-bind, Safe-apply_transition,
  Safe-set_request, Safe-set_tables, Safe-journal,
)

-- The journal tells the status of every request, and holds legal changes of status alone.
pub record IsSound (db : Db) : Type 0 where
  pub current : All (λ r. replay r.id none db.history ≡ some (value r.status)) db.requests
  pub legal : All IsLegal db.history

abbrev pub Current : Db → ServiceRequest → Type 0
Current db r = replay r.id none db.history ≡ some (value r.status)

-- A committed unit of work keeps the database sound.
pub commit-IsSound :
    (db : Db) (r : ServiceRequest) (w : Work)
    → IsSound db
    → Current db r
    → Advances (open_work r db) w
    → IsSound (commit w db)
unfolding commit open_work
commit-IsSound db r w s now a = record {
  current =
      All-update_where (Current db) _ (λ x. x.id == w.request.id) (λ _. w.request) db.requests
        (λ x c e. a.current now)
        (λ x c e.
          rw (a.history, replay-append_rows x.id none db.history a.rows)
            (rw (replay_foreign x.id r.id (replay x.id none db.history) a.rows (apart x e) a.own)
              c))
        s.current;
  legal = rw a.history (All-append IsLegal db.history a.rows s.legal a.legal);
}
  where
    apart : (x : ServiceRequest) → (x.id == w.request.id) ≡ false → (r.id == x.id) ≡ false
    apart x e = ground (arith, a.id, eq_iff r.id x.id, eq_iff x.id w.request.id)

pub settle-IsSound :
    {A : Type 0} (db : Db) (r : ServiceRequest) (res : Result A) (w : Work)
    → IsSound db
    → Current db r
    → Advances (open_work r db) w
    → IsSound (settle (res, w) db).1
unfolding settle
settle-IsSound db r (ok a) w s now adv = commit-IsSound db r w s now adv
settle-IsSound db r (err p) w s now adv = record { current = s.current; legal = s.legal }

loaded-IsSound :
    {A : Type 0} (body : Effect Work A) (db : Db) (loaded : Option ServiceRequest)
    → Safe body
    → IsSound db
    → ((r : ServiceRequest) → loaded ≡ some r → Current db r)
    → IsSound (handle loaded body db).1
unfolding handle
loaded-IsSound body db none safe s now = s
loaded-IsSound body db (some r) safe s now =
    settle-IsSound db r (body (open_work r db)).0 (body (open_work r db)).1 s (now r refl)
      (safe.at (open_work r db))

-- A handler built from safe steps, on the row that a query loads, keeps the database sound: on
-- success and on every error.
pub handle-IsSound :
    {A : Type 0} (body : Effect Work A) (p : ServiceRequest → Bool) (db : Db)
    → Safe body
    → IsSound db
    → IsSound (handle (find_first p db.requests) body db).1
handle-IsSound body p db safe s =
    loaded-IsSound body db (find_first p db.requests) safe s
      (λ r found. find_first-All (Current db) p db.requests r s.current found)
