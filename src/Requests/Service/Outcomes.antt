-- ===== src/Requests/Service/Outcomes.antt =====
-- When the handlers of `RequestService` succeed, and what they show.
use kb_partners.Prelude.{
  true, false, ◌≡◌, refl, ◌↔◌, sym, Option, none, some, List, Result, ok, err, ◌>>=◌, All,
  All-select_test, All-sort_by, arith, Bool-cases, inl, inr,
}
use kb_partners.Errors.{Problem, forbidden, conflict, not_found}
use kb_partners.Auth.{Principal, Uuid}
use kb_partners.Config.{Env}
use kb_partners.Requests.Enums.{RequestStatus}
use kb_partners.Requests.Models.{ServiceRequest, RequestMessage}
use kb_partners.Requests.Fsm.{can_transition}
use kb_partners.Requests.Fsm.Diagram.{◌⟶◌, can_transition_iff}
use kb_partners.Requests.Store.{Db, Work, handle, settle, open_work}
use kb_partners.Requests.Access.{get_visible, can_drive_lifecycle, can_view_internal}
use kb_partners.Requests.Lifecycle.Audit.{apply_transition_allowed, apply_transition_refused}
use kb_partners.Requests.Service.{
  transition, transition_body, detail_now, list_messages, visible_messages,
}

-- The request was answered without a problem.
pub data Succeeds {A : Type 0} : Result A → Type 0 where
  success : (a : A) → Succeeds (ok a)

-- What a transition asks for.
pub record MayMove (p : Principal) (id : Uuid) (target : RequestStatus) (db : Db) : Type 0 where
  pub r : ServiceRequest
  pub visible : get_visible p id db ≡ some r
  pub driver : can_drive_lifecycle p ≡ true
  pub edge : r.status ⟶ target

visible_messages-hides :
    (id : Uuid) (db : Db) → All (λ m. m.is_internal ≡ false) (visible_messages id false db.tables)
unfolding visible_messages
visible_messages-hides id db =
    All-sort_by _ _ _ (All-select_test _ _ db.messages (λ m h. ground arith))

list_messages-seen :
    (p : Principal) (id : Uuid) (db : Db) (loaded : Option ServiceRequest)
    (shown : List RequestMessage)
    → can_view_internal p ≡ false
    → get_visible p id db ≡ loaded
    → list_messages p id db ≡ ok shown
    → (i : Uuid) × (visible_messages i false db.tables ≡ shown)
unfolding list_messages
list_messages-seen p id db none shown outside e h = cc
list_messages-seen p id db (some r) shown outside e h = (r.id, cc)

-- A reader who may not see internal notes gets none of them.
pub list_messages-hides :
    (p : Principal) (id : Uuid) (db : Db) (shown : List RequestMessage)
    → can_view_internal p ≡ false
    → list_messages p id db ≡ ok shown
    → All (λ m. m.is_internal ≡ false) shown
list_messages-hides p id db shown outside h =
    let (i, e) = list_messages-seen p id db (get_visible p id db) shown outside refl h in
    rw (sym e) (visible_messages-hides i db)

moves :
    (env : Env) (p : Principal) (id : Uuid) (target : RequestStatus) (db : Db)
    → MayMove p id target db
    → Succeeds (transition env p id target db).0
unfolding transition handle transition_body detail_now ◌>>=◌ settle
moves env p id target db m =
    let can = (can_transition_iff m.r.status target).1 m.edge in
    rw (m.visible, m.driver, apply_transition_allowed env p target (open_work m.r db) can)
      (success _)

pub no_success : {A : Type 0} (problem : Problem) → ¬ Succeeds {A = A} (err problem)
no_success problem = elim [ ]

body-forbidden :
    (env : Env) (p : Principal) (target : RequestStatus) (w : Work)
    → can_drive_lifecycle p ≡ false
    → transition_body env p target w ≡ (err forbidden, w)
unfolding transition_body ◌>>=◌
body-forbidden env p target w h = rw h

body-conflict :
    (env : Env) (p : Principal) (target : RequestStatus) (w : Work)
    → can_drive_lifecycle p ≡ true
    → can_transition w.request.status target ≡ false
    → transition_body env p target w ≡ (err conflict, w)
unfolding transition_body ◌>>=◌
body-conflict env p target w h c = rw (h, apply_transition_refused env p target w c)

body-moves :
    (env : Env) (p : Principal) (target : RequestStatus) (w : Work)
    → Succeeds (transition_body env p target w).0
    → (can_drive_lifecycle p ≡ true) × (w.request.status ⟶ target)
body-moves env p target w s = elim (Bool-cases (can_drive_lifecycle p)) [
  | inl d ↦ elim (Bool-cases (can_transition w.request.status target)) [
    | inl c ↦ (d, (can_transition_iff w.request.status target).0 c)
    | inr c ↦ absurd (no_success conflict (rw (body-conflict env p target w d c) at s))
  ]
  | inr d ↦ absurd (no_success forbidden (rw (body-forbidden env p target w d) at s))
]

pub settle-Succeeds :
    {A : Type 0} (end : Result A × Work) (db : Db) → Succeeds (settle end db).0 → Succeeds end.0
unfolding settle
settle-Succeeds (ok a, w) db s = success a
settle-Succeeds (err p, w) db s = s

moved_by :
    (env : Env) (p : Principal) (id : Uuid) (target : RequestStatus) (db : Db)
    (loaded : Option ServiceRequest)
    → get_visible p id db ≡ loaded
    → Succeeds (handle loaded (transition_body env p target) db).0
    → MayMove p id target db
unfolding handle
moved_by env p id target db none e s = absurd (no_success not_found s)
moved_by env p id target db (some r) e s =
    let (driver, edge) = body-moves env p target (open_work r db) (settle-Succeeds _ db s) in
    record { r = r; visible = e; driver = driver; edge = edge }

-- A transition is answered with success exactly when the request is visible to the subject, the
-- subject may drive the lifecycle, and the state machine has an edge to the target.
pub transition-Succeeds :
    (env : Env) (p : Principal) (id : Uuid) (target : RequestStatus) (db : Db)
    → Succeeds (transition env p id target db).0 ↔ MayMove p id target db
unfolding transition
transition-Succeeds env p id target db =
    (moved_by env p id target db (get_visible p id db) refl, moves env p id target db)
