-- ===== src/Requests/Service/Cancellation.antt =====
-- When a cancellation succeeds.
use kb_partners.Prelude.{
  true, false, String, ◌≡◌, ◌↔◌, ◌⊎◌, refl, Option, none, some, Result, ok, err, ◌>>=◌, Bool-cases,
  inl, inr,
}
use kb_partners.Errors.{forbidden, conflict, not_found}
use kb_partners.Auth.{Principal, Uuid}
use kb_partners.Config.{Env}
use kb_partners.Requests.Enums.{cancelled, is, is→eq}
use kb_partners.Requests.Models.{ServiceRequest}
use kb_partners.Requests.Fsm.{can_transition}
use kb_partners.Requests.Fsm.Diagram.{◌⟶◌, can_transition_iff}
use kb_partners.Requests.Store.{Db, Work, handle, settle, open_work, set_request}
use kb_partners.Requests.Access.{get_visible, can_cancel}
use kb_partners.Requests.Lifecycle.Audit.{apply_transition_allowed, apply_transition_refused}
use kb_partners.Requests.Service.{detail_now, do_cancel, cancel_body, cancel}
use kb_partners.Requests.Service.Outcomes.{Succeeds, success, no_success, settle-Succeeds}

-- What a cancellation asks for.
pub record MayCancel (p : Principal) (id : Uuid) (db : Db) : Type 0 where
  pub r : ServiceRequest
  pub visible : get_visible p id db ≡ some r
  pub allowed : can_cancel p ≡ true
  pub state : (r.status ≡ cancelled) ⊎ (r.status ⟶ cancelled)

module _ (env : Env) (p : Principal) (reason : String) (w : Work) where
  body-again :
      can_cancel p ≡ true
      → is w.request.status cancelled ≡ true
      → Succeeds (cancel_body env p reason w).0
  unfolding cancel_body detail_now ◌>>=◌
  body-again h c = rw (h, c) (success _)

  body-cancels :
      can_cancel p ≡ true
      → is w.request.status cancelled ≡ false
      → can_transition w.request.status cancelled ≡ true
      → Succeeds (cancel_body env p reason w).0
  unfolding cancel_body do_cancel set_request detail_now ◌>>=◌
  body-cancels h c e = rw (h, c, apply_transition_allowed env p cancelled w e) (success _)

  body-forbidden : can_cancel p ≡ false → cancel_body env p reason w ≡ (err forbidden, w)
  unfolding cancel_body ◌>>=◌
  body-forbidden h = rw h

  body-conflict :
      can_cancel p ≡ true
      → is w.request.status cancelled ≡ false
      → can_transition w.request.status cancelled ≡ false
      → cancel_body env p reason w ≡ (err conflict, w)
  unfolding cancel_body do_cancel ◌>>=◌
  body-conflict h c e = rw (h, c, apply_transition_refused env p cancelled w e)

  body-Succeeds :
      can_cancel p ≡ true
      → (w.request.status ≡ cancelled) ⊎ (w.request.status ⟶ cancelled)
      → Succeeds (cancel_body env p reason w).0
  body-Succeeds h (inl c) = body-again h (rw c)
  body-Succeeds h (inr e) = elim (Bool-cases (is w.request.status cancelled)) [
    | inl c ↦ body-again h c
    | inr c ↦ body-cancels h c ((can_transition_iff w.request.status cancelled).1 e)
  ]

  body-needs :
      Succeeds (cancel_body env p reason w).0
      → (can_cancel p ≡ true) × ((w.request.status ≡ cancelled) ⊎ (w.request.status ⟶ cancelled))
  body-needs s = elim (Bool-cases (can_cancel p)) [
    | inr h ↦ absurd (no_success forbidden (rw (body-forbidden h) at s))
    | inl h ↦ (
      h,
      elim (Bool-cases (is w.request.status cancelled)) [
        | inl c ↦ inl (is→eq w.request.status cancelled c)
        | inr c ↦ elim (Bool-cases (can_transition w.request.status cancelled)) [
          | inl e ↦ inr ((can_transition_iff w.request.status cancelled).0 e)
          | inr e ↦ absurd (no_success conflict (rw (body-conflict h c e) at s))
        ]
      ],
    )
  ]

cancels :
    (env : Env) (p : Principal) (id : Uuid) (reason : String) (db : Db)
    → MayCancel p id db
    → Succeeds (cancel env p id reason db).0
unfolding cancel handle
cancels env p id reason db m =
    rw m.visible (settled _ (body-Succeeds env p reason (open_work m.r db) m.allowed m.state))
  where
    settled : {A : Type 0} (end : Result A × Work) → Succeeds end.0 → Succeeds (settle end db).0
    settled (ok a, w) s = success a
    settled (err problem, w) s = s

cancelled_by :
    (env : Env) (p : Principal) (id : Uuid) (reason : String) (db : Db)
    (loaded : Option ServiceRequest)
    → get_visible p id db ≡ loaded
    → Succeeds (handle loaded (cancel_body env p reason) db).0
    → MayCancel p id db
unfolding handle
cancelled_by env p id reason db none e s = absurd (no_success not_found s)
cancelled_by env p id reason db (some r) e s =
    let (allowed, state) = body-needs env p reason (open_work r db) (settle-Succeeds _ db s) in
    record { r = r; visible = e; allowed = allowed; state = state }

-- A cancellation is answered with success exactly when the request is visible to the subject, the
-- subject may cancel, and the request is cancelled already or the state machine has an edge from its
-- status to CANCELLED.
pub cancel-Succeeds :
    (env : Env) (p : Principal) (id : Uuid) (reason : String) (db : Db)
    → Succeeds (cancel env p id reason db).0 ↔ MayCancel p id db
unfolding cancel
cancel-Succeeds env p id reason db =
    (cancelled_by env p id reason db (get_visible p id db) refl, cancels env p id reason db)
