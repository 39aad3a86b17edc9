-- ===== src/Requests/Access/Isolation.antt =====
-- What a subject can reach: nothing outside its contour, nothing that it does not own.
use kb_partners.Prelude.{
  Bool, true, false, ◌&&◌, ◌≡◌, refl, inl, inr, String, Option, none, some, arith, eq_iff,
  Bool-cases, ◌==◌, is_some, holds_text, if◌then◌else◌, ap, sym, find_first-holds,
}
use kb_partners.Auth.{Uuid, Principal, is_operator, is_staff_admin, is_agent, is_partner}
use kb_partners.Requests.Enums.{AccessLevel, public, logged, agent}
use kb_partners.Requests.Models.{ServiceRequest}
use kb_partners.Requests.Store.{Db}
use kb_partners.Requests.Access.{
  level_in, same_texts, visible_access_levels, ownership_condition, is_visible, get_visible,
  can_see_raw_input,
}

visible_parts :
    (p : Principal) (id : Uuid) (r : ServiceRequest)
    → is_visible p id r ≡ true
    → (r.id ≡ id)
      × (level_in r.access_level (visible_access_levels p) ≡ true)
      × (ownership_condition p r ≡ true)
unfolding is_visible
visible_parts p id r h = ground (arith, eq_iff r.id id)

-- Why a subject that is no staff may see a request.
pub data Owns (p : Principal) (r : ServiceRequest) : Type 0 where
  assigned_partner :
      (me : String)
      → is_partner p ≡ true
      → p.partner_id ≡ some me
      → r.partner_id ≡ some me
      → Owns p r
  delegated :
      (user : Uuid)
      → is_agent p ≡ true
      → p.on_behalf_of ≡ some user
      → r.requester_id ≡ user
      → Owns p r
  own_request : r.requester_id ≡ p.user_id → Owns p r

-- The contours that are open to a subject that is no staff.
pub data InContour (p : Principal) : AccessLevel → Type 0 where
  in_public : InContour p public
  in_logged : InContour p logged
  in_agent : is_agent p ≡ true → InContour p agent

contour :
    (p : Principal) (l : AccessLevel)
    → is_operator p ≡ false
    → is_staff_admin p ≡ false
    → level_in l (visible_access_levels p) ≡ true
    → InContour p l
unfolding visible_access_levels
contour p public o s h = in_public
contour p logged o s h = in_logged
contour p agent o s h = in_agent (ground arith)
contour p _ o s h = absurd (ground arith)

-- The condition, on the values that it reads.
module _ {P : Type 0} (rp : Option String) (rq user_id : String) where
  owned_cases :
      (partner agent : Bool) (pid behalf : Option String)
      → ((me : String) → partner ≡ true → pid ≡ some me → rp ≡ some me → P)
      → ((user : String) → agent ≡ true → behalf ≡ some user → rq ≡ user → P)
      → (rq ≡ user_id → P)
      → (if partner && is_some pid
          then same_texts rp pid
          else if agent && is_some behalf
          then holds_text behalf rq
          else rq == user_id)
        ≡ true
      → P
  owned_cases true ag (some me) b f g k h = f me refl refl (texts rp h)
    where
      texts : (o : Option String) → same_texts o (some me) ≡ true → o ≡ some me
      texts none e = cc
      texts (some t) e = ap some (sym ((eq_iff me t).0 e))
  owned_cases true true none (some u) f g k h = g u refl refl (sym ((eq_iff u rq).0 h))
  owned_cases false true pid (some u) f g k h = g u refl refl (sym ((eq_iff u rq).0 h))
  owned_cases true true none none f g k h = k ((eq_iff rq user_id).0 h)
  owned_cases false true pid none f g k h = k ((eq_iff rq user_id).0 h)
  owned_cases true false none b f g k h = k ((eq_iff rq user_id).0 h)
  owned_cases false false pid b f g k h = k ((eq_iff rq user_id).0 h)

owned :
    (p : Principal) (r : ServiceRequest)
    → is_operator p ≡ false
    → is_staff_admin p ≡ false
    → ownership_condition p r ≡ true
    → Owns p r
unfolding ownership_condition
owned p r o s h =
    owned_cases r.partner_id r.requester_id p.user_id (is_partner p) (is_agent p) p.partner_id
      p.on_behalf_of assigned_partner delegated own_request (rw (o, s) at h)

-- A subject that is neither operator nor staff reaches, by any identifier, only the request with
-- that identifier, only in its contour, and only if it owns the request.
pub get_visible-Owns :
    (p : Principal) (id : Uuid) (db : Db) (r : ServiceRequest)
    → is_operator p ≡ false
    → is_staff_admin p ≡ false
    → get_visible p id db ≡ some r
    → (r.id ≡ id) × InContour p r.access_level × Owns p r
unfolding get_visible
get_visible-Owns p id db r o s h =
    let parts = visible_parts p id r (find_first-holds (is_visible p id) db.requests r h) in
    (parts.0, contour p r.access_level o s parts.1, owned p r o s parts.2)

-- The same three reasons for the raw text: the requester, or an agent on its behalf.
pub data MayRead (p : Principal) (r : ServiceRequest) : Type 0 where
  for_user :
      (user : Uuid)
      → is_agent p ≡ true
      → p.on_behalf_of ≡ some user
      → r.requester_id ≡ user
      → MayRead p r
  requester_itself : r.requester_id ≡ p.user_id → MayRead p r

pub can_see_raw_input-MayRead :
    (p : Principal) (r : ServiceRequest)
    → is_operator p ≡ false
    → is_staff_admin p ≡ false
    → can_see_raw_input p r ≡ true
    → (is_partner p ≡ false) × MayRead p r
unfolding can_see_raw_input
can_see_raw_input-MayRead p r o s h = elim (Bool-cases (is_partner p)) [
  | inl yes_partner ↦ absurd (ground arith)
  | inr n ↦ (
    n,
    owned_cases none r.requester_id p.user_id false (is_agent p) none p.on_behalf_of (λ me f. cc)
        for_user requester_itself (rw (o, s, n) at h),
  )
]
