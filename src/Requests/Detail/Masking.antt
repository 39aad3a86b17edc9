-- ===== src/Requests/Detail/Masking.antt =====
-- What the card hides, and what it offers.
use mathlib.Core.List.{Perm}
use kb_partners.Prelude.{false, ◌≡◌, none, List, ◌⊎◌, inl, inr, Bool-cases, sort_by-perm}
use kb_partners.Auth.{Principal, is_operator, is_staff_admin, is_partner}
use kb_partners.Config.{Env}
use kb_partners.Requests.Models.{ServiceRequest, RequestEstimate}
use kb_partners.Requests.Fsm.{allowed_transitions}
use kb_partners.Requests.Access.{can_see_raw_input, can_view_internal}
use kb_partners.Requests.Access.Isolation.{MayRead, can_see_raw_input-MayRead}
use kb_partners.Requests.Detail.{build_detail, sorted_statuses}

-- On the card of a subject that is neither operator nor staff the trace and the chain of the other
-- candidates are absent, and the text is the masked one, unless the subject is no partner and is
-- the requester or an agent on the requester's behalf.
pub build_detail-masked :
    (env : Env) (p : Principal) (r : ServiceRequest) (es : List RequestEstimate)
    → is_operator p ≡ false
    → is_staff_admin p ≡ false
    → let d = build_detail env p r es in
      (d.match_trace ≡ none)
      × (d.fallback_chain ≡ none)
      × ((d.raw_input ≡ r.raw_input_masked) ⊎ ((is_partner p ≡ false) × MayRead p r))
unfolding build_detail
build_detail-masked env p r es o s =
    let outside : can_view_internal p ≡ false = unfold can_view_internal in rw (o, s) in
    (
      rw outside,
      rw outside,
      elim (Bool-cases (can_see_raw_input p r)) [
        | inl seen ↦ inr (can_see_raw_input-MayRead p r o s seen)
        | inr shut ↦ inl (rw shut)
      ],
    )

-- The card offers exactly the allowed transitions of the status, each as often.
pub build_detail-offers :
    (env : Env) (p : Principal) (r : ServiceRequest) (es : List RequestEstimate)
    → Perm (build_detail env p r es).allowed_transitions (allowed_transitions r.status)
unfolding build_detail sorted_statuses
build_detail-offers env p r es = sort_by-perm _ (allowed_transitions r.status)
