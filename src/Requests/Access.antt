-- ===== src/Requests/Access.antt =====
-- backend/src/api/requests/access.py and RequestRepository.get_visible: who sees and does what.
pub mod Isolation
use kb_partners.Prelude.{
  Bool, true, false, not, ◌&&◌, ◌||◌, String, ◌==◌, Option, none, some, List, [], ◌∷◌, eqb, ℕ,
  is_some, holds_text, find_first, if◌then◌else◌,
}
use kb_partners.Auth.{Uuid, Principal, is_operator, is_staff_admin, is_agent, is_partner, str_uuid}
use kb_partners.Requests.Enums.{AccessLevel, public, logged, agent, staff, legal, hr_restricted}
use kb_partners.Requests.Models.{ServiceRequest}
use kb_partners.Requests.Store.{Db}

abbrev level_rank : AccessLevel → ℕ
level_rank public = 0
level_rank logged = 1
level_rank agent = 2
level_rank staff = 3
level_rank legal = 4
level_rank hr_restricted = 5

-- `level in set`
abbrev pub level_in : AccessLevel → List AccessLevel → Bool
level_in l [] = false
level_in l (k ∷ set) = eqb (level_rank l) (level_rank k) || level_in l set

abbrev pub all_levels : List AccessLevel
all_levels = public ∷ logged ∷ agent ∷ staff ∷ legal ∷ hr_restricted ∷ []

abbrev pub agent_levels : List AccessLevel
agent_levels = public ∷ logged ∷ agent ∷ []

abbrev pub base_levels : List AccessLevel
base_levels = public ∷ logged ∷ []

unfoldable pub visible_access_levels : Principal → List AccessLevel
visible_access_levels p =
    if is_operator p || is_staff_admin p
    then all_levels
    else if is_agent p
    then agent_levels
    else base_levels

-- `a = b` in SQL, where NULL equals nothing.
abbrev pub same_texts : Option String → Option String → Bool
same_texts none b = false
same_texts (some s) b = holds_text b s

-- The SQL condition on a row; `None` (an operator sees all) is the condition that always holds.
unfoldable pub ownership_condition : Principal → ServiceRequest → Bool
ownership_condition p r =
    if is_operator p || is_staff_admin p
    then true
    else if is_partner p && is_some p.partner_id
    then same_texts r.partner_id p.partner_id
    else if is_agent p && is_some p.on_behalf_of
    then holds_text p.on_behalf_of r.requester_id
    else r.requester_id == str_uuid p.user_id

unfoldable pub can_view_internal : Principal → Bool
can_view_internal p = is_operator p || is_staff_admin p

unfoldable pub can_see_raw_input : Principal → ServiceRequest → Bool
can_see_raw_input p r =
    if is_operator p || is_staff_admin p
    then true
    else if is_partner p
    then false
    else if is_agent p && is_some p.on_behalf_of
    then holds_text p.on_behalf_of r.requester_id
    else r.requester_id == str_uuid p.user_id

unfoldable pub can_drive_lifecycle : Principal → Bool
can_drive_lifecycle p = is_operator p || is_staff_admin p || is_agent p

unfoldable pub can_cancel : Principal → Bool
can_cancel p = not (is_partner p)

unfoldable pub can_reschedule : Principal → Bool
can_reschedule p = not (is_partner p)

unfoldable pub can_user_action : Principal → Bool
can_user_action p = not (is_partner p)

-- The WHERE clause of `get_visible`.
unfoldable pub is_visible : Principal → Uuid → ServiceRequest → Bool
unfolding visible_access_levels ownership_condition
is_visible p request_id r =
    r.id == request_id
    && (level_in r.access_level (visible_access_levels p) && ownership_condition p r)

unfoldable pub get_visible : Principal → Uuid → Db → Option ServiceRequest
unfolding is_visible
get_visible p request_id db = find_first (is_visible p request_id) db.requests
