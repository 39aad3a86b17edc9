-- ===== src/Auth.antt =====
-- backend/src/api/auth: the authenticated subject (principal.py), the names of the scopes
-- (scopes.py) and the reserved audit actors (system_actors.py).
-- A UUID is its canonical text, so that `str(uuid)` is the identity.
use kb_partners.Prelude.{
  ℕ, Bool, false, ◌||◌, String, ◌==◌, Option, none, some, List, [], ◌∷◌, eqb, is_some,
}

abbrev pub Uuid : Type 0
Uuid = String

-- `str(uuid)`
abbrev pub str_uuid : Uuid → String
str_uuid u = u

pub data PrincipalKind : Type 0 where
  requester operator partner service agent : PrincipalKind

pub record Principal : Type 0 where
  pub user_id : Uuid
  pub kind : PrincipalKind
  pub scopes : List String
  pub partner_id : Option String
  pub on_behalf_of : Option Uuid
  pub acting_agent : Option String

abbrev pub staff_admin_scope : String
staff_admin_scope = "staff_admin"

abbrev pub operator_scope : String
operator_scope = "operator"

abbrev pub partner_scope : String
partner_scope = "partner"

abbrev pub agent_scope : String
agent_scope = "agent"

-- `s in scopes`
unfoldable pub has_scope : String → List String → Bool
has_scope s [] = false
has_scope s (t ∷ scopes) = t == s || has_scope s scopes

abbrev kind_rank : PrincipalKind → ℕ
kind_rank requester = 0
kind_rank operator = 1
kind_rank partner = 2
kind_rank service = 3
kind_rank agent = 4

-- `a is b` on kinds
abbrev pub kind_is : PrincipalKind → PrincipalKind → Bool
kind_is a b = eqb (kind_rank a) (kind_rank b)

unfoldable pub is_operator : Principal → Bool
is_operator p = kind_is p.kind operator || has_scope operator_scope p.scopes

unfoldable pub is_partner : Principal → Bool
is_partner p = kind_is p.kind partner || has_scope partner_scope p.scopes

unfoldable pub is_agent : Principal → Bool
is_agent p = kind_is p.kind agent || is_some p.acting_agent || has_scope agent_scope p.scopes

unfoldable pub is_staff_admin : Principal → Bool
is_staff_admin p = has_scope staff_admin_scope p.scopes

-- The actor that an audit row names: `principal.on_behalf_of or principal.user_id`.
unfoldable pub actor_of : Principal → Uuid
actor_of p = elim p.on_behalf_of [ none ↦ p.user_id | some user ↦ user ]

abbrev pub automation_actor_id : Uuid
automation_actor_id = "00000000-0000-0000-0000-0000000000a0"

abbrev pub sla_actor_id : Uuid
sla_actor_id = "00000000-0000-0000-0000-0000000000a1"

abbrev pub retention_actor_id : Uuid
retention_actor_id = "00000000-0000-0000-0000-0000000000a2"

abbrev pub dispatch_actor_id : Uuid
dispatch_actor_id = "00000000-0000-0000-0000-0000000000d0"

-- A system subject of kind SERVICE, as the dispatcher, the timers and the channels use it.
abbrev pub system_principal : Uuid → Principal
system_principal actor = record {
  user_id = actor;
  kind = service;
  scopes = [];
  partner_id = none;
  on_behalf_of = none;
  acting_agent = none;
}
