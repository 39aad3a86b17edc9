-- ===== src/Channels/Configs.antt =====
-- backend/src/api/channels/service.py, with `ChannelConfigRepository` and the guard of its router:
-- the administration of the channels of partners.
pub mod Unique
use kb_partners.Prelude.{
  ℕ, Bool, true, false, ◌&&◌, ◌||◌, ◌≡◌, refl, ◌∙◌, String, ◌==◌, eq_iff, Option, none, some, List,
  [], ◌∷◌, ◌++◌, leb, select, sort_by, find_first, update_where, or_else, if◌then◌else◌, Result, ok,
  err, arith,
}
use kb_partners.Errors.{forbidden, not_found, conflict}
use kb_partners.Auth.{Uuid, Principal, is_staff_admin}
use kb_partners.Json.{Fields}
use kb_partners.Requests.Models.{ChannelType}
use kb_partners.Channels.{PartnerChannelConfig}
use kb_partners.Channels.Dispatch.{channel_value}

pub record ChannelConfigCreate : Type 0 where
  pub collaborator_id : String
  pub channel_type : ChannelType
  pub priority : ℕ
  pub config : Fields
  pub inbound_token : Option String
  pub is_active : Bool

pub record ChannelConfigUpdate : Type 0 where
  pub priority : Option ℕ
  pub config : Option Fields
  pub inbound_token : Option String
  pub is_active : Option Bool

-- The router lets only an administrator of the staff through.
unfoldable pub as_admin :
    {A : Type 0}
    → Principal
    → Result A × List PartnerChannelConfig
    → List PartnerChannelConfig
    → Result A × List PartnerChannelConfig
as_admin p run rows = if is_staff_admin p then run else (err forbidden, rows)

-- A row of the partner and the type, which the unique constraint compares as stored.
unfoldable pub is_taken : (partner channel : String) → List PartnerChannelConfig → Bool
is_taken partner channel [] = false
is_taken partner channel (c ∷ rows) =
    (c.collaborator_id == partner && channel_value c.channel_type == channel)
    || is_taken partner channel rows

unfoldable pub new_config : Uuid → ChannelConfigCreate → PartnerChannelConfig
new_config id body = record {
  id = id;
  collaborator_id = body.collaborator_id;
  channel_type = body.channel_type;
  priority = body.priority;
  config = body.config;
  inbound_token = body.inbound_token;
  is_active = body.is_active;
  health = none;
}

-- `create`: 409 where the unique constraint refuses the row.
unfoldable pub create_config :
    Uuid
    → ChannelConfigCreate
    → List PartnerChannelConfig
    → Result PartnerChannelConfig × List PartnerChannelConfig
unfolding is_taken new_config
create_config id body rows =
    if is_taken body.collaborator_id (channel_value body.channel_type) rows
    then (err conflict, rows)
    else (ok (new_config id body), rows ++ new_config id body ∷ [])

-- `get_or_404`
unfoldable pub get_or_404 : Uuid → List PartnerChannelConfig → Result PartnerChannelConfig
get_or_404 id rows = elim (find_first (λ c. c.id == id) rows) [
  | none ↦ err not_found
  | some c ↦ ok c
]

-- `list_configs`: by partner, in the order of texts of the database, then by priority.
unfoldable pub list_configs :
    (precedes : String → String → Bool)
    → Option String
    → List PartnerChannelConfig
    → List PartnerChannelConfig
list_configs precedes partner rows = sort_by before (wanted partner)
  where
    before : PartnerChannelConfig → PartnerChannelConfig → Bool
    before a b =
        precedes a.collaborator_id b.collaborator_id
        || (a.collaborator_id == b.collaborator_id && leb a.priority b.priority)

    wanted : Option String → List PartnerChannelConfig
    wanted none = rows
    wanted (some id) = select (λ c. c.collaborator_id == id) rows

abbrev or_old : Option String → Option String → Option String
or_old none old = old
or_old (some s) old = some s

-- The fields that the body names.
unfoldable pub patched : ChannelConfigUpdate → PartnerChannelConfig → PartnerChannelConfig
patched body c = record c {
  priority = or_else body.priority c.priority;
  config = or_else body.config c.config;
  inbound_token = or_old body.inbound_token c.inbound_token;
  is_active = or_else body.is_active c.is_active;
}

unfoldable pub update_found :
    Uuid
    → ChannelConfigUpdate
    → List PartnerChannelConfig
    → Result PartnerChannelConfig
    → Result PartnerChannelConfig × List PartnerChannelConfig
unfolding patched
update_found id body rows (err p) = (err p, rows)
update_found id body rows (ok c) =
    (ok (patched body c), update_where (λ x. x.id == id) (patched body) rows)

unfoldable pub update_config :
    Uuid
    → ChannelConfigUpdate
    → List PartnerChannelConfig
    → Result PartnerChannelConfig × List PartnerChannelConfig
unfolding update_found get_or_404
update_config id body rows = update_found id body rows (get_or_404 id rows)
