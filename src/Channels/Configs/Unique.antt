-- ===== src/Channels/Configs/Unique.antt =====
-- The channels of a partner stay unique by type.
use kb_partners.Prelude.{
  Bool, true, false, ◌&&◌, ◌≡◌, refl, ◌∙◌, String, ◌==◌, eq_iff, List, [], ◌∷◌, ◌++◌, update_where,
  if◌then◌else◌, Result, ok, err, arith,
}
use kb_partners.Errors.{conflict}
use kb_partners.Auth.{Uuid}
use kb_partners.Channels.{PartnerChannelConfig}
use kb_partners.Channels.Dispatch.{channel_value}
use kb_partners.Channels.Configs.{
  ChannelConfigCreate, ChannelConfigUpdate, is_taken, new_config, create_config, get_or_404,
  patched, update_found, update_config,
}

-- No two rows are of one partner and one type.
abbrev pub IsUnique : List PartnerChannelConfig → Type 0
IsUnique [] = Unit
IsUnique (c ∷ rows) =
    (is_taken c.collaborator_id (channel_value c.channel_type) rows ≡ false) × IsUnique rows

is_taken-append :
    (partner channel : String) (rows : List PartnerChannelConfig) (c : PartnerChannelConfig)
    → is_taken partner channel rows ≡ false
    → (c.collaborator_id == partner && channel_value c.channel_type == channel) ≡ false
    → is_taken partner channel (rows ++ c ∷ []) ≡ false
unfolding is_taken
is_taken-append partner channel [] c free other = ground arith
is_taken-append partner channel (x ∷ rows) c free other =
    ground (arith, is_taken-append partner channel rows c)

other_key : (a b x y : String) → (a == b && x == y) ≡ false → (b == a && y == x) ≡ false
other_key a b x y h = ground (arith, eq_iff a b, eq_iff b a, eq_iff x y, eq_iff y x)

append-IsUnique :
    (rows : List PartnerChannelConfig) (c : PartnerChannelConfig)
    → is_taken c.collaborator_id (channel_value c.channel_type) rows ≡ false
    → IsUnique rows
    → IsUnique (rows ++ c ∷ [])
unfolding is_taken
append-IsUnique [] c free unique = (refl, tt)
append-IsUnique (x ∷ rows) c free unique = (
  is_taken-append x.collaborator_id (channel_value x.channel_type) rows c unique.0 (
      other_key x.collaborator_id c.collaborator_id (channel_value x.channel_type)
        (channel_value c.channel_type) (ground arith)),
  append-IsUnique rows c (ground arith) unique.1,
)

-- What `create` leaves is unique again.
create_config-IsUnique :
    (id : Uuid) (body : ChannelConfigCreate) (rows : List PartnerChannelConfig)
    → IsUnique rows
    → IsUnique (create_config id body rows).1
unfolding create_config new_config
create_config-IsUnique id body rows unique =
    by_key (is_taken body.collaborator_id (channel_value body.channel_type) rows) refl
  where
    by_key :
        (b : Bool)
        → is_taken body.collaborator_id (channel_value body.channel_type) rows ≡ b
        → IsUnique
            (if◌then◌else◌ {A = Result PartnerChannelConfig × List PartnerChannelConfig} b
              (err conflict, rows)
              (ok (new_config id body), rows ++ new_config id body ∷ [])).1
    by_key true taken = unique
    by_key false free = append-IsUnique rows (new_config id body) free unique

patched_taken :
    (partner channel : String) (test : PartnerChannelConfig → Bool) (body : ChannelConfigUpdate)
    (rows : List PartnerChannelConfig)
    → is_taken partner channel (update_where test (patched body) rows)
      ≡ is_taken partner channel rows
unfolding is_taken update_where patched
patched_taken partner channel test body [] = refl
patched_taken partner channel test body (x ∷ rows) =
    ground (arith, patched_taken partner channel test body rows)

patched-IsUnique :
    (test : PartnerChannelConfig → Bool) (body : ChannelConfigUpdate)
    (rows : List PartnerChannelConfig)
    → IsUnique rows
    → IsUnique (update_where test (patched body) rows)
unfolding update_where patched
patched-IsUnique test body [] unique = tt
patched-IsUnique test body (x ∷ rows) unique =
    (here (test x), patched-IsUnique test body rows unique.1)
  where
    here :
        (b : Bool)
        → let y = if b then patched body x else x in
          is_taken y.collaborator_id
            (channel_value y.channel_type)
            (update_where test (patched body) rows)
          ≡ false
    here true = patched_taken _ _ test body rows ∙ unique.0
    here false = patched_taken _ _ test body rows ∙ unique.0

-- An update changes neither partner nor type of a channel.
update_config-IsUnique :
    (id : Uuid) (body : ChannelConfigUpdate) (rows : List PartnerChannelConfig)
    → IsUnique rows
    → IsUnique (update_config id body rows).1
unfolding update_config update_found
update_config-IsUnique id body rows unique = by_row (get_or_404 id rows)
  where
    by_row : (found : Result PartnerChannelConfig) → IsUnique (update_found id body rows found).1
    by_row (err p) = unique
    by_row (ok c) = patched-IsUnique (λ x. x.id == id) body rows unique
