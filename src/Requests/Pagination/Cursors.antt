-- ===== src/Requests/Pagination/Cursors.antt =====
-- A cursor is read back as it was written.
use text.Mathlib.TextLemmas.{cons-append, nil-append}
use Prim.Native.Char.{code}
use Prim.Native.String.{◌++◌}
use kb_partners.Prelude.{ℕ, Bool, true, ◌&&◌, not, String, ◌≡◌, refl, some, eqb, ok, arith}
use kb_partners.Auth.{Uuid}
use kb_partners.Config.{Env}
use kb_partners.Requests.Pagination.{Codec, encode_cursor, split_bar, decode_cursor}

-- A text without the separator.
unfoldable pub has_no_bar : String → Bool
has_no_bar String.[] = true
has_no_bar (String.◌∷◌ c s) = not (eqb (code c) 124) && has_no_bar s

split_bar-append :
    (front back : String)
    → has_no_bar front ≡ true
    → split_bar (front ++ ("|" ++ back)) ≡ some (front, back)
unfolding split_bar has_no_bar
split_bar-append String.[] back h =
    rw (nil-append ("|" ++ back), cons-append "|" "" back, nil-append back) refl
split_bar-append (String.◌∷◌ c s) back h =
    rw (cons-append c s ("|" ++ back)) (ground (arith, split_bar-append s back))

-- What the codec relies on: each library reads what it wrote, and the text of an instant holds no
-- separator.
pub record IsFaithful (env : Env) (codec : Codec) : Type 0 where
  pub base64 : (s : String) → codec.b64decode (codec.b64encode s) ≡ some s
  pub instants : (t : ℕ) → codec.fromisoformat (env.isoformat t) ≡ some t
  pub bars : (t : ℕ) → has_no_bar (env.isoformat t) ≡ true

-- Decoding an encoded cursor gives it back, for every instant and every identifier that `UUID`
-- reads as it stands.
pub decode_cursor-encode_cursor :
    (env : Env) (codec : Codec) (created_at : ℕ) (id : Uuid)
    → IsFaithful env codec
    → codec.parse_uuid id ≡ some id
    → decode_cursor codec (encode_cursor env codec created_at id)
      ≡ ok (record { created_at = created_at; id = id })
unfolding decode_cursor encode_cursor
decode_cursor-encode_cursor env codec created_at id faithful parsed =
    rw
      (
        faithful.base64 (env.isoformat created_at ++ "|" ++ id),
        split_bar-append (env.isoformat created_at) id (faithful.bars created_at),
        faithful.instants created_at,
        parsed,
      )
      refl
