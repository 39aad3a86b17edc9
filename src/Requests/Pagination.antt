-- ===== src/Requests/Pagination.antt =====
-- backend/src/api/requests/pagination.py, `list_visible` of repository.py and `list_requests` of
-- service.py: the list of requests that a subject sees, page by page.
pub mod Cursors
pub mod Pages
use Prim.Native.Char.{code}
use Prim.Native.String
use kb_partners.Prelude.{
  ℕ, zero, suc, ◌+◌, Bool, true, false, ◌&&◌, ◌||◌, not, String, ◌==◌, Option, none, some, List, [],
  ◌∷◌, leb, ltb, eqb, text_le, is_empty, is_some, holds_text, length, take, select, sort_by,
  if◌then◌else◌, Result, ok, err,
}
use Prim.Native.String.{◌++◌}
use kb_partners.Errors.{bad_request}
use kb_partners.Auth.{Principal, Uuid, str_uuid}
use kb_partners.Config.{Env}
use kb_partners.Requests.Enums.{RequestStatus, is, Category, category_is}
use kb_partners.Requests.Models.{ServiceRequest}
use kb_partners.Requests.Store.{Db}
use kb_partners.Requests.Access.{visible_access_levels, ownership_condition, level_in}

pub record Cursor : Type 0 where
  pub created_at : ℕ
  pub id : Uuid

-- The libraries of the codec: URL-safe base64 of texts (UTF-8), `datetime.fromisoformat` and
-- `uuid.UUID`; decoding may fail.
pub record Codec : Type 0 where
  pub b64encode : String → String
  pub b64decode : String → Option String
  pub fromisoformat : String → Option ℕ
  pub parse_uuid : String → Option Uuid

unfoldable pub encode_cursor : Env → Codec → ℕ → Uuid → String
encode_cursor env codec created_at id =
    codec.b64encode (env.isoformat created_at ++ "|" ++ str_uuid id)

-- `raw.split("|", 1)`, unpacked into two.
unfoldable pub split_bar : String → Option (String × String)
split_bar String.[] = none
split_bar (String.◌∷◌ c s) =
    let rest = split_bar s in
    if eqb (code c) 124
    then some ("", s)
    else elim rest [ none ↦ none | some (front, back) ↦ some (String.◌∷◌ c front, back) ]

abbrev pub cursor_of : Option ℕ → Option Uuid → Result Cursor
cursor_of (some created_at) (some id) = ok (record { created_at = created_at; id = id })
cursor_of _ _ = err bad_request

abbrev pub read_parts : Codec → Option (String × String) → Result Cursor
read_parts codec none = err bad_request
read_parts codec (some (ts, id)) = cursor_of (codec.fromisoformat ts) (codec.parse_uuid id)

abbrev pub read_raw : Codec → Option String → Result Cursor
unfolding split_bar
read_raw codec none = err bad_request
read_raw codec (some raw) = read_parts codec (split_bar raw)

unfoldable pub decode_cursor : Codec → String → Result Cursor
unfolding split_bar
decode_cursor codec cursor = read_raw codec (codec.b64decode cursor)

pub record RequestListFilters : Type 0 where
  pub status : Option RequestStatus
  pub category : Option Category
  pub partner_id : Option String
  pub created_from : Option ℕ
  pub created_to : Option ℕ

-- A condition of the query that is there only with its filter.
abbrev pub if_given : {A : Type 0} → Option A → (A → Bool) → Bool
if_given none test = true
if_given (some a) test = test a

abbrev has_category : Option Category → Category → Bool
has_category none c = false
has_category (some d) c = category_is d c

-- The conditions of `list_visible`, without the cursor.
unfoldable pub is_listed : Principal → RequestListFilters → ServiceRequest → Bool
unfolding visible_access_levels ownership_condition
is_listed p f r =
    level_in r.access_level (visible_access_levels p)
    && ownership_condition p r
    && if_given f.status (is r.status)
    && if_given f.category (has_category r.category)
    && if_given f.partner_id (holds_text r.partner_id)
    && if_given f.created_from (λ from. leb from r.created_at)
    && if_given f.created_to (λ to. leb r.created_at to)

-- Behind the cursor in the order of the list.
unfoldable pub is_behind : Cursor → ServiceRequest → Bool
is_behind c r =
    ltb r.created_at c.created_at || (eqb r.created_at c.created_at && not (text_le c.id r.id))

-- `ORDER BY created_at DESC, id DESC`
unfoldable pub newest_first : ServiceRequest → ServiceRequest → Bool
newest_first a b =
    ltb b.created_at a.created_at || (eqb b.created_at a.created_at && text_le b.id a.id)

unfoldable pub list_visible :
    Principal
    → RequestListFilters
    → Option Cursor
    → (limit : ℕ) → List ServiceRequest
    → List ServiceRequest
unfolding is_listed is_behind newest_first
list_visible p f cursor limit rows = take (limit + 1) (
    sort_by newest_first
      (select (λ r. is_listed p f r && if_given cursor (λ c. is_behind c r)) rows))

-- `min(limit or 50, 100)`
unfoldable pub page_limit : Option ℕ → ℕ
page_limit none = 50
page_limit (some n) = if eqb n 0 then 50 else if leb n 100 then n else 100

pub record RequestListResponse : Type 0 where
  pub items : List ServiceRequest
  pub next_cursor : Option String

unfoldable pub last : List ServiceRequest → Option ServiceRequest
last [] = none
last (r ∷ []) = some r
last (r ∷ s ∷ rest) = last (s ∷ rest)

abbrev pub cursor_after : Env → Codec → Option ServiceRequest → Option String
unfolding encode_cursor
cursor_after env codec none = none
cursor_after env codec (some r) = some (encode_cursor env codec r.created_at r.id)

-- The page of the rows that were read, one more than it shows if there are more.
unfoldable pub page_of : Env → Codec → ℕ → List ServiceRequest → RequestListResponse
unfolding last encode_cursor
page_of env codec limit rows = record {
  items = take limit rows;
  next_cursor =
      if ltb limit (length rows) then cursor_after env codec (last (take limit rows)) else none;
}

-- The empty cursor counts as none.
abbrev pub decoded : Codec → Option String → Result (Option Cursor)
unfolding decode_cursor
decoded codec none = ok none
decoded codec (some text) =
    if is_empty text
    then ok none
    else elim (decode_cursor codec text) [ ok c ↦ ok (some c) | err p ↦ err p ]

unfoldable pub list_requests :
    Env
    → Codec
    → Principal
    → RequestListFilters
    → (cursor : Option String) → (limit : Option ℕ) → Db
    → Result RequestListResponse
unfolding decode_cursor list_visible page_of page_limit
list_requests env codec p f cursor limit db = elim (decoded codec cursor) [
  | err q ↦ err q
  | ok c ↦
      ok (page_of env codec (page_limit limit) (list_visible p f c (page_limit limit) db.requests))
]
