-- ===== src/Requests/Pagination/Pages.antt =====
-- What a page shows.
use mathlib.Core.List.{Perm}
use kb_partners.Prelude.{ℕ, ◌≤◌, ◌≡◌, true, ◌&&◌, Option, none, List, length, select, All}
use kb_partners.Auth.{Principal}
use kb_partners.Requests.Models.{ServiceRequest}
use kb_partners.Requests.Pagination.{
  Cursor, RequestListFilters, RequestListResponse, if_given, is_listed, is_behind,
}

-- The rows that the subject may see, that pass the filters, and that are behind the cursor.
abbrev pub matching_rows :
    Principal → RequestListFilters → Option Cursor → List ServiceRequest → List ServiceRequest
matching_rows p f cursor = select (λ r. is_listed p f r && if_given cursor (λ c. is_behind c r))

-- What a page promises, of the rows and the cursor that it starts from.
pub record IsPage (p : Principal) (f : RequestListFilters) (cursor : Option Cursor) (limit : ℕ)
    (rows : List ServiceRequest) (page : RequestListResponse) : Type 0 where
  pub listed : All (λ r. is_listed p f r ≡ true) page.items
  pub behind : All (λ r. if_given cursor (λ c. is_behind c r) ≡ true) page.items
  pub short : length page.items ≤ limit
  pub whole : page.next_cursor ≡ none → Perm page.items (matching_rows p f cursor rows)
