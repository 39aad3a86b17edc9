-- ===== src/Requests/Assign.antt =====
-- `AssignmentService` of backend/src/api/requests/service.py. The register of partners and the
-- orders of kb-platform are an argument.
pub mod Sound
pub mod Placed
use kb_partners.Prelude.{
  ℕ, Bool, true, false, not, ◌&&◌, String, ◌≡◌, refl, Option, none, some, List, [], ◌∷◌, is_some,
  if◌then◌else◌, Result, ok, err, Effect, pure, raise, require, get, ◌>>=◌, ◌>>◌,
}
use Prim.Native.String.{◌++◌}
use kb_partners.Errors.{forbidden, conflict, unprocessable, bad_gateway}
use kb_partners.Auth.{Principal, Uuid, str_uuid}
use kb_partners.Config.{Env}
use kb_partners.Matching.{Candidate, MatchResult, rank}
use kb_partners.Requests.Enums.{
  RequestStatus, needs_review, matching, dispatched, failed_dispatch, is, is_in, Category,
  category_value, HistoryAction,
}
use kb_partners.Requests.Models.{ServiceRequest, MatchTrace, manual, auto}
use kb_partners.Requests.Store.{Db, Work, handle, set_request, journal}
use kb_partners.Requests.Access.{get_visible, is_visible, can_drive_lifecycle}
use kb_partners.Requests.Lifecycle.{apply_transition}
use kb_partners.Requests.Lifecycle.Safe.{Safe, IsSound, handle-IsSound, safe_rules}
use kb_partners.Requests.Detail.{RequestDetail}
use kb_partners.Requests.Service.{detail_now}
use kb_partners.Requests.Service.Sound.{Safe-detail_now}

-- `PlatformClient`: what kb-platform answers; the order is its identifier, or none on a failure.
pub record Platform : Type 0 where
  pub search_candidates : (category : String) → (service_area : Option String) → List Candidate
  pub create_service_order :
      (request_id partner_id category idempotency_key : String) → Option String

pub record AssignRequest : Type 0 where
  pub partner_id : Option String
  pub service_area : Option String

abbrev pub assignable_statuses : List RequestStatus
assignable_statuses =
    RequestStatus.classified ∷ needs_review ∷ matching ∷ dispatched ∷ failed_dispatch ∷ []

unfoldable pub put_manual : String → ServiceRequest → ServiceRequest
put_manual partner_id r = record r {
  partner_id = some partner_id;
  delivery_channel = none;
  fallback_chain = some [];
  match_trace = some (manual partner_id);
}

-- `{**result.match_trace, "matched_at": ...}`
unfoldable pub matched : ℕ → MatchTrace → MatchTrace
matched at (manual partner_id) = manual partner_id
matched at (auto area candidates _) = auto area candidates (some at)

unfoldable pub put_match : Env → MatchResult → ServiceRequest → ServiceRequest
unfolding matched
put_match env m r = record r {
  partner_id = some m.partner_id;
  delivery_channel = some m.delivery_channel;
  fallback_chain = some m.fallback_chain;
  match_trace = some (matched env.now m.match_trace);
}

-- The result of the ranking, written down; nobody eligible is 422.
unfoldable pub write_match : Env → Option MatchResult → Effect Work Unit
unfolding put_match
write_match env none = raise unprocessable
write_match env (some m) = set_request (put_match env m)

-- `_apply_manual` or `_apply_auto`, by the partner that the body names.
unfoldable pub choose :
    Env → Platform → Category → Option String → (service_area : Option String) → Effect Work Unit
unfolding put_manual write_match
choose env platform category (some partner) area = set_request (put_manual partner)
choose env platform category none area =
    let name = category_value category in
    write_match env (rank (platform.search_candidates name area) name area)

unfoldable pub link_order : Option String → Effect Work Unit
link_order none = raise bad_gateway
link_order (some ref) = set_request (λ r. record r { service_order_id = some ref })

unfoldable pub order_for : Platform → ServiceRequest → Category → Option String → Effect Work Unit
unfolding link_order
order_for platform r category none = raise conflict
order_for platform r category (some partner) =
    let key = "assign:" ++ str_uuid r.id in
    link_order (platform.create_service_order (str_uuid r.id) partner (category_value category) key)

-- `_orchestrate_service_order`
unfoldable pub orchestrate_service_order :
    Platform → (require_service_order : Bool) → Category → Effect Work Unit
unfolding order_for
orchestrate_service_order platform false category = pure tt
orchestrate_service_order platform true category = do
  w ← get
  order_for platform w.request category w.request.partner_id

-- `_route_to_assigned`
unfoldable pub route_to_assigned : Env → Principal → Effect Work Unit
route_to_assigned env p = do
  w ← get
  if is w.request.status matching then pure tt else apply_transition env p matching
  apply_transition env p RequestStatus.assigned

-- The rest of `assign`, once the category is known.
unfoldable pub assign_in :
    Env
    → Principal
    → Platform
    → (require_service_order : Bool) → AssignRequest
    → Option Category
    → Effect Work RequestDetail
unfolding choose orchestrate_service_order route_to_assigned
assign_in env p platform required body none = raise conflict
assign_in env p platform required body (some category) = do
  choose env platform category body.partner_id body.service_area
  orchestrate_service_order platform required category
  route_to_assigned env p
  journal env p HistoryAction.assigned
      (λ r. some (if is_some body.partner_id then "manual" else "auto")) (λ r. r.partner_id)
  detail_now env p

unfoldable pub assign_body :
    Env → Principal → Platform → Bool → AssignRequest → Effect Work RequestDetail
unfolding assign_in
assign_body env p platform required body = do
  w ← get
  require (can_drive_lifecycle p) forbidden
  require (is_in w.request.status assignable_statuses) conflict
  assign_in env p platform required body w.request.category

unfoldable pub assign :
    Env
    → Principal
    → Platform
    → (require_service_order : Bool) → Uuid
    → AssignRequest
    → Db
    → Result RequestDetail × Db
unfolding assign_body
assign env p platform required request_id body db =
    handle (get_visible p request_id db) (assign_body env p platform required body) db
