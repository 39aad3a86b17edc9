-- ===== src/Requests/Classify.antt =====
-- `ClassificationService` of backend/src/api/requests/service.py. The outcome of the engine (rules
-- and a language model) on the masked text is an argument.
pub mod Routing
use kb_partners.Prelude.{
  ℕ, Bool, not, ◌&&◌, String, Option, some, List, [], ◌∷◌, leb, if◌then◌else◌, Result, Effect, pure,
  require, get, refl, ◌≡◌, ◌>>=◌, ◌>>◌,
}
use kb_partners.Errors.{forbidden, conflict}
use kb_partners.Auth.{Principal, Uuid}
use kb_partners.Config.{Env}
use kb_partners.Requests.Enums.{
  RequestStatus, new, classifying, needs_review, is, is_in, Category, other, category_is,
  category_value, HistoryAction,
}
use kb_partners.Requests.Models.{ServiceRequest, Classification}
use kb_partners.Requests.Store.{Db, Work, handle, set_request, journal}
use kb_partners.Requests.Access.{get_visible, is_visible, can_drive_lifecycle}
use kb_partners.Requests.Lifecycle.{apply_transition}
use kb_partners.Requests.Lifecycle.Safe.{Safe, IsSound, handle-IsSound, safe_rules}
use kb_partners.Requests.Detail.{RequestDetail}
use kb_partners.Requests.Service.{detail_now}
use kb_partners.Requests.Service.Sound.{Safe-detail_now}

-- `ClassificationOutcome`, with a confidence in millionths.
pub record Outcome : Type 0 where
  pub category : Category
  pub product_code : Option String
  pub confidence : ℕ
  pub model : String
  pub version : String
  pub method : String
  pub params : List (String × String)

abbrev pub classifiable_statuses : List RequestStatus
classifiable_statuses = new ∷ RequestStatus.classified ∷ needs_review ∷ []

unfoldable pub to_classification : Outcome → ℕ → Classification
to_classification o at = record {
  confidence = o.confidence;
  model = o.model;
  version = o.version;
  method = o.method;
  params = o.params;
  classified_at = at;
}

-- The assignments to the request.
unfoldable pub put_outcome : Env → Outcome → ServiceRequest → ServiceRequest
unfolding to_classification
put_outcome env o r = record r {
  category = some o.category;
  product_code = o.product_code;
  classification = some (to_classification o env.now);
}

abbrev pub is_confident : ℕ → Outcome → Bool
is_confident threshold o = leb threshold o.confidence && not (category_is o.category other)

-- `_route_status`
unfoldable pub route_status : Env → Principal → (confident : Bool) → Effect Work Unit
route_status env p confident = do
  w ← get
  if is w.request.status new
      then (apply_transition env p classifying >> apply_transition env p RequestStatus.classified)
      else pure tt
  v ← get
  if not confident && is v.request.status RequestStatus.classified
      then apply_transition env p needs_review
      else pure tt

unfoldable pub classify_body :
    Env → Principal → (threshold : ℕ) → (String → Outcome) → Effect Work RequestDetail
unfolding put_outcome route_status
classify_body env p threshold engine = do
  w ← get
  require (can_drive_lifecycle p) forbidden
  require (is_in w.request.status classifiable_statuses) conflict
  let outcome = engine w.request.raw_input_masked
  set_request (put_outcome env outcome)
  route_status env p (is_confident threshold outcome)
  journal env p HistoryAction.classified (λ r. some outcome.method)
      (λ r. some (category_value outcome.category))
  detail_now env p

unfoldable pub classify :
    Env → Principal → (threshold : ℕ) → (String → Outcome) → Uuid → Db → Result RequestDetail × Db
unfolding classify_body
classify env p threshold engine request_id db =
    handle (get_visible p request_id db) (classify_body env p threshold engine) db

outcome_keeps :
    (env : Env) (o : Outcome) (r : ServiceRequest)
    → ((put_outcome env o r).id ≡ r.id) × ((put_outcome env o r).status ≡ r.status)
unfolding put_outcome
outcome_keeps env o r = (refl, refl)

Safe-route_status : (env : Env) (p : Principal) (c : Bool) → Safe (route_status env p c)
unfolding route_status
Safe-route_status env p c = search safe_rules depth 16

pub Safe-classify_body :
    (env : Env) (p : Principal) (threshold : ℕ) (engine : String → Outcome)
    → Safe (classify_body env p threshold engine)
unfolding classify_body
Safe-classify_body env p threshold engine =
    search (safe_rules, outcome_keeps, Safe-route_status, Safe-detail_now) depth 20

pub classify-IsSound :
    (env : Env) (p : Principal) (threshold : ℕ) (engine : String → Outcome) (id : Uuid) (db : Db)
    → IsSound db
    → IsSound (classify env p threshold engine id db).1
unfolding classify get_visible
classify-IsSound env p threshold engine id db =
    handle-IsSound _ (is_visible p id) db (Safe-classify_body env p threshold engine)
