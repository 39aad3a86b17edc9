-- ===== src/Examples/Reading.antt =====
-- Runs of what subjects see, of the intake and of assignments on the sample data.
use mathlib.Core.List.{Perm}
use kb_partners.Prelude.{
  true, false, ◌≡◌, ◌⊎◌, refl, String, Option, none, some, List, [], ◌∷◌, ◌>>=◌, find_first, All,
  select, sort_by, str_int, ℕ,
}
use kb_partners.Auth.{is_operator, has_scope, is_staff_admin, is_agent, is_partner}
use kb_partners.Requests.Enums.{new, web_form, matching, cleaning, category_value}
use kb_partners.Requests.Models.{auto}
use kb_partners.Requests.Fsm.{can_transition}
use kb_partners.Requests.Store.{Work, set_request, set_tables, journal}
use kb_partners.Requests.Access.{get_visible, can_view_internal, can_drive_lifecycle}
use kb_partners.Requests.Access.Isolation.{InContour, Owns, get_visible-Owns, MayRead}
use kb_partners.Requests.Detail.{build_detail}
use kb_partners.Requests.Detail.Masking.{build_detail-masked}
use kb_partners.Requests.Service.{list_messages, detail_now}
use kb_partners.Requests.Lifecycle.{apply_transition, enter}
use kb_partners.Requests.Service.Outcomes.{list_messages-hides}
use kb_partners.Requests.Lifecycle.Safe.{IsSound}
use kb_partners.Requests.Intake.{Draft, intake}
use kb_partners.Requests.Intake.Laws.{intake-repeat, intake-IsSound}
use kb_partners.Matching.{Candidate, MatchResult, rank, is_eligible}
use kb_partners.Matching.Ranking.{Follows, rank-Follows}
use kb_partners.Requests.Assign.{Platform, AssignRequest, assign_body}
use kb_partners.Requests.Assign.Placed.{Placed, assign_body-Placed}
use kb_partners.Requests.Classify.{Outcome, is_confident, classify_body}
use kb_partners.Requests.Classify.Routing.{Routed, classify_body-Routed}
use kb_partners.Examples.{noon, alice, olga, cleaners, request_at, one_request, note}
use kb_partners.Examples.Journal.{one_request-IsSound}

get_visible-Owns_example :
    (request_at new).id ≡ "r1"
    × InContour alice (request_at new).access_level
    × Owns alice (request_at new)
unfolding get_visible is_operator is_staff_admin has_scope find_first is_agent is_partner
get_visible-Owns_example = get_visible-Owns alice "r1" one_request (request_at new) refl refl refl

build_detail-masked_example :
    let d = build_detail noon cleaners (request_at new) [] in
    (d.match_trace ≡ none)
    × (d.fallback_chain ≡ none)
    × ((d.raw_input ≡ "call [PHONE]")
        ⊎ ((is_partner cleaners ≡ false) × MayRead cleaners (request_at new)))
unfolding is_operator is_staff_admin has_scope
build_detail-masked_example = build_detail-masked noon cleaners (request_at new) [] refl refl

list_messages-hides_example : All (λ m. m.is_internal ≡ false) (note false "hello" ∷ [])
unfolding list_messages can_view_internal get_visible is_operator has_scope is_staff_admin
    find_first is_agent is_partner sort_by select
list_messages-hides_example =
    list_messages-hides alice "r1" one_request (note false "hello" ∷ []) refl refl

abbrev draft : Draft
draft = record {
  requester_id = "bob";
  raw_input = "wash";
  channel_in = web_form;
  source_ref = none;
  booking_id = none;
  premises_id = none;
  idempotency_key = some "key-2";
}

abbrev hide : String → String
hide s = "***"

intake-repeat_example :
    let first = intake noon hide true alice draft (λ db. db) one_request in
    intake noon hide false olga draft (λ db. db) first.1 ≡ ((first.0.0, false), first.1)
intake-repeat_example =
    intake-repeat noon noon hide hide true false alice olga draft draft (λ db. db) (λ db. db)
      "key-2" one_request refl refl

intake-IsSound_example : IsSound (intake noon hide true alice draft (λ db. db) one_request).1
unfolding str_int
intake-IsSound_example =
    intake-IsSound noon hide true alice draft (λ db. db) one_request one_request-IsSound
      one_request-IsSound (record { absent = (refl, tt) })

abbrev candidate : String → Option ℕ → Candidate
candidate name rating = record {
  id = name;
  category = "CLEANING";
  is_active = true;
  available = true;
  rating = rating;
  service_areas = [];
  channels = "crm" ∷ [];
}

abbrev two_partners : List Candidate
two_partners = candidate "a" (some 4000000) ∷ candidate "b" (some 4500000) ∷ []

abbrev best_match : MatchResult
best_match = record {
  partner_id = "b";
  delivery_channel = "crm";
  fallback_chain = "a" ∷ [];
  match_trace =
      auto none
        (record { id = "b"; rating = some 4500000; service_areas = []; channels = "crm" ∷ [] }
          ∷ record { id = "a"; rating = some 4000000; service_areas = []; channels = "crm" ∷ [] }
          ∷ [])
        none;
}

rank-Follows_example :
    (ranking : List Candidate) × Perm ranking (select (is_eligible "CLEANING" none) two_partners)
    × Follows best_match ranking
unfolding rank sort_by select
rank-Follows_example = rank-Follows two_partners "CLEANING" none best_match refl

abbrev platform : Platform
platform = record {
  search_candidates = λ category area. two_partners;
  create_service_order = λ id partner category key. some "order-1";
}

abbrev matching_work : Work
matching_work = record { request = request_at matching; tables = one_request.tables }

abbrev auto_assign : AssignRequest
auto_assign = record { partner_id = none; service_area = none }

assign_body-Placed_example :
    Placed true (assign_body noon olga platform true auto_assign matching_work).1.request
unfolding assign_body ◌>>=◌ can_drive_lifecycle is_operator rank sort_by select category_value
    set_request apply_transition can_transition journal set_tables detail_now
assign_body-Placed_example =
    assign_body-Placed noon olga platform true auto_assign matching_work _ refl

abbrev doubtful : String → Outcome
doubtful text = record {
  category = cleaning;
  product_code = none;
  confidence = 400000;
  model = "rules";
  version = "1";
  method = "rules";
  params = [];
}

abbrev new_work : Work
new_work = record { request = request_at new; tables = one_request.tables }

classify_body-Routed_example :
    Routed
      (is_confident 700000 (doubtful "call [PHONE]"))
      (classify_body noon olga 700000 doubtful new_work).1.request.status
unfolding classify_body ◌>>=◌ can_drive_lifecycle is_operator set_request apply_transition
    can_transition enter journal set_tables detail_now
classify_body-Routed_example = classify_body-Routed noon olga 700000 doubtful new_work _ refl
