-- ===== src/Matching.antt =====
-- backend/src/api/matching/engine.py: the ranking of the partners of the register.
pub mod Ranking
use kb_partners.Prelude.{
  ℕ, Bool, true, false, not, ◌&&◌, ◌||◌, String, ◌==◌, Option, none, some, List, [], ◌∷◌, map, ltb,
  eqb, or_else, text_le, select, sort_by,
}
use kb_partners.Requests.Models.{MatchTrace, auto, TracedCandidate}

-- `CollaboratorCandidate` of clients/platform/models.py; a rating is in millionths.
pub record Candidate : Type 0 where
  pub id : String
  pub category : String
  pub is_active : Bool
  pub available : Bool
  pub rating : Option ℕ
  pub service_areas : List String
  pub channels : List String

pub record MatchResult : Type 0 where
  pub partner_id : String
  pub delivery_channel : String
  pub fallback_chain : List String
  pub match_trace : MatchTrace

-- `text in texts`
unfoldable pub text_in : String → List String → Bool
text_in s [] = false
text_in s (t ∷ texts) = t == s || text_in s texts

-- A candidate without zones covers every area.
unfoldable pub covers : Option String → List String → Bool
unfolding text_in
covers none areas = true
covers (some area) [] = true
covers (some area) (a ∷ areas) = text_in area (a ∷ areas)

abbrev pub is_nonempty : List String → Bool
is_nonempty [] = false
is_nonempty (c ∷ cs) = true

unfoldable pub is_eligible : String → Option String → Candidate → Bool
unfolding covers
is_eligible category service_area c =
    c.category == category
    && (c.is_active
        && (c.available && (is_nonempty c.channels && covers service_area c.service_areas)))

abbrev pub rating_of : Candidate → ℕ
rating_of c = or_else c.rating 0

-- The sort key `(-rating, id)`, a missing rating as 0.
unfoldable pub ranks_before : Candidate → Candidate → Bool
ranks_before a b =
    ltb (rating_of b) (rating_of a) || (eqb (rating_of a) (rating_of b) && text_le a.id b.id)

unfoldable pub ranked : String → Option String → List Candidate → List Candidate
unfolding is_eligible ranks_before
ranked category service_area cs =
    sort_by ranks_before (select (is_eligible category service_area) cs)

unfoldable pub traced : Candidate → TracedCandidate
traced c = record {
  id = c.id;
  rating = c.rating;
  service_areas = c.service_areas;
  channels = c.channels;
}

-- `channels[0]` of an eligible candidate, which has one.
abbrev pub head_channel : List String → String
head_channel [] = ""
head_channel (c ∷ cs) = c

unfoldable pub result_of : Option String → List Candidate → Option MatchResult
unfolding traced
result_of service_area [] = none
result_of service_area (chosen ∷ rest) = some (record {
  partner_id = chosen.id;
  delivery_channel = head_channel chosen.channels;
  fallback_chain = map (λ c. c.id) rest;
  match_trace = auto service_area (map traced (chosen ∷ rest)) none;
})

unfoldable pub rank : List Candidate → String → Option String → Option MatchResult
unfolding ranked result_of
rank candidates category service_area =
    result_of service_area (ranked category service_area candidates)
