-- ===== src/Matching/Ranking.antt =====
-- What the ranking of partners guarantees.
use mathlib.Core.List.{Perm}
use kb_partners.Prelude.{
  true, false, String, ◌≡◌, ◌≤◌, refl, Option, none, some, List, [], ◌∷◌, map, All, All-insert_by,
  arith, select, insert_by, sort_by, sort_by-perm, Bool-cases, inl, inr,
}
use kb_partners.Matching.{
  Candidate, MatchResult, is_eligible, ranked, rank, result_of, ranks_before, rating_of,
}

-- No candidate is rated higher than one before it.
pub data Descending : List Candidate → Type 0 where
  nothing : Descending []
  best :
      {c : Candidate} {cs : List Candidate}
      → All (λ d. rating_of d ≤ rating_of c) cs
      → Descending cs
      → Descending (c ∷ cs)

before-rating : (a b : Candidate) → ranks_before a b ≡ true → rating_of b ≤ rating_of a
unfolding ranks_before
before-rating a b h = ground arith

after-rating : (a b : Candidate) → ranks_before a b ≡ false → rating_of a ≤ rating_of b
unfolding ranks_before
after-rating a b h = ground arith

All-lower :
    (a x : Candidate) (cs : List Candidate)
    → rating_of x ≤ rating_of a
    → All (λ d. rating_of d ≤ rating_of x) cs
    → All (λ d. rating_of d ≤ rating_of a) cs
All-lower a x [] h t = tt
All-lower a x (c ∷ cs) h t = (omega (arith, t.0), All-lower a x cs h t.1)

insert-Descending :
    (a : Candidate) (cs : List Candidate) → Descending cs → Descending (insert_by ranks_before a cs)
unfolding insert_by
insert-Descending a [] d = best tt nothing
insert-Descending a (x ∷ xs) (best below d) = elim (Bool-cases (ranks_before a x)) [
  | inl h ↦
      rw h (best (before-rating a x h, All-lower a x xs (before-rating a x h) below) (best below d))
  | inr h ↦ rw h (
      best
        (All-insert_by (λ d. rating_of d ≤ rating_of x) ranks_before a xs (after-rating a x h)
          below)
        (insert-Descending a xs d))
]

sort-Descending : (cs : List Candidate) → Descending (sort_by ranks_before cs)
unfolding sort_by
sort-Descending [] = nothing
sort-Descending (c ∷ cs) = insert-Descending c (sort_by ranks_before cs) (sort-Descending cs)

-- How a result reads off a ranking.
pub record Follows (m : MatchResult) (ranking : List Candidate) : Type 0 where
  pub ids : map (λ c. c.id) ranking ≡ m.partner_id ∷ m.fallback_chain
  pub order : Descending ranking

result-ids :
    (area : Option String) (cs : List Candidate) (m : MatchResult)
    → result_of area cs ≡ some m
    → map (λ c. c.id) cs ≡ m.partner_id ∷ m.fallback_chain
unfolding result_of
result-ids area [] m h = cc
result-ids area (c ∷ cs) m h = grind arith

result-none : (area : Option String) (cs : List Candidate) → result_of area cs ≡ none → cs ≡ []
unfolding result_of
result-none area [] h = refl
result-none area (c ∷ cs) h = cc

-- The chosen partner with the fallback chain behind it are the eligible candidates, each exactly
-- once, and none is rated higher than one before it.
pub rank-Follows :
    (cs : List Candidate) (category : String) (area : Option String) (m : MatchResult)
    → rank cs category area ≡ some m
    → (ranking : List Candidate) × Perm ranking (select (is_eligible category area) cs)
      × Follows m ranking
unfolding rank ranked
rank-Follows cs category area m h = (
  sort_by ranks_before (select (is_eligible category area) cs),
  sort_by-perm ranks_before _,
  record { ids = result-ids area _ m h; order = sort-Descending _ },
)
