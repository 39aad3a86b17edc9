-- ===== src/Prelude/Lists.antt =====
-- Lists tested, cut and sorted as the program does it, over native numbers.
use Prim.Native.Nat.{ℕ, zero, suc, ◌+◌, ◌≤◌, ◌<◌}
use mathlib.Core.Path.{◌≡◌, refl, ap, subst}
use mathlib.Core.Logic.{◌⊎◌, inl, inr}
use mathlib.Core.Bool.{Bool, true, false}
use mathlib.Core.Option.{Option, none, some}
use mathlib.Core.List.{List, [], ◌∷◌, ◌++◌, Perm}
use mathlib.Core.List.Perm
use native.Mathlib.Omega.{arith}
use kb_partners.Prelude.Tests.{if◌then◌else◌, Bool-cases}

-- Every element satisfies `P`.
abbrev pub All {ℓ κ} : {A : Type ℓ} → (A → Type κ) → List A → Type κ
All P [] = Unit
All P (x ∷ xs) = P x × All P xs

module _ {ℓ} {A : Type ℓ} where
  abbrev pub length : List A → ℕ
  length [] = 0
  length (x ∷ xs) = suc (length xs)

  -- `xs[:n]`
  abbrev pub take : ℕ → List A → List A
  take zero xs = []
  take (suc n) [] = []
  take (suc n) (x ∷ xs) = x ∷ take n xs

  -- The rows that pass a test, in order (a list comprehension, an SQL WHERE).
  unfoldable pub select : (A → Bool) → List A → List A
  select p [] = []
  select p (x ∷ xs) = let rest = select p xs in if p x then x ∷ rest else rest

  -- The first row that passes a test (`scalar_one_or_none` on a unique condition).
  unfoldable pub find_first : (A → Bool) → List A → Option A
  find_first p [] = none
  find_first p (x ∷ xs) = if p x then some x else find_first p xs

  -- Every row that passes a test is rewritten in place.
  unfoldable pub update_where : (A → Bool) → (A → A) → List A → List A
  update_where p f [] = []
  update_where p f (x ∷ xs) = (if p x then f x else x) ∷ update_where p f xs

  -- Insertion into a list sorted by `le`, before the first element that it may precede.
  unfoldable pub insert_by : (A → A → Bool) → A → List A → List A
  insert_by le a [] = a ∷ []
  insert_by le a (x ∷ xs) = if le a x then a ∷ x ∷ xs else x ∷ insert_by le a xs

  -- A stable sort, as `sorted` and SQL ORDER BY are used here.
  unfoldable pub sort_by : (A → A → Bool) → List A → List A
  unfolding insert_by
  sort_by le [] = []
  sort_by le (x ∷ xs) = insert_by le x (sort_by le xs)

module _ {ℓ} {A : Type ℓ} where
  insert_by-perm : (le : A → A → Bool) (a : A) (xs : List A) → Perm (insert_by le a xs) (a ∷ xs)
  unfolding insert_by
  insert_by-perm le a [] = Perm.refl (a ∷ [])
  insert_by-perm le a (x ∷ xs) = by_test (le a x) (insert_by-perm le a xs)
    where
      by_test :
          (b : Bool)
          → Perm (insert_by le a xs) (a ∷ xs)
          → Perm (if b then a ∷ x ∷ xs else x ∷ insert_by le a xs) (a ∷ x ∷ xs)
      by_test true ih = Perm.refl _
      by_test false ih = Perm.trans (Perm.cons x ih) (Perm.swap a x xs)

  pub sort_by-perm : (le : A → A → Bool) (xs : List A) → Perm (sort_by le xs) xs
  unfolding sort_by
  sort_by-perm le [] = Perm.refl []
  sort_by-perm le (x ∷ xs) =
      Perm.trans (insert_by-perm le x (sort_by le xs)) (Perm.cons x (sort_by-perm le xs))

  module _ {κ} (P : A → Type κ) where
    pub All-append : (xs ys : List A) → All P xs → All P ys → All P (xs ++ ys)
    All-append [] ys hx hy = hy
    All-append (x ∷ xs) ys hx hy = (hx.0, All-append xs ys hx.1 hy)

    pub All-select : (p : A → Bool) (xs : List A) → All P xs → All P (select p xs)
    unfolding select
    All-select p [] h = h
    All-select p (x ∷ xs) h = ground (arith, All-select p xs h.1)

    pub All-select_test :
        (p : A → Bool) (xs : List A) → ((x : A) → p x ≡ true → P x) → All P (select p xs)
    unfolding select
    All-select_test p [] h = tt
    All-select_test p (x ∷ xs) h = ground (arith, All-select_test p xs h, h x)

    pub All-insert_by :
        (le : A → A → Bool) (a : A) (xs : List A) → P a → All P xs → All P (insert_by le a xs)
    unfolding insert_by
    All-insert_by le a [] ha h = (ha, tt)
    All-insert_by le a (x ∷ xs) ha h = ground (arith, All-insert_by le a xs ha h.1)

    pub All-sort_by : (le : A → A → Bool) (xs : List A) → All P xs → All P (sort_by le xs)
    unfolding sort_by
    All-sort_by le [] h = h
    All-sort_by le (x ∷ xs) h = All-insert_by le x (sort_by le xs) h.0 (All-sort_by le xs h.1)

    pub All-take : (n : ℕ) (xs : List A) → All P xs → All P (take n xs)
    All-take zero xs h = tt
    All-take (suc n) [] h = tt
    All-take (suc n) (x ∷ xs) h = (h.0, All-take n xs h.1)

  -- What a query returns passes its test.
  pub find_first-holds :
      (p : A → Bool) (xs : List A) (a : A) → find_first p xs ≡ some a → p a ≡ true
  unfolding find_first
  find_first-holds p [] a h = cc
  find_first-holds p (x ∷ xs) a h = ground (arith, find_first-holds p xs a)

  -- What a query returns has what every row has.
  pub find_first-All {κ} :
      (P : A → Type κ) (p : A → Bool) (xs : List A) (a : A)
      → All P xs
      → find_first p xs ≡ some a
      → P a
  unfolding find_first
  find_first-All P p [] a all h = absurd (cc)
  find_first-All P p (x ∷ xs) a all h = elim (Bool-cases (p x)) [
    | inl hit ↦
        let found : some x ≡ some a = rw hit at h in let same : x ≡ a = cc in subst P same all.0
    | inr miss ↦ find_first-All P p xs a all.1 (rw miss at h)
  ]

  pub All-update_where {κ μ} :
      (P : A → Type κ) (Q : A → Type μ) (p : A → Bool) (f : A → A) (xs : List A)
      → ((x : A) → P x → p x ≡ true → Q (f x))
      → ((x : A) → P x → p x ≡ false → Q x)
      → All P xs
      → All Q (update_where p f xs)
  unfolding update_where
  All-update_where P Q p f [] hit miss all = tt
  All-update_where P Q p f (x ∷ xs) hit miss all =
      (here (Bool-cases (p x)), All-update_where P Q p f xs hit miss all.1)
    where
      here : (p x ≡ true) ⊎ (p x ≡ false) → Q (if p x then f x else x)
      here (inl e) = rw e (hit x all.0 e)
      here (inr e) = rw e (miss x all.0 e)

  pub length-take : (n : ℕ) (xs : List A) → length (take n xs) ≤ n
  length-take zero xs = omega arith
  length-take (suc n) [] = omega arith
  length-take (suc n) (x ∷ xs) = omega (arith, length-take n xs)

  pub length-append : (xs ys : List A) → length (xs ++ ys) ≡ length xs + length ys
  length-append [] ys = omega arith
  length-append (x ∷ xs) ys = omega (arith, length-append xs ys)

  pub take-all : (n : ℕ) (xs : List A) → length xs ≤ n → take n xs ≡ xs
  take-all zero [] h = refl
  take-all zero (x ∷ xs) h = absurd (omega arith)
  take-all (suc n) [] h = refl
  take-all (suc n) (x ∷ xs) h = ap (λ r. x ∷ r) (take-all n xs (omega arith))

  pub take-short : (n : ℕ) (xs : List A) → length (take n xs) < n → take n xs ≡ xs
  take-short zero xs h = absurd (omega arith)
  take-short (suc n) [] h = refl
  take-short (suc n) (x ∷ xs) h = ap (λ r. x ∷ r) (take-short n xs (omega arith))

  pub length-insert_by :
      (le : A → A → Bool) (a : A) (xs : List A) → length (insert_by le a xs) ≡ suc (length xs)
  unfolding insert_by
  length-insert_by le a [] = refl
  length-insert_by le a (x ∷ xs) = ground (arith, length-insert_by le a xs)

  pub length-sort_by : (le : A → A → Bool) (xs : List A) → length (sort_by le xs) ≡ length xs
  unfolding sort_by
  length-sort_by le [] = refl
  length-sort_by le (x ∷ xs) = rw (length-insert_by le x (sort_by le xs), length-sort_by le xs) refl

  -- A query that finds nothing: every row fails its test.
  pub find_first-none :
      (p : A → Bool) (xs : List A) → find_first p xs ≡ none → All (λ x. p x ≡ false) xs
  unfolding find_first
  find_first-none p [] h = tt
  find_first-none p (x ∷ xs) h = elim (Bool-cases (p x)) [
    | inl hit ↦ let found : some x ≡ none = rw hit at h in absurd (cc)
    | inr miss ↦ (miss, find_first-none p xs (rw miss at h))
  ]
