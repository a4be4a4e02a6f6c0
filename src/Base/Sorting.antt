-- ===== src/Base/Sorting.antt =====
-- A stable sort by a test `less`, as `sort.SliceStable` and SQL's ORDER BY.
use mathlib.Core.Bool.{Bool, true, ◌||◌, ◌&&◌}
use mathlib.Core.List.{List, [], ◌∷◌}
use mathlib.Core.Path.{◌≡◌, refl, ◌∙◌}
use native.Mathlib.Omega.{arith}
use workspace_gateway.Base.Lists.{any, all, Any, length}
use workspace_gateway.Base.Tests.{if◌then◌else◌, ltb, leb, Bool-cases}
use mathlib.Core.Logic.{◌⊎◌, inl, inr}
use Prim.Native.Nat.{ℕ, suc, ◌+◌}

module _ {ℓ} {A : Type ℓ} (less : A → A → Bool) where
  -- Behind its equals, and before the first that it is less than.
  unfoldable pub place : A → List A → List A
  place a [] = a ∷ []
  place a (b ∷ l) = let rest = place a l in if less a b then a ∷ b ∷ l else b ∷ rest

  -- Elements are placed from the left, each behind the equal ones placed before it.
  unfoldable pub place_all : List A → List A → List A
  unfolding place
  place_all [] sorted = sorted
  place_all (a ∷ l) sorted = place_all l (place a sorted)

  unfoldable pub sort : List A → List A
  unfolding place_all
  sort l = place_all l []

  any-place : (p : A → Bool) (a : A) (l : List A) → any p (place a l) ≡ p a || any p l
  unfolding place
  any-place p a [] = refl
  any-place p a (b ∷ l) = ground (arith, any-place p a l)

  any-place_all :
      (p : A → Bool) (l sorted : List A) → any p (place_all l sorted) ≡ any p l || any p sorted
  unfolding place_all
  any-place_all p [] sorted = refl
  any-place_all p (a ∷ l) sorted =
      any-place_all p l (place a sorted) ∙ ground (arith, any-place p a sorted)

  -- Sorting keeps the elements.
  pub any-sort : (p : A → Bool) (l : List A) → any p (sort l) ≡ any p l
  unfolding sort
  any-sort p l = any-place_all p l [] ∙ ground arith

  length-place : (a : A) (l : List A) → length (place a l) ≡ suc (length l)
  unfolding place
  length-place a [] = refl
  length-place a (b ∷ l) = ground (arith, length-place a l)

  length-place_all : (l sorted : List A) → length (place_all l sorted) ≡ length l + length sorted
  unfolding place_all
  length-place_all [] sorted = omega arith
  length-place_all (a ∷ l) sorted =
      omega (arith, length-place_all l (place a sorted), length-place a sorted)

  pub length-sort : (l : List A) → length (sort l) ≡ length l
  unfolding sort
  length-sort l = omega (arith, length-place_all l [])

  all-place : (p : A → Bool) (a : A) (l : List A) → all p (place a l) ≡ (p a && all p l)
  unfolding place
  all-place p a [] = refl
  all-place p a (b ∷ l) = ground (arith, all-place p a l)

  all-place_all :
      (p : A → Bool) (l sorted : List A) → all p (place_all l sorted) ≡ (all p l && all p sorted)
  unfolding place_all
  all-place_all p [] sorted = refl
  all-place_all p (a ∷ l) sorted =
      all-place_all p l (place a sorted) ∙ ground (arith, all-place p a sorted)

  pub all-sort : (p : A → Bool) (l : List A) → all p (sort l) ≡ all p l
  unfolding sort
  all-sort p l = all-place_all p l [] ∙ ground arith

  Any-place : (P : A → Type 0) (a : A) (l : List A) → Any P (place a l) → P a ⊎ Any P l
  unfolding place
  Any-place P a [] m = m
  Any-place P a (b ∷ l) m = elim (Bool-cases (less a b)) [
    | inl e ↦ rw e at m
    | inr e ↦ elim (rw e at m) [
      | inl h ↦ inr (inl h)
      | inr h ↦ elim (Any-place P a l h) [ inl x ↦ inl x | inr x ↦ inr (inr x) ]
    ]
  ]

  Any-place_all :
      (P : A → Type 0) (l sorted : List A) → Any P (place_all l sorted) → Any P l ⊎ Any P sorted
  unfolding place_all
  Any-place_all P [] sorted m = inr m
  Any-place_all P (a ∷ l) sorted m = elim (Any-place_all P l (place a sorted) m) [
    | inl h ↦ inl (inr h)
    | inr h ↦ elim (Any-place P a sorted h) [ inl x ↦ inl (inl x) | inr x ↦ inr x ]
  ]

  pub Any-sort : (P : A → Type 0) (l : List A) → Any P (sort l) → Any P l
  unfolding sort
  Any-sort P l m = elim (Any-place_all P l [] m) [ inl h ↦ h | inr h ↦ absurd h ]

-- Sorting by a number.
module _ {ℓ} {A : Type ℓ} (key : A → ℕ) where
  abbrev by_key : A → A → Bool
  by_key a b = ltb (key a) (key b)

  -- No element has a smaller number behind it.
  abbrev pub ordered : List A → Bool
  ordered [] = true
  ordered (a ∷ l) = all (λ b. leb (key a) (key b)) l && ordered l

  all_above :
      (a b : A) (l : List A)
      → ltb (key a) (key b) ≡ true
      → all (λ c. leb (key b) (key c)) l ≡ true
      → all (λ c. leb (key a) (key c)) l ≡ true
  all_above a b [] h t = refl
  all_above a b (c ∷ l) h t = ground (arith, all_above a b l)

  ordered-place : (a : A) (l : List A) → ordered l ≡ true → ordered (place by_key a l) ≡ true
  unfolding place
  ordered-place a [] h = refl
  ordered-place a (b ∷ l) h =
      ground
        (arith, ordered-place a l, all_above a b l, all-place by_key (λ c. leb (key b) (key c)) a l)

  ordered-place_all :
      (l sorted : List A) → ordered sorted ≡ true → ordered (place_all by_key l sorted) ≡ true
  unfolding place_all
  ordered-place_all [] sorted h = h
  ordered-place_all (a ∷ l) sorted h = ordered-place_all l _ (ordered-place a sorted h)

  pub ordered-sort : (l : List A) → ordered (sort by_key l) ≡ true
  unfolding sort
  ordered-sort l = ordered-place_all l [] refl
