-- ===== src/Base/Lists.antt =====
-- Lists over the native numbers, and predicates on lists.
use Prim.Native.Nat.{ℕ, suc, ◌+◌}
use mathlib.Core.Bool.{Bool, true, false, ◌&&◌, ◌||◌}
use mathlib.Core.List.{List, [], ◌∷◌, ◌++◌, map}
use mathlib.Core.Logic.{◌⊎◌, inl, inr}
use mathlib.Core.Path.{◌≡◌, refl}
use native.Mathlib.Omega.{arith}
use workspace_gateway.Base.Tests.{if◌then◌else◌, Bool-cases}

module _ {ℓ} {A : Type ℓ} where
  abbrev pub length : List A → ℕ
  length [] = 0
  length (x ∷ xs) = suc (length xs)

  pub length-append : (xs ys : List A) → length (xs ++ ys) ≡ length xs + length ys
  length-append [] ys = omega arith
  length-append (x ∷ xs) ys = omega (arith, length-append xs ys)

  abbrev pub all : (A → Bool) → List A → Bool
  all p [] = true
  all p (x ∷ xs) = p x && all p xs

  abbrev pub any : (A → Bool) → List A → Bool
  any p [] = false
  any p (x ∷ xs) = p x || any p xs

  -- The elements that pass a test, in order.
  abbrev pub keep : (A → Bool) → List A → List A
  keep p [] = []
  keep p (x ∷ xs) = let rest = keep p xs in if p x then x ∷ rest else rest

  abbrev pub null : List A → Bool
  null [] = true
  null (x ∷ xs) = false

  pub any-append : (p : A → Bool) (xs ys : List A) → any p (xs ++ ys) ≡ any p xs || any p ys
  any-append p [] ys = refl
  any-append p (x ∷ xs) ys = ground (arith, any-append p xs ys)

  pub all-append : (p : A → Bool) (xs ys : List A) → all p (xs ++ ys) ≡ (all p xs && all p ys)
  all-append p [] ys = refl
  all-append p (x ∷ xs) ys = ground (arith, all-append p xs ys)

  -- A test that the elements pass which another picks is passed by all that it keeps.
  pub all-keep : (p q : A → Bool) (l : List A) → all p l ≡ true → all p (keep q l) ≡ true
  all-keep p q [] h = refl
  all-keep p q (x ∷ l) h = ground (arith, all-keep p q l)

  pub all_weaken :
      (p q : A → Bool) (l : List A)
      → ((a : A) → p a ≡ true → q a ≡ true)
      → all p l ≡ true
      → all q l ≡ true
  all_weaken p q [] h t = refl
  all_weaken p q (x ∷ l) h t = ground (arith, h x, all_weaken p q l h)

  -- Elements that pass one test, where `r` picks none or only `r` is kept, pass another.
  pub all-keep_weaken :
      (p q r : A → Bool) (l : List A)
      → ((a : A) → r a ≡ true → p a ≡ true → q a ≡ true)
      → all p l ≡ true
      → all q (keep r l) ≡ true
  all-keep_weaken p q r [] h t = refl
  all-keep_weaken p q r (x ∷ l) h t = ground (arith, h x, all-keep_weaken p q r l h)

  pub all_weaken_none :
      (p q r : A → Bool) (l : List A)
      → ((a : A) → r a ≡ false → p a ≡ true → q a ≡ true)
      → any r l ≡ false
      → all p l ≡ true
      → all q l ≡ true
  all_weaken_none p q r [] h n t = refl
  all_weaken_none p q r (x ∷ l) h n t = ground (arith, h x, all_weaken_none p q r l h)

module _ {ℓ κ} {A : Type ℓ} (P : A → Type κ) where
  abbrev pub All : List A → Type κ
  All [] = Unit
  All (x ∷ xs) = P x × All xs

  pub All-append : (xs ys : List A) → All xs → All ys → All (xs ++ ys)
  All-append [] ys _ hy = hy
  All-append (x ∷ xs) ys (px, hx) hy = (px, All-append xs ys hx hy)

module _ {ℓ κ} {A : Type ℓ} {P : A → Type κ} where
  -- A test that implies `P`, passed by all, gives `P` of all.
  pub All-of_all :
      (p : A → Bool) → ((a : A) → p a ≡ true → P a) → (xs : List A) → all p xs ≡ true → All P xs
  All-of_all p f [] h = tt
  All-of_all p f (x ∷ xs) h = (f x (ground arith), All-of_all p f xs (ground arith))

-- Membership with its place kept.
abbrev pub Any {ℓ} : {A : Type ℓ} → (A → Type 0) → List A → Type 0
Any P [] = ⊥
Any P (x ∷ xs) = P x ⊎ Any P xs

-- What holds of each member holds of all.
pub All-of_Any :
    {A : Type 0} {P : A → Type 0} (l : List A) → ((a : A) → Any (λ x. x ≡ a) l → P a) → All P l
All-of_Any [] f = tt
All-of_Any (x ∷ l) f = (f x (inl refl), All-of_Any l λ a m. f a (inr m))

module _ {ℓ} {A : Type ℓ} (P Q : A → Type 0) where
  -- Members change their property with the help of a test that all pass.
  pub Any-weaken :
      (p : A → Bool) (l : List A)
      → all p l ≡ true
      → ((a : A) → p a ≡ true → P a → Q a)
      → Any P l
      → Any Q l
  Any-weaken p [] h f m = m
  Any-weaken p (x ∷ l) h f (inl m) = inl (f x (ground arith) m)
  Any-weaken p (x ∷ l) h f (inr m) = inr (Any-weaken p l (ground arith) f m)

pub Any-keep {ℓ} :
    {A : Type ℓ} (P : A → Type 0) (q : A → Bool) (l : List A)
    → Any P (keep q l)
    → Any (λ x. (q x ≡ true) × P x) l
Any-keep P q [] m = m
Any-keep P q (x ∷ l) m = elim (Bool-cases (q x)) [
  | inl e ↦ elim (rw e at m) [ inl h ↦ inl (e, h) | inr h ↦ inr (Any-keep P q l h) ]
  | inr e ↦ inr (Any-keep P q l (rw e at m))
]

pub all-keep_eq {ℓ} :
    {A : Type ℓ} (p q : A → Bool) (l : List A)
    → all p (keep q l) ≡ all (λ x. if q x then p x else true) l
all-keep_eq p q [] = refl
all-keep_eq p q (x ∷ l) = ground (arith, all-keep_eq p q l)

pub any-map {ℓ κ} :
    {A : Type ℓ} {B : Type κ} (p : B → Bool) (f : A → B) (l : List A)
    → any p (map f l) ≡ any (λ x. p (f x)) l
any-map p f [] = refl
any-map p f (x ∷ l) = ground (arith, any-map p f l)

pub any-keep {ℓ} :
    {A : Type ℓ} (p q : A → Bool) (l : List A) → any p (keep q l) ≡ any (λ x. q x && p x) l
any-keep p q [] = refl
any-keep p q (x ∷ l) = ground (arith, any-keep p q l)
