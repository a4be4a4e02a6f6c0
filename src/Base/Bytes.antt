-- ===== src/Base/Bytes.antt =====
-- Go strings as lists of bytes, with what the gateway uses of the package `strings`.
use Prim.Native.Nat.{ℕ}
use Prim.Native.Char.{code}
use Prim.Native.String.{String}
use mathlib.Core.Bool.{Bool, true, false, ◌&&◌, ◌||◌}
use mathlib.Core.List.{List, [], ◌∷◌, ◌++◌, reverse, append_assoc}
use mathlib.Core.Logic.{◌↔◌, ◌≢◌}
use mathlib.Core.Path.{◌≡◌, refl, ap}
use native.Mathlib.Omega.{arith}
use workspace_gateway.Base.Tests.{if◌then◌else◌, ltb, leb, ◌==◌}

abbrev pub Text : Type 0
Text = List ℕ

-- The code points of a literal; these are its bytes when the text is ASCII.
abbrev pub codes : String → Text
codes String.[] = []
codes (String.◌∷◌ c s) = code c ∷ codes s

abbrev pub newline : ℕ
newline = b'\n'

-- `a == b` on strings.
unfoldable pub text_eq : Text → Text → Bool
text_eq [] [] = true
text_eq (a ∷ s) (b ∷ t) = a == b && text_eq s t
text_eq _ _ = false

text_eq→eq : (s t : Text) → text_eq s t ≡ true → s ≡ t
unfolding text_eq
text_eq→eq [] [] h = refl
text_eq→eq [] (b ∷ t) h = cc
text_eq→eq (a ∷ s) [] h = cc
text_eq→eq (a ∷ s) (b ∷ t) h = ground (arith, text_eq→eq s t)

pub text_eq_refl : (s : Text) → text_eq s s ≡ true
unfolding text_eq
text_eq_refl [] = refl
text_eq_refl (a ∷ s) = ground (arith, text_eq_refl s)

pub text_eq_iff : (s t : Text) → (text_eq s t ≡ true) ↔ (s ≡ t)
text_eq_iff s t = (text_eq→eq s t, λ e. rw e (text_eq_refl t))

-- Two texts that the test tells apart are different.
pub text_ne : (s t : Text) → text_eq s t ≡ false → s ≢ t
text_ne s t h e = let true_ : text_eq s t ≡ true = (text_eq_iff s t).1 e in cc

-- `a < b` on strings, also SQL's BINARY order and that of `sort.Strings`.
unfoldable pub text_lt : Text → Text → Bool
text_lt [] [] = false
text_lt [] (b ∷ t) = true
text_lt (a ∷ s) [] = false
text_lt (a ∷ s) (b ∷ t) = ltb a b || a == b && text_lt s t

-- strings.HasPrefix(s, p)
unfoldable pub has_prefix : Text → Text → Bool
has_prefix s [] = true
has_prefix [] (b ∷ p) = false
has_prefix (a ∷ s) (b ∷ p) = a == b && has_prefix s p

-- strings.HasSuffix(s, p)
unfoldable pub has_suffix : Text → Text → Bool
unfolding text_eq
has_suffix [] p = text_eq [] p
has_suffix (a ∷ s) p = text_eq (a ∷ s) p || has_suffix s p

-- strings.Contains(s, sub), bytes.Contains
unfoldable pub contains : Text → Text → Bool
unfolding has_prefix
contains [] sub = has_prefix [] sub
contains (a ∷ s) sub = has_prefix (a ∷ s) sub || contains s sub

-- The text behind its first bytes, one for each of another's.
abbrev drop_as : Text → Text → Text
drop_as [] s = s
drop_as (b ∷ p) [] = []
drop_as (b ∷ p) (a ∷ s) = drop_as p s

-- strings.TrimPrefix(s, p)
unfoldable pub trim_prefix : Text → Text → Text
unfolding has_prefix
trim_prefix s p = if has_prefix s p then drop_as p s else s

trim_left_byte : ℕ → Text → Text
trim_left_byte c [] = []
trim_left_byte c (a ∷ s) = let rest = trim_left_byte c s in if a == c then rest else a ∷ s

-- strings.TrimRight(s, cutset) for a cutset of one byte
unfoldable pub trim_right : ℕ → Text → Text
unfolding trim_left_byte
trim_right c s = reverse (trim_left_byte c (reverse s))

pub has_prefix-append : (p s : Text) → has_prefix (p ++ s) p ≡ true
unfolding has_prefix
has_prefix-append [] [] = refl
has_prefix-append [] (a ∷ s) = refl
has_prefix-append (a ∷ p) s = ground (arith, has_prefix-append p s)

drop_as-append : (p s : Text) → has_prefix s p ≡ true → p ++ drop_as p s ≡ s
unfolding has_prefix
drop_as-append [] [] h = refl
drop_as-append [] (a ∷ s) h = refl
drop_as-append (b ∷ p) [] h = cc
drop_as-append (b ∷ p) (a ∷ s) h =
    let same : b ≡ a = ground arith in rw same (ap (λ t. a ∷ t) (drop_as-append p s (ground arith)))

-- A prefix and what is left without it.
pub trim_prefix-append : (s p : Text) → has_prefix s p ≡ true → p ++ trim_prefix s p ≡ s
unfolding trim_prefix
trim_prefix-append s p h = rw h (drop_as-append p s h)

-- A text that stands anywhere in another is found.
pub contains-append : (pre sub post : Text) → contains (pre ++ (sub ++ post)) sub ≡ true
unfolding contains
contains-append [] [] [] = refl
contains-append [] [] (a ∷ s) = refl
contains-append [] (a ∷ sub) post = ground (arith, has_prefix-append (a ∷ sub) post)
contains-append (a ∷ pre) sub post = ground (arith, contains-append pre sub post)

pub contains-middle : (pre a sub post : Text) → contains (pre ++ (a ++ (sub ++ post))) sub ≡ true
contains-middle pre a sub post =
    rw (← append_assoc pre a (sub ++ post)) (contains-append (pre ++ a) sub post)

pub contains-nil : (s : Text) → contains s [] ≡ true
unfolding contains has_prefix
contains-nil [] = refl
contains-nil (a ∷ s) = refl

-- What a text holds, it holds behind another.
pub contains_behind : (a s sub : Text) → contains s sub ≡ true → contains (a ++ s) sub ≡ true
unfolding contains
contains_behind [] s sub h = h
contains_behind (c ∷ a) s sub h = ground (arith, contains_behind a s sub h)

-- ASCII white space.
abbrev pub is_space : ℕ → Bool
is_space c = c == 32 || (leb 9 c && leb c 13)

drop_space : Text → Text
drop_space [] = []
drop_space (c ∷ s) = let rest = drop_space s in if is_space c then rest else c ∷ s

-- strings.TrimSpace of an ASCII text.
unfoldable pub trim_space : Text → Text
unfolding drop_space
trim_space s = reverse (drop_space (reverse (drop_space s)))
