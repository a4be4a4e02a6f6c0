-- ===== src/Base/Split.antt =====
-- strings.Split, strings.SplitAfter and strings.Join for a separator of one byte.
use Prim.Native.Nat.{ℕ}
use mathlib.Core.List.{List, [], ◌∷◌, ◌++◌}
use mathlib.Core.Logic.{◌≢◌}
use mathlib.Core.Path.{◌≡◌, refl}
use native.Mathlib.Omega.{arith}
use workspace_gateway.Base.Lists.{All}
use workspace_gateway.Base.Tests.{if◌then◌else◌, ◌==◌}
use workspace_gateway.Base.Bytes.{Text}

abbrev cons_head : ℕ → List Text → List Text
cons_head c [] = (c ∷ []) ∷ []
cons_head c (p ∷ ps) = (c ∷ p) ∷ ps

unfoldable pub split : ℕ → Text → List Text
split sep [] = [] ∷ []
split sep (c ∷ s) = let rest = split sep s in if c == sep then [] ∷ rest else cons_head c rest

-- Each part but the last keeps its separator.
unfoldable pub split_after : ℕ → Text → List Text
split_after sep [] = [] ∷ []
split_after sep (c ∷ s) =
    let rest = split_after sep s in if c == sep then (c ∷ []) ∷ rest else cons_head c rest

-- strings.Join(parts, "")
unfoldable pub concat : List Text → Text
concat [] = []
concat (p ∷ ps) = p ++ concat ps

abbrev pub Lacks : ℕ → Text → Type 0
Lacks b = All (λ c. c ≢ b)

concat-cons_head : (c : ℕ) (ps : List Text) → concat (cons_head c ps) ≡ c ∷ concat ps
unfolding concat
concat-cons_head c [] = refl
concat-cons_head c (p ∷ ps) = refl

pub concat-split_after : (sep : ℕ) (s : Text) → concat (split_after sep s) ≡ s
unfolding concat split_after
concat-split_after sep [] = refl
concat-split_after sep (c ∷ s) =
    ground (arith, concat-split_after sep s, concat-cons_head c (split_after sep s))

pub split_of_Lacks : (sep : ℕ) (p : Text) → Lacks sep p → split sep p ≡ p ∷ []
unfolding split
split_of_Lacks sep [] h = refl
split_of_Lacks sep (c ∷ p) (hc, hp) = ground (arith, split_of_Lacks sep p hp)

pub split-append : (sep : ℕ) (p s : Text) → Lacks sep p → split sep (p ++ sep ∷ s) ≡ p ∷ split sep s
unfolding split
split-append sep [] s h = ground arith
split-append sep (c ∷ p) s (hc, hp) = ground (arith, split-append sep p s hp)

-- strings.Join(parts, sep)
unfoldable pub join : ℕ → List Text → Text
join sep [] = []
join sep (p ∷ []) = p
join sep (p ∷ q ∷ ps) = p ++ sep ∷ join sep (q ∷ ps)

join-cons_nil : (sep : ℕ) (ps : List Text) → ps ≢ [] → join sep ([] ∷ ps) ≡ sep ∷ join sep ps
unfolding join
join-cons_nil sep [] h = absurd (h refl)
join-cons_nil sep (p ∷ ps) h = refl

join-cons_head : (sep c : ℕ) (ps : List Text) → join sep (cons_head c ps) ≡ c ∷ join sep ps
unfolding join
join-cons_head sep c [] = refl
join-cons_head sep c (p ∷ []) = refl
join-cons_head sep c (p ∷ q ∷ ps) = refl

cons_head-ne-nil : (c : ℕ) (ps : List Text) → cons_head c ps ≢ []
cons_head-ne-nil c [] = cc
cons_head-ne-nil c (p ∷ ps) = cc

pub split-ne-nil : (sep : ℕ) (s : Text) → split sep s ≢ []
unfolding split
split-ne-nil sep [] = cc
split-ne-nil sep (c ∷ s) = ground (arith, cons_head-ne-nil c (split sep s))

-- Joining the parts of a split gives the text back.
pub join-split : (sep : ℕ) (s : Text) → join sep (split sep s) ≡ s
unfolding split
join-split sep [] = unfold join in refl
join-split sep (c ∷ s) = ground (
  arith,
  join-split sep s,
  join-cons_nil sep (split sep s) (split-ne-nil sep s),
  join-cons_head sep c (split sep s),
)
