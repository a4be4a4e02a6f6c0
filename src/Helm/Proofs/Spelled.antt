-- ===== src/Helm/Proofs/Spelled.antt =====
-- The names of revision bodies of internal/helmmgr/helmmgr.go (`revCMName`), read back.
use workspace_gateway.Base.{
  ℕ, zero, suc, ◌+◌, ◌-◌, ◌*◌, ◌/◌, ◌<◌, Bool, true, false, ◌&&◌, List, [], ◌∷◌, ◌++◌, Option, none,
  some, ◌≡◌, refl, ap, ◌∙◌, arith, if_elim, all, All, All-append, keep, ltb, leb, Text, codes,
}
use workspace_gateway.Base.Table.{delete}
use workspace_gateway.Helm.Api.{ConfigMap, named, is_revision}
use workspace_gateway.Helm.Proofs.Keeping.{IsWritten, written_head, written_body, IsKept}
use workspace_gateway.Helm.Proofs.Names.{IsWellFormed, kept_IsWellFormed}
use workspace_gateway.Helm.Records.{itoa_from, itoa, rev_cm_name}

abbrev pub is_decimal : ℕ → Bool
is_decimal c = leb b'0' c && leb c b'9'

-- The number that decimal digits stand for, read from the left.
abbrev pub value_from : ℕ → Text → ℕ
value_from n [] = n
value_from n (c ∷ digits) = value_from (n * 10 + (c - b'0')) digits

-- The name spells the release and the number.
abbrev pub Spells : Text → Text → Option ℕ → Type 0
Spells name release none = ⊥
Spells name release (some n) =
    (digits : Text) × (name ≡ codes "helm-release-rev-" ++ (release ++ (codes "-v" ++ digits)))
    × (all is_decimal digits ≡ true)
    × (value_from 0 digits ≡ n)

abbrev pub IsSpelled : ConfigMap → Type 0
IsSpelled m = elim (is_revision m) [ true ↦ Spells m.name m.release m.number | false ↦ Unit {0} ]

pub record IsNumbered (l : List ConfigMap) : Type 0 where
  pub well_formed : IsWellFormed l
  pub spelled : All IsSpelled l

value_from-itoa_from :
    (fuel n : ℕ) (digits : Text)
    → n < fuel
    → value_from 0 (itoa_from fuel n digits) ≡ value_from n digits
value_from-itoa_from zero n digits h = absurd (omega (arith, h))
value_from-itoa_from (suc fuel) n digits h =
    if_elim (λ t. value_from 0 t ≡ value_from n digits) (ltb n 10) _ _
      (λ _. ap (λ m. value_from m digits) (omega arith))
      (λ e.
        value_from-itoa_from fuel (n / 10) _ (tenth e)
        ∙ ap (λ m. value_from m digits) (omega arith))
  where
    tenth : ltb n 10 ≡ false → n / 10 < fuel
    tenth e = ground (arith, h, e)

all-itoa_from :
    (fuel n : ℕ) (digits : Text)
    → all is_decimal digits ≡ true
    → all is_decimal (itoa_from fuel n digits) ≡ true
all-itoa_from zero n digits h = h
all-itoa_from (suc fuel) n digits h =
    if_elim (λ t. all is_decimal t ≡ true) (ltb n 10) _ _ (λ e. ground (arith, h, e))
      (λ e. all-itoa_from fuel (n / 10) _ (ground (arith, h)))

Spells-rev_cm_name : (release : Text) (n : ℕ) → Spells (rev_cm_name release n) release (some n)
unfolding rev_cm_name itoa
Spells-rev_cm_name release n =
    (itoa n, refl, all-itoa_from (suc n) n [] refl, value_from-itoa_from (suc n) n [] (omega arith))

written-IsSpelled : (m : ConfigMap) → IsWritten m → IsSpelled m
written-IsSpelled m (written_head r) = tt
written-IsSpelled m (written_body release rv) = Spells-rev_cm_name release rv.revision

All-keep : {A : Type 0} (P : A → Type 0) (p : A → Bool) (l : List A) → All P l → All P (keep p l)
All-keep P p [] h = tt
All-keep P p (x ∷ l) (hx, h) =
    if_elim (All P) (p x) (x ∷ keep p l) (keep p l) (λ _. (hx, All-keep P p l h))
      (λ _. All-keep P p l h)

pub kept_IsNumbered : IsKept IsNumbered
kept_IsNumbered = record {
  adds = λ m l w fresh q. record {
    well_formed = kept_IsWellFormed.adds m l w fresh q.well_formed;
    spelled = All-append IsSpelled l (m ∷ []) q.spelled (written-IsSpelled m w, tt);
  };
  replaces = λ m l w q. record {
    well_formed = kept_IsWellFormed.replaces m l w q.well_formed;
    spelled =
        All-append IsSpelled (delete (named m.name) l) (m ∷ []) (All-keep IsSpelled _ l q.spelled)
          (written-IsSpelled m w, tt);
  };
  deletes = λ name l q. record {
    well_formed = kept_IsWellFormed.deletes name l q.well_formed;
    spelled = All-keep IsSpelled _ l q.spelled;
  };
}
