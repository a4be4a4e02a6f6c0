-- ===== src/Helm/Proofs/Names.antt =====
-- The ConfigMaps of releases: a name is held once, and a revision body has the name of its release
-- and number.
use workspace_gateway.Base.{
  Bool-cases, inl, inr, subst, ℕ, ◌+◌, ◌≤◌, Bool, true, false, ◌&&◌, not, List, [], ◌∷◌, ◌++◌,
  Option, none, some, ◌≡◌, refl, ◌∙◌, arith, if◌then◌else◌, any, all, keep, Text, text_eq,
  text_eq_iff, text_eq_refl, all-append, all-keep,
}
use workspace_gateway.Base.Table.{delete, count_rows, any-delete_same}
use workspace_gateway.Helm.Api.{ConfigMap, named, is_revision}
use workspace_gateway.Helm.Proofs.Keeping.{IsWritten, written_head, written_body, IsKept}
use workspace_gateway.Helm.Records.{rev_cm_name}

abbrev pub named_by_number : Text → Text → Option ℕ → Bool
named_by_number name release none = false
named_by_number name release (some n) = text_eq name (rev_cm_name release n)

-- A revision body has the name of its release and number.
abbrev pub is_consistent : ConfigMap → Bool
is_consistent m = if is_revision m then named_by_number m.name m.release m.number else true

pub record IsWellFormed (l : List ConfigMap) : Type 0 where
  pub held_once : (name : Text) → count_rows (named name) l ≤ 1
  pub consistent : all is_consistent l ≡ true

module _ {R : Type 0} where
  count_rows-append :
      (p : R → Bool) (xs ys : List R) → count_rows p (xs ++ ys) ≡ count_rows p xs + count_rows p ys
  count_rows-append p [] ys = omega arith
  count_rows-append p (x ∷ xs) ys = ground (arith, count_rows-append p xs ys)

  pub count_rows_none : (p : R → Bool) (l : List R) → any p l ≡ false → count_rows p l ≡ 0
  count_rows_none p [] h = refl
  count_rows_none p (x ∷ l) h = ground (arith, count_rows_none p l)

  count_rows-keep : (p q : R → Bool) (l : List R) → count_rows p (keep q l) ≤ count_rows p l
  count_rows-keep p q [] = omega arith
  count_rows-keep p q (x ∷ l) = ground (arith, count_rows-keep p q l)

consistent_written : (m : ConfigMap) → IsWritten m → is_consistent m ≡ true
consistent_written m (written_head r) = refl
consistent_written m (written_body release rv) = text_eq_refl (rev_cm_name release rv.revision)

held_once-add :
    (m : ConfigMap) (l : List ConfigMap)
    → any (named m.name) l ≡ false
    → ((name : Text) → count_rows (named name) l ≤ 1)
    → (name : Text) → count_rows (named name) (l ++ m ∷ []) ≤ 1
held_once-add m l fresh once name = elim (Bool-cases (text_eq m.name name)) [
  | inl e ↦ ground (
    arith,
    count_rows-append (named name) l (m ∷ []),
    count_rows_none (named name) l
        (subst (λ n. any (named n) l ≡ false) ((text_eq_iff m.name name).0 e) fresh),
  )
  | inr e ↦ ground (arith, count_rows-append (named name) l (m ∷ []), once name)
]

consistent_added :
    (m : ConfigMap) (l : List ConfigMap)
    → IsWritten m
    → all is_consistent l ≡ true
    → all is_consistent (l ++ m ∷ []) ≡ true
consistent_added m l w h = all-append is_consistent l (m ∷ []) ∙ both _ _ h (consistent_written m w)
  where
    both : (a b : Bool) → a ≡ true → b ≡ true → (a && (b && true)) ≡ true
    both a b ha hb = ground (arith, ha, hb)

held_once-keep :
    (p : ConfigMap → Bool) (l : List ConfigMap)
    → ((name : Text) → count_rows (named name) l ≤ 1)
    → (name : Text) → count_rows (named name) (keep p l) ≤ 1
held_once-keep p l once name = omega (arith, count_rows-keep (named name) p l, once name)

pub kept_IsWellFormed : IsKept IsWellFormed
kept_IsWellFormed = record {
  adds = λ m l w fresh q. record {
    held_once = held_once-add m l fresh q.held_once;
    consistent = consistent_added m l w q.consistent;
  };
  replaces = λ m l w q. record {
    held_once =
        held_once-add m (delete (named m.name) l)
          (any-delete_same (named m.name) (named m.name) l (λ _ e. e))
          (held_once-keep _ l q.held_once);
    consistent =
        consistent_added m (delete (named m.name) l) w
          (all-keep is_consistent (λ x. not (named m.name x)) l q.consistent);
  };
  deletes = λ name l q. record {
    held_once = held_once-keep _ l q.held_once;
    consistent = all-keep is_consistent _ l q.consistent;
  };
}
