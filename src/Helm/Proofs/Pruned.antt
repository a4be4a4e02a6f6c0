-- ===== src/Helm/Proofs/Pruned.antt =====
-- How many revisions of a release internal/helmmgr/helmmgr.go stores: `pruneHistory`, and `Apply` and
-- `Rollback`, which end with it.
use workspace_gateway.Base.{
  ℕ, ◌+◌, ◌≤◌, Bool, true, false, ◌&&◌, ◌||◌, not, List, [], ◌∷◌, Option, none, some, ◌≡◌, refl,
  sym, subst, arith, if◌then◌else◌, any, all, keep, length, Text, text_eq, text_eq_iff,
  text_eq_refl, Result, ok, err, all_weaken, ==_iff, &&_true,
}
use workspace_gateway.Base.Leaves.{After, Leaves}
use workspace_gateway.Base.Table.{count_rows}
use workspace_gateway.Helm.Api.{
  ConfigMap, named, body_of, MapsApi, IsMapsApi, ApiError, call, lifted,
}
use workspace_gateway.Helm.Proofs.Bounds.{
  number_eq, number_eq_refl, has_number, is_kept, same_key, is_pending,
}
use workspace_gateway.Helm.Proofs.Keeping.{OnMaps}
use workspace_gateway.Helm.Proofs.Names.{
  IsWellFormed, is_consistent, named_by_number, count_rows_none,
}
use workspace_gateway.Helm.Records.{rev_cm_name}

module _ {S : Type 0} (api : MapsApi S) (lawful : IsMapsApi api) (Q : List ConfigMap → Type 0) where
  -- What a list call returns is what the selector picks of the ConfigMaps.
  pub list_maps-Leaves :
      (p : ConfigMap → Bool)
      → Leaves
          (OnMaps api Q)
          (λ ms s. OnMaps api Q s × (ms ≡ keep p (api.maps s)))
          (call (api.list_maps p))
  unfolding call
  list_maps-Leaves p = record { holds = λ s q. go s q (api.list_maps p s).0 refl }
    where
      go :
          (s : S)
          → Q (api.maps s)
          → (r : Result ApiError (List ConfigMap)) → (api.list_maps p s).0 ≡ r
          → After
              (λ ms s. OnMaps api Q s × (ms ≡ keep p (api.maps s)))
              (lifted r)
              (api.list_maps p s).1
      go s q (ok ms) e = (
        subst Q (sym (lawful.list_keeps p s)) q,
        subst (λ l. ms ≡ keep p l) (sym (lawful.list_keeps p s)) (lawful.list_selects p s ms e),
      )
      go s q (err e) _ = tt

module _ {R : Type 0} where
  -- Each element that `p` picks is found among what it picks.
  pub found_among :
      (p c : R → Bool) (same : R → R → Bool) (l : List R)
      → ((a : R) → c a ≡ true → p a ≡ true → same a a ≡ true)
      → all c l ≡ true
      → all (λ m. not (p m) || any (same m) (keep p l)) l ≡ true
  found_among p c same [] h t = refl
  found_among p c same (x ∷ l) h t =
      step (p x) refl (found_among p c same l h (&&_true (c x) (all c l) t).1)
    where
      both : (a b : Bool) → a ≡ true → b ≡ true → (a && b) ≡ true
      both a b ha hb = ground (arith, ha, hb)

      step :
          (b : Bool)
          → p x ≡ b
          → all (λ m. not (p m) || any (same m) (keep p l)) l ≡ true
          → all (λ m. not (p m) || any (same m) (if b then x ∷ keep p l else keep p l)) (x ∷ l)
            ≡ true
      step true e rest = both _ _ (ground (arith, h x, e, t)) (
          all_weaken (λ m. not (p m) || any (same m) (keep p l))
            (λ m. not (p m) || (same m x || any (same m) (keep p l))) l (λ m k. ground (arith, k))
            rest)
      step false e rest = both _ _ (ground (arith, e)) rest

  count_rows-weaken :
      (c p q : R → Bool) (l : List R)
      → all c l ≡ true
      → ((a : R) → c a ≡ true → p a ≡ true → q a ≡ true)
      → count_rows p l ≤ count_rows q l
  count_rows-weaken c p q [] t h = omega arith
  count_rows-weaken c p q (x ∷ l) t h = ground (arith, h x, count_rows-weaken c p q l)

  count_rows-split :
      (p q r : R → Bool) (l : List R)
      → ((a : R) → p a ≡ true → (q a || r a) ≡ true)
      → count_rows p l ≤ count_rows q l + count_rows r l
  count_rows-split p q r [] h = omega arith
  count_rows-split p q r (x ∷ l) h = ground (arith, h x, count_rows-split p q r l)

is_kept-behind :
    (k : ℕ) (ks : List ℕ) (o : Option ℕ)
    → is_kept (k ∷ ks) o ≡ true
    → (number_eq o (some k) || is_kept ks o) ≡ true
is_kept-behind k ks none h = cc
is_kept-behind k ks (some n) h = ground (arith, h)

is_kept_none : (o : Option ℕ) → is_kept [] o ≡ false
is_kept_none none = refl
is_kept_none (some n) = refl

named_number :
    (name release : Text) (o : Option ℕ) (k : ℕ)
    → number_eq o (some k) ≡ true
    → named_by_number name release o ≡ true
    → text_eq name (rev_cm_name release k) ≡ true
named_number name release none k e h = cc
named_number name release (some n) k e h =
    subst (λ i. text_eq name (rev_cm_name release i) ≡ true) ((==_iff n k).0 e) h

named_has_number :
    (name release : Text) (o : Option ℕ)
    → named_by_number name release o ≡ true
    → has_number o ≡ true
named_has_number name release none h = h
named_has_number name release (some n) h = refl

module _ (release : Text) where
  numbered_body :
      (m : ConfigMap)
      → is_consistent m ≡ true
      → body_of release m ≡ true
      → (text_eq m.release release ≡ true) × (named_by_number m.name m.release m.number ≡ true)
  numbered_body m c b = ground (arith, c, b)

  body_same :
      (m : ConfigMap) → is_consistent m ≡ true → body_of release m ≡ true → same_key m m ≡ true
  body_same m c b =
      both _ _ (text_eq_refl m.name) (
        number_eq_refl m.number
          (named_has_number m.name m.release m.number (numbered_body m c b).1))
    where
      both : (x y : Bool) → x ≡ true → y ≡ true → (x && y) ≡ true
      both x y hx hy = ground (arith, hx, hy)

  body_numbered :
      (k : ℕ) (m : ConfigMap)
      → is_consistent m ≡ true
      → (body_of release m && number_eq m.number (some k)) ≡ true
      → named (rev_cm_name release k) m ≡ true
  body_numbered k m c b =
      let (of_it, n) = numbered_body m c (&&_true _ _ b).0 in
      named_number m.name release m.number k (&&_true _ _ b).1 (
        subst (λ r. named_by_number m.name r m.number ≡ true)
          ((text_eq_iff m.release release).0 of_it) n)

  -- A release has no more bodies with a number that is kept than numbers are kept.
  count_kept :
      (kept : List ℕ) (l : List ConfigMap)
      → IsWellFormed l
      → count_rows (λ m. body_of release m && is_kept kept m.number) l ≤ length kept
  count_kept [] l w = subst (λ n. n ≤ 0) (sym (count_rows_none _ l (none_kept l))) (omega arith)
    where
      none_kept :
          (l : List ConfigMap) → any (λ m. body_of release m && is_kept [] m.number) l ≡ false
      none_kept [] = refl
      none_kept (m ∷ l) = ground (arith, is_kept_none m.number, none_kept l)
  count_kept (k ∷ ks) l w = omega (
    arith,
    count_rows-split (λ m. body_of release m && is_kept (k ∷ ks) m.number)
        (λ m. body_of release m && number_eq m.number (some k))
        (λ m. body_of release m && is_kept ks m.number) l
        (λ m h. split_kept (body_of release m) _ _ _ (is_kept-behind k ks m.number) h),
    count_rows-weaken is_consistent (λ m. body_of release m && number_eq m.number (some k))
        (named (rev_cm_name release k)) l w.consistent (body_numbered k),
    w.held_once (rev_cm_name release k),
    count_kept ks l w,
  )
    where
      split_kept :
          (b x y z : Bool)
          → (x ≡ true → (y || z) ≡ true)
          → (b && x) ≡ true
          → ((b && y) || (b && z)) ≡ true
      split_kept b x y z f h = ground (arith, f, h)

  pub count_bodies :
      (kept : List ℕ) (l : List ConfigMap)
      → IsWellFormed l
      → all (is_pending release kept []) l ≡ true
      → count_rows (body_of release) l ≤ length kept
  count_bodies kept l w t = omega (
    arith,
    count_kept kept l w,
    count_rows-weaken (is_pending release kept []) (body_of release)
        (λ m. body_of release m && is_kept kept m.number) l t
        (λ m p b. settled (body_of release m) _ p b),
  )
    where
      settled : (b x : Bool) → (not b || (x || false)) ≡ true → b ≡ true → (b && x) ≡ true
      settled b x p h = ground (arith, p, h)

  pub all_found :
      (kept : List ℕ) (l : List ConfigMap)
      → IsWellFormed l
      → all (is_pending release kept (keep (body_of release) l)) l ≡ true
  all_found kept l w =
      all_weaken (λ m. not (body_of release m) || any (same_key m) (keep (body_of release) l))
        (is_pending release kept (keep (body_of release) l)) l
        (λ m h. or_kept (body_of release m) _ _ h)
        (found_among (body_of release) is_consistent same_key l body_same w.consistent)
    where
      or_kept : (b x y : Bool) → (not b || y) ≡ true → (not b || (x || y)) ≡ true
      or_kept b x y h = ground (arith, h)
