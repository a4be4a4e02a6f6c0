-- ===== src/Helm/Proofs/Stored.antt =====
-- A revision that `putRevision` of internal/helmmgr/helmmgr.go writes is stored, and the number of the newest is
-- one that `pruneHistory` keeps.
use workspace_gateway.Base.{
  ℕ, zero, suc, ◌-◌, ◌≤◌, ◌<◌, Bool, true, ◌||◌, not, List, [], ◌∷◌, ◌++◌, ◌≡◌, inl, inr, refl, sym,
  subst, ◌∙◌, arith, any, all, Any, keep, length, ◌==◌, ltb, leb, Result, ok, err, Bool-cases,
}
use workspace_gateway.Base.Exec.{◌>>=◌}
use workspace_gateway.Base.Leaves.{After, Leaves, Leaves-behind}
use workspace_gateway.Base.Sorting.{sort, any-sort, all-sort, length-sort, ordered, ordered-sort}
use workspace_gateway.Base.Table.{delete, count_rows}
use workspace_gateway.Helm.Api.{
  ConfigMap, ApiError, absent, already_exists, named, MapsApi, IsMapsApi, call, outcome, lifted,
}
use workspace_gateway.Helm.Proofs.Keeping.{OnMaps}
use workspace_gateway.Helm.Records.{drop, newest_numbers, upsert, upsert_after}

-- The greatest of some numbers is among the last of them in their order.
drop_greatest :
    (n j : ℕ) (l : List ℕ)
    → ordered (λ (k : ℕ). k) l ≡ true
    → any (◌==◌ n) l ≡ true
    → all (λ k. leb k n) l ≡ true
    → j < length l
    → any (◌==◌ n) (drop j l) ≡ true
drop_greatest n zero l o a b h = a
drop_greatest n (suc j) [] o a b h = ground (arith, h)
drop_greatest n (suc j) (x ∷ []) o a b h = ground (arith, h)
drop_greatest n (suc j) (x ∷ y ∷ l) o a b h =
    drop_greatest n j (y ∷ l) (ground (arith, o)) (ground (arith, o, a, b)) (ground (arith, b))
      (ground (arith, h))

pub newest_kept :
    (most n : ℕ) (nums : List ℕ)
    → 0 < most
    → any (◌==◌ n) nums ≡ true
    → all (λ k. leb k n) nums ≡ true
    → any (◌==◌ n) (newest_numbers most nums) ≡ true
unfolding newest_numbers
newest_kept most n nums pos a b =
    drop_greatest n (length nums - most) (sort ltb nums) (ordered-sort (λ k. k) nums)
      (any-sort ltb (◌==◌ n) nums ∙ a) (all-sort ltb (λ k. leb k n) nums ∙ b)
      (omega (arith, length-sort ltb nums, pos, some_length nums a))
  where
    some_length : (l : List ℕ) → any (◌==◌ n) l ≡ true → 0 < length l
    some_length [] h = cc
    some_length (x ∷ l) h = omega arith

Any-last {ℓ} : {A : Type ℓ} (P : A → Type 0) (l : List A) (a : A) → P a → Any P (l ++ a ∷ [])
Any-last P [] a p = inl p
Any-last P (x ∷ l) a p = inr (Any-last P l a p)

pub Any-front {ℓ} : {A : Type ℓ} (P : A → Type 0) (l r : List A) → Any P l → Any P (l ++ r)
Any-front P [] r m = absurd m
Any-front P (x ∷ l) r (inl p) = inl p
Any-front P (x ∷ l) r (inr m) = inr (Any-front P l r m)

module _ {R : Type 0} (row : R) where
  -- The row stands in the table.
  abbrev pub Stands : List R → Type 0
  Stands = Any (λ r. r ≡ row)

  pub Stands-keep : (p : R → Bool) (l : List R) → p row ≡ true → Stands l → Stands (keep p l)
  Stands-keep p [] h m = absurd m
  Stands-keep p (x ∷ l) h (inl e) = rw (subst (λ r. p r ≡ true) (sym e) h) (inl e)
  Stands-keep p (x ∷ l) h (inr m) = elim (Bool-cases (p x)) [
    | inl e ↦ rw e (inr (Stands-keep p l h m))
    | inr e ↦ rw e (Stands-keep p l h m)
  ]

  Stands-held : (t : R → Bool) (l : List R) → t row ≡ true → Stands l → 1 ≤ count_rows t l
  Stands-held t [] h m = absurd m
  Stands-held t (x ∷ l) h (inl e) = ground (arith, subst (λ r. t r ≡ true) (sym e) h)
  Stands-held t (x ∷ l) h (inr m) = ground (arith, Stands-held t l h m)

  none_passes :
      (t q : R → Bool) (l : List R) → count_rows t l ≤ 0 → all (λ x. not (t x) || q x) l ≡ true
  none_passes t q [] h = refl
  none_passes t q (x ∷ l) h = ground (arith, h, none_passes t q l)

  -- The one row that a test picks passes what the standing row passes.
  pub only_row :
      (t q : R → Bool) (l : List R)
      → t row ≡ true
      → q row ≡ true
      → count_rows t l ≤ 1
      → Stands l
      → all (λ x. not (t x) || q x) l ≡ true
  only_row t q [] ht hq c m = refl
  only_row t q (x ∷ l) ht hq c (inl e) = ground (
    arith,
    c,
    subst (λ r. t r ≡ true) (sym e) ht,
    subst (λ r. q r ≡ true) (sym e) hq,
    none_passes t q l,
  )
  only_row t q (x ∷ l) ht hq c (inr m) =
      ground (arith, c, Stands-held t l ht m, only_row t q l ht hq)

module _ {S : Type 0} (api : MapsApi S) (lawful : IsMapsApi api) (m : ConfigMap) where
  -- The ConfigMap is stored.
  abbrev pub IsStored : S → Type 0
  IsStored s = Stands m (api.maps s)

  update-IsStored : (P : S → Type 0) → Leaves P (λ _. IsStored) (call (api.update_map m))
  unfolding call
  update-IsStored P = record { holds = λ s _. go s (api.update_map m s).0 refl }
    where
      go :
          (s : S) (r : Result ApiError (Unit {0}))
          → (api.update_map m s).0 ≡ r
          → After (λ _. IsStored) (lifted r) (api.update_map m s).1
      go s (ok tt) e =
          subst (Stands m) (sym (lawful.update_succeeds m s e))
            (Any-last (λ x. x ≡ m) (delete (named m.name) (api.maps s)) m refl)
      go s (err e) _ = tt

  pub upsert-IsStored :
      (P : List ConfigMap → Type 0) → Leaves (OnMaps api P) (λ _. IsStored) (upsert api m)
  unfolding upsert outcome ◌>>=◌
  upsert-IsStored P = record { holds = λ s p. go s (api.create_map m s).0 refl }
    where
      go :
          (s : S) (r : Result ApiError (Unit {0}))
          → (api.create_map m s).0 ≡ r
          → After
              (λ _. IsStored)
              (upsert_after api m r (api.create_map m s).1).0
              (upsert_after api m r (api.create_map m s).1).1
      go s (ok tt) e =
          subst (Stands m) (sym (lawful.create_succeeds m s e))
            (Any-last (λ x. x ≡ m) (api.maps s) m refl)
      go s (err already_exists) e =
          (Leaves-behind {P = λ _. Unit} (λ _. IsStored) (call (api.get_map m.name)) _
              (record { at = λ _ u. u }) λ _. update-IsStored (λ _. Unit)).holds
            (api.create_map m s).1 tt
      go s (err absent) e = tt
      go s (err (ApiError.call_failed _)) e = tt
