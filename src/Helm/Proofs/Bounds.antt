-- ===== src/Helm/Proofs/Bounds.antt =====
-- `pruneHistory` of internal/helmmgr/helmmgr.go bounds the stored revisions of a release.
use workspace_gateway.Base.{
  ℕ, zero, suc, ◌-◌, ◌≤◌, Bool, true, false, ◌&&◌, ◌||◌, not, List, [], ◌∷◌, Option, none, some,
  ◌≡◌, refl, sym, subst, arith, any, all, length, Text, text_eq, ◌==◌, ltb, Result, ok, err,
  all_weaken, all-keep_weaken, all_weaken_none, ==_iff, ap, &&_true, not-true,
}
use workspace_gateway.Base.Exec.{◌>>=◌}
use workspace_gateway.Base.Leaves.{After, Leaves, Leaves-pure, Leaves-if, Leaves-bind}
use workspace_gateway.Base.Sorting.{sort, length-sort}
use workspace_gateway.Helm.Api.{
  ConfigMap, named, body_of, MapsApi, IsMapsApi, ApiError, absent, already_exists, outcome,
}
use workspace_gateway.Helm.Records.{
  drop, newest_numbers, unless_absent, delete_name, prune_one, prune_each,
}

abbrev pub number_eq : Option ℕ → Option ℕ → Bool
number_eq (some a) (some b) = a == b
number_eq _ _ = false

abbrev pub is_kept : List ℕ → Option ℕ → Bool
is_kept kept none = false
is_kept kept (some n) = any (◌==◌ n) kept

abbrev pub has_number : Option ℕ → Bool
has_number none = false
has_number (some n) = true

number_eq-none : (a : Option ℕ) → number_eq a none ≡ false
number_eq-none none = refl
number_eq-none (some a) = refl

number_eq_same : (a b : Option ℕ) → number_eq a b ≡ true → a ≡ b
number_eq_same none none h = refl
number_eq_same none (some b) h = cc
number_eq_same (some a) none h = cc
number_eq_same (some a) (some b) h = ap some ((==_iff a b).0 h)

number_eq_not_none : (a b : Option ℕ) → b ≡ none → number_eq a b ≡ true → ⊥
number_eq_not_none none none e h = cc
number_eq_not_none (some a) none e h = cc
number_eq_not_none a (some b) e h = cc

pub number_eq_refl : (a : Option ℕ) → has_number a ≡ true → number_eq a a ≡ true
number_eq_refl none h = h
number_eq_refl (some a) h = (==_iff a a).1 refl

-- The same name and number.
abbrev pub same_key : ConfigMap → ConfigMap → Bool
same_key m x = text_eq m.name x.name && number_eq m.number x.number

-- Where a delete returns, nothing has the name: what is true of the other ConfigMaps is true of all.
module _ {S : Type 0} (api : MapsApi S) (lawful : IsMapsApi api) (name : Text)
    (p q : ConfigMap → Bool)
    (behind : (m : ConfigMap) → named name m ≡ false → p m ≡ true → q m ≡ true) where
  pub delete_name-Leaves :
      Leaves
        (λ s. all p (api.maps s) ≡ true)
        (λ _ s. all q (api.maps s) ≡ true)
        (delete_name api name)
  unfolding delete_name outcome ◌>>=◌
  delete_name-Leaves = record { holds = λ s t. go s t (api.delete_map name s).0 refl }
    where
      go :
          (s : S)
          → all p (api.maps s) ≡ true
          → (r : Result ApiError (Unit {0})) → (api.delete_map name s).0 ≡ r
          → After
              (λ _ s. all q (api.maps s) ≡ true)
              (unless_absent api r (api.delete_map name s).1).0
              (unless_absent api r (api.delete_map name s).1).1
      go s t (ok tt) e =
          subst (λ l. all q l ≡ true) (sym (lawful.delete_succeeds name s e))
            (all-keep_weaken p q (λ m. not (named name m)) (api.maps s)
              (λ m n. behind m (not-true _ n)) t)
      go s t (err absent) e =
          let (n, same) = lawful.delete_absent name s e in
          subst (λ l. all q l ≡ true) (sym same)
            (all_weaken_none p q (named name) (api.maps s) behind n t)
      go s t (err already_exists) e = tt
      go s t (err (ApiError.call_failed _)) e = tt

module _ (release : Text) (kept : List ℕ) where
  -- A body of the release has a number that is kept, or is still to be looked at.
  abbrev pub is_pending : List ConfigMap → ConfigMap → Bool
  is_pending ms m = not (body_of release m) || (is_kept kept m.number || any (same_key m) ms)

  pending_behind :
      (x : ConfigMap) (ms : List ConfigMap) (m : ConfigMap)
      → (same_key m x ≡ true → is_kept kept m.number ≡ true)
      → is_pending (x ∷ ms) m ≡ true
      → is_pending ms m ≡ true
  pending_behind x ms m f h =
      go (body_of release m) (is_kept kept m.number) (same_key m x) (any (same_key m) ms) f h
    where
      go :
          (a b c d : Bool)
          → (c ≡ true → b ≡ true)
          → (not a || (b || (c || d))) ≡ true
          → (not a || (b || d)) ≡ true
      go a b c d f h = ground (arith, f, h)

  passed_none :
      (x : ConfigMap) (ms : List ConfigMap) (m : ConfigMap)
      → x.number ≡ none
      → is_pending (x ∷ ms) m ≡ true
      → is_pending ms m ≡ true
  passed_none x ms m e =
      pending_behind x ms m
        λ same. absurd (number_eq_not_none m.number x.number e (&&_true _ _ same).1)

  passed_kept :
      (x : ConfigMap) (ms : List ConfigMap) (m : ConfigMap)
      → is_kept kept x.number ≡ true
      → is_pending (x ∷ ms) m ≡ true
      → is_pending ms m ≡ true
  passed_kept x ms m k = pending_behind x ms m λ same.
      subst (λ n. is_kept kept n ≡ true)
        (sym (number_eq_same m.number x.number (&&_true _ _ same).1)) k

  passed_other :
      (x : ConfigMap) (ms : List ConfigMap) (m : ConfigMap)
      → named x.name m ≡ false
      → is_pending (x ∷ ms) m ≡ true
      → is_pending ms m ≡ true
  passed_other x ms m e = pending_behind x ms m λ same. absurd (not_both _ e (&&_true _ _ same).0)
    where
      not_both : (b : Bool) → b ≡ false → b ≡ true → ⊥
      not_both b f t = cc

  module _ {S : Type 0} (api : MapsApi S) (lawful : IsMapsApi api) where
    abbrev AllPending : List ConfigMap → S → Type 0
    AllPending ms s = all (is_pending ms) (api.maps s) ≡ true

    unless_absent-Leaves :
        (x : ConfigMap) (ms : List ConfigMap)
        → Leaves (AllPending (x ∷ ms)) (λ _. AllPending ms) (delete_name api x.name)
    unless_absent-Leaves x ms =
        delete_name-Leaves api lawful x.name (is_pending (x ∷ ms)) (is_pending ms)
          (passed_other x ms)

    prune_one-Leaves :
        (x : ConfigMap) (ms : List ConfigMap) (n : Option ℕ)
        → x.number ≡ n
        → Leaves (AllPending (x ∷ ms)) (λ _. AllPending ms) (prune_one api kept x.name n)
    prune_one-Leaves x ms none e =
        Leaves-pure tt λ s. all_weaken _ _ (api.maps s) (λ m. passed_none x ms m e)
    prune_one-Leaves x ms (some n) e =
        Leaves-if (any (◌==◌ n) kept) _ _
          (λ k. Leaves-pure tt λ s.
            all_weaken _ _ (api.maps s)
              (λ m. passed_kept x ms m (subst (λ o. is_kept kept o ≡ true) (sym e) k)))
          λ _. unless_absent-Leaves x ms

    pub prune_each-Leaves :
        (ms : List ConfigMap) → Leaves (AllPending ms) (λ _. AllPending []) (prune_each api kept ms)
    unfolding prune_each
    prune_each-Leaves [] = Leaves-pure tt λ s p. p
    prune_each-Leaves (x ∷ ms) =
        Leaves-bind (λ _. AllPending ms) (λ _. AllPending []) _ _
          (prune_one-Leaves x ms x.number refl) λ _. prune_each-Leaves ms

length-drop {ℓ} : {A : Type ℓ} (n : ℕ) (l : List A) → length (drop n l) ≡ length l - n
length-drop zero l = omega arith
length-drop (suc n) [] = omega arith
length-drop (suc n) (x ∷ l) = omega (arith, length-drop n l)

pub length-newest_numbers : (most : ℕ) (nums : List ℕ) → length (newest_numbers most nums) ≤ most
unfolding newest_numbers
length-newest_numbers most nums =
    omega (arith, length-drop (length nums - most) (sort ltb nums), length-sort ltb nums)
