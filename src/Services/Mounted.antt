-- ===== src/Services/Mounted.antt =====
-- `DeletePVC` of internal/servicesmgr/services.go refuses a mounted claim.
use workspace_gateway.Base.{
  Bool, true, false, List, [], ◌∷◌, ◌++◌, ◌≡◌, ◌⊎◌, inl, inr, refl, sym, subst, if◌then◌else◌, Any,
  All, All-of_Any, null, Text, text_eq, text_eq_iff, ok, err,
}
use workspace_gateway.Base.Exec.{Exec, ◌>>=◌, ◌>>◌, attempt, require}
use workspace_gateway.Services.Api.{Deployment, ServiceError, is_mounted, Cluster}
use workspace_gateway.Services.Volumes.{
  mounts_in, mounts_of, mounted_by, listed_mounts, deleted_or, delete_claim,
}

module _ {A : Type 0} (P : A → Type 0) where
  in_first : (xs ys : List A) → Any P xs → Any P (xs ++ ys)
  in_first [] ys h = absurd h
  in_first (x ∷ xs) ys (inl h) = inl h
  in_first (x ∷ xs) ys (inr h) = inr (in_first xs ys h)

  in_second : (xs ys : List A) → Any P ys → Any P (xs ++ ys)
  in_second [] ys h = h
  in_second (x ∷ xs) ys h = inr (in_second xs ys h)

  in_either : (xs ys : List A) → Any P (xs ++ ys) → Any P xs ⊎ Any P ys
  in_either [] ys h = inr h
  in_either (x ∷ xs) ys (inl h) = inl (inl h)
  in_either (x ∷ xs) ys (inr h) = elim (in_either xs ys h) [ inl f ↦ inl (inr f) | inr g ↦ inr g ]

-- One of the volumes of the Deployment is the claim.
abbrev pub Mounts : Text → Deployment → Type 0
Mounts claim d = Any (λ c. c ≡ claim) d.claims

module _ (claim : Text) where
  mounts_in-Any :
      (name : Text) (claims : List Text)
      → Any (λ c. c ≡ claim) claims
      → Any (λ n. n ≡ name) (mounts_in claim name claims)
  mounts_in-Any name [] h = absurd h
  mounts_in-Any name (c ∷ claims) h = found (mounts_in-Any name claims) (text_eq c claim) refl h
    where
      found :
          (Any (λ c. c ≡ claim) claims → Any (λ n. n ≡ name) (mounts_in claim name claims))
          → (b : Bool) → text_eq c claim ≡ b
          → Any (λ c. c ≡ claim) (c ∷ claims)
          → Any
              (λ n. n ≡ name)
              (if b then name ∷ mounts_in claim name claims else mounts_in claim name claims)
      found rest true e m = inl refl
      found rest false e (inl m) = absurd (cc ((text_eq_iff c claim).1 m, e))
      found rest false e (inr m) = rest m

  mounts_in_sound :
      (name n : Text) (claims : List Text)
      → Any (λ x. x ≡ n) (mounts_in claim name claims)
      → (name ≡ n) × Any (λ c. c ≡ claim) claims
  mounts_in_sound name n [] h = absurd h
  mounts_in_sound name n (c ∷ claims) h =
      read (mounts_in_sound name n claims) (text_eq c claim) refl h
    where
      read :
          (Any (λ x. x ≡ n) (mounts_in claim name claims)
            → (name ≡ n) × Any (λ c. c ≡ claim) claims)
          → (b : Bool) → text_eq c claim ≡ b
          → Any
              (λ x. x ≡ n)
              (if b then name ∷ mounts_in claim name claims else mounts_in claim name claims)
          → (name ≡ n) × Any (λ c. c ≡ claim) (c ∷ claims)
      read rest true e (inl m) = (m, inl ((text_eq_iff c claim).0 e))
      read rest true e (inr m) = let (x, y) = rest m in (x, inr y)
      read rest false e m = let (x, y) = rest m in (x, inr y)

  mounts_of-Any :
      (d : Deployment) (deps : List Deployment)
      → Any (λ x. x ≡ d) deps
      → Mounts claim d
      → Any (λ n. n ≡ d.name) (mounts_of claim deps)
  mounts_of-Any d [] i m = absurd i
  mounts_of-Any d (x ∷ deps) (inl e) m =
      in_first _ (mounts_in claim x.name x.claims) (mounts_of claim deps) (
        subst (λ (y : Deployment). Any (λ n. n ≡ d.name) (mounts_in claim y.name y.claims)) (sym e)
          (mounts_in-Any d.name d.claims m))
  mounts_of-Any d (x ∷ deps) (inr e) m =
      in_second _ (mounts_in claim x.name x.claims) (mounts_of claim deps)
        (mounts_of-Any d deps e m)

  mounts_of_sound :
      (deps : List Deployment) (n : Text)
      → Any (λ x. x ≡ n) (mounts_of claim deps)
      → Any (λ (x : Deployment). (x.name ≡ n) × Mounts claim x) deps
  mounts_of_sound [] n h = absurd h
  mounts_of_sound (x ∷ deps) n h =
      elim (in_either _ (mounts_in claim x.name x.claims) (mounts_of claim deps) h) [
        | inl f ↦ inl (mounts_in_sound x.name n x.claims f)
        | inr g ↦ inr (mounts_of_sound deps n g)
      ]

not_null : {A : Type 0} (P : A → Type 0) (l : List A) → Any P l → null l ≡ false
not_null P [] h = absurd h
not_null P (x ∷ l) h = refl

stops :
    {S A : Type 0} (b : Bool) (e : ServiceError) (rest : Exec ServiceError S A) (s : S)
    → b ≡ false
    → (require b e >> rest) s ≡ (err e, s)
unfolding ◌>>=◌
stops true e rest s h = absurd cc
stops false e rest s h = refl

refuses :
    {S : Type 0} (cluster : Cluster S) (claim : Text) (s : S) (deps : List Deployment)
    → (cluster.list_deployments s).0 ≡ ok deps
    → null (mounts_of claim deps) ≡ false
    → delete_claim cluster claim s
      ≡ (err (is_mounted (mounts_of claim deps)), (cluster.list_deployments s).1)
unfolding delete_claim mounted_by ◌>>=◌
refuses {S} cluster claim s deps e m =
    subst
      (λ r.
        (require (null (listed_mounts cluster claim r)) (is_mounted (listed_mounts cluster claim r))
            >> (attempt (cluster.delete_claim claim) >>= deleted_or cluster))
          (cluster.list_deployments s).1
        ≡ (err (is_mounted (mounts_of claim deps)), (cluster.list_deployments s).1))
      (sym e) (stops (null (mounts_of claim deps)) (is_mounted (mounts_of claim deps)) _ _ m)

-- Where the managed Deployments are listed and one of them, `d`, has the claim among its volumes,
-- `DeletePVC` fails and calls nothing behind the list. The names that its error gives include the name of
-- `d`, and each is the name of a listed Deployment with the claim among its volumes.
pub delete_claim_refuses :
    {S : Type 0} (cluster : Cluster S) (claim : Text) (s : S) (deps : List Deployment)
    (d : Deployment)
    → (cluster.list_deployments s).0 ≡ ok deps
    → Any (λ x. x ≡ d) deps
    → Mounts claim d
    → (names : List Text) × (delete_claim cluster claim s
        ≡ (err (is_mounted names), (cluster.list_deployments s).1))
      × Any (λ n. n ≡ d.name) names
      × All (λ n. Any (λ (x : Deployment). (x.name ≡ n) × Mounts claim x) deps) names
delete_claim_refuses cluster claim s deps d e i m =
    let found = mounts_of-Any claim d deps i m in
    (
      mounts_of claim deps,
      refuses cluster claim s deps e (not_null _ (mounts_of claim deps) found),
      found,
      All-of_Any (mounts_of claim deps) (mounts_of_sound claim deps),
    )
