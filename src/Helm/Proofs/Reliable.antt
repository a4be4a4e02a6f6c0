-- ===== src/Helm/Proofs/Reliable.antt =====
-- On an API none of whose calls fails, `recordRevision` of internal/helmmgr/helmmgr.go returns.
use workspace_gateway.Base.{
  ℕ, Bool, true, false, List, [], ◌∷◌, Option, none, some, ◌≡◌, ◌⊎◌, inl, inr, refl, sym, subst,
  ◌∙◌, ap, if◌then◌else◌, any, Text, Result, ok, err, ◌==◌,
}
use workspace_gateway.Base.Exec.{Exec, ◌>>=◌, pure, resume}
use workspace_gateway.Helm.Api.{
  Revision, Release, ConfigMap, absent, already_exists, HelmError, named, body_of, MapsApi,
  IsMapsApi, call, outcome, lifted,
}
use workspace_gateway.Helm.Records.{
  head_map, body_map, last_of, numbers, newest_numbers, upsert, upsert_after, put_head,
  put_revision, unless_absent, delete_name, prune_one, prune_each, prune_history, put, record_last,
  record_revision_of,
}

-- No call fails but with the error that the API documents for a name that is taken or missing.
pub record IsReliable {S : Type 0} (api : MapsApi S) : Type 0 where
  pub get_finds :
      (name : Text) (s : S)
      → any (named name) (api.maps s) ≡ true
      → (m : ConfigMap) × ((api.get_map name s).0 ≡ ok m)
  pub list_answers :
      (p : ConfigMap → Bool) (s : S) → (l : List ConfigMap) × ((api.list_maps p s).0 ≡ ok l)
  pub create_answers :
      (m : ConfigMap) (s : S)
      → ((api.create_map m s).0 ≡ ok tt)
        ⊎ (((api.create_map m s).0 ≡ err already_exists)
            × (any (named m.name) (api.maps (api.create_map m s).1) ≡ true))
  pub update_finds :
      (m : ConfigMap) (s : S)
      → any (named m.name) (api.maps s) ≡ true
      → (api.update_map m s).0 ≡ ok tt
  pub delete_answers :
      (name : Text) (s : S)
      → ((api.delete_map name s).0 ≡ ok tt) ⊎ ((api.delete_map name s).0 ≡ err absent)

-- The method returns `value` from each state with `P`.
abbrev pub Returns : {S A : Type 0} → (S → Type 0) → A → Exec HelmError S A → Type 0
Returns {S} P value m = (s : S) → P s → (m s).0 ≡ ok value

abbrev Always : {S : Type 0} → S → Type 0
Always s = Unit

module _ {S A B : Type 0} where
  resume_ok :
      (r : Result HelmError A) (k : A → Exec HelmError S B) (s : S) (a : A)
      → r ≡ ok a
      → (resume r k s).0 ≡ (k a s).0
  resume_ok (ok x) k s a e =
      ap (λ (r : Result HelmError A). elim r [ ok y ↦ (k y s).0 | err _ ↦ (k a s).0 ]) e
  resume_ok (err x) k s a e = absurd cc

  -- What returns is followed by what returns.
  Returns-bind :
      (a : A) (b : B) (first : Exec HelmError S A) (rest : A → Exec HelmError S B)
      → Returns Always a first
      → Returns Always b (rest a)
      → Returns Always b (first >>= rest)
  unfolding ◌>>=◌
  Returns-bind a b first rest f g s p =
      resume_ok (first s).0 rest (first s).1 a (f s tt) ∙ g (first s).1 tt

module _ {S : Type 0} (api : MapsApi S) (lawful : IsMapsApi api) (reliable : IsReliable api) where
  update_returns :
      (m : ConfigMap) (s : S)
      → any (named m.name) (api.maps s) ≡ true
      → (call (api.update_map m) s).0 ≡ ok tt
  unfolding call
  update_returns m s h = ap lifted (reliable.update_finds m s h)

  taken_returns :
      (m : ConfigMap) (s : S)
      → any (named m.name) (api.maps s) ≡ true
      → (upsert_after api m (err already_exists) s).0 ≡ ok tt
  unfolding ◌>>=◌ call
  taken_returns m s h =
      let (found, e) = reliable.get_finds m.name s h in
      resume_ok (lifted (api.get_map m.name s).0) (λ _. call (api.update_map m))
        (api.get_map m.name s).1 found (ap lifted e)
      ∙ update_returns m (api.get_map m.name s).1
          (subst (λ l. any (named m.name) l ≡ true) (sym (lawful.get_keeps m.name s)) h)

  upsert-Returns : (m : ConfigMap) → Returns Always tt (upsert api m)
  unfolding upsert outcome ◌>>=◌
  upsert-Returns m s _ = elim (reliable.create_answers m s) [
    | inl e ↦ subst (λ r. (upsert_after api m r (api.create_map m s).1).0 ≡ ok tt) (sym e) refl
    | inr (e, h) ↦
        subst (λ r. (upsert_after api m r (api.create_map m s).1).0 ≡ ok tt) (sym e)
          (taken_returns m (api.create_map m s).1 h)
  ]

  delete_name-Returns : (name : Text) → Returns Always tt (delete_name api name)
  unfolding delete_name outcome ◌>>=◌
  delete_name-Returns name s _ = elim (reliable.delete_answers name s) [
    | inl e ↦ subst (λ r. (unless_absent api r (api.delete_map name s).1).0 ≡ ok tt) (sym e) refl
    | inr e ↦ subst (λ r. (unless_absent api r (api.delete_map name s).1).0 ≡ ok tt) (sym e) refl
  ]

  prune_one-Returns :
      (kept : List ℕ) (name : Text) (n : Option ℕ) → Returns Always tt (prune_one api kept name n)
  prune_one-Returns kept name none = λ _ _. refl
  prune_one-Returns kept name (some n) = go (any (◌==◌ n) kept)
    where
      go : (b : Bool) → Returns Always tt (if b then pure tt else delete_name api name)
      go true s _ = refl
      go false s _ = delete_name-Returns name s tt

  prune_each-Returns :
      (kept : List ℕ) (ms : List ConfigMap) → Returns Always tt (prune_each api kept ms)
  unfolding prune_each
  prune_each-Returns kept [] = λ _ _. refl
  prune_each-Returns kept (m ∷ ms) =
      Returns-bind tt tt (prune_one api kept m.name m.number) _
        (prune_one-Returns kept m.name m.number) (prune_each-Returns kept ms)

  prune_history-Returns :
      (history_max : ℕ) (r : Release) → Returns Always tt (prune_history api history_max r)
  unfolding prune_history call ◌>>=◌
  prune_history-Returns history_max r = go (history_max == 0)
    where
      go :
          (b : Bool)
          → Returns Always tt (
              if b
              then pure tt
              else call (api.list_maps (body_of r.name))
                >>= prune_each api (newest_numbers history_max (numbers r.history)))
      go true s _ = refl
      go false s _ =
          let (l, e) = reliable.list_answers (body_of r.name) s in
          resume_ok (lifted (api.list_maps (body_of r.name) s).0)
            (prune_each api (newest_numbers history_max (numbers r.history)))
            (api.list_maps (body_of r.name) s).1 l (ap lifted e)
          ∙ prune_each-Returns _ l (api.list_maps (body_of r.name) s).1 tt

  -- On an API that answers each call as documented, whatever the cluster holds: `recordRevision` of
  -- a release with a last revision returns the release, also where a name it writes is taken and
  -- where what it deletes is gone.
  pub record_revision_of_returns :
      (history_max : ℕ) (r : Release) (rv : Revision) (s : S)
      → last_of r.history ≡ some rv
      → (record_revision_of api history_max r s).0 ≡ ok r
  unfolding record_revision_of put put_head put_revision
  record_revision_of_returns history_max r rv s e =
      subst (λ o. (record_last api history_max r o s).0 ≡ ok r) (sym e)
        (Returns-bind tt r (put_revision api r.name rv) _ (upsert-Returns (body_map r.name rv))
          (Returns-bind tt r (put api history_max r) _
            (Returns-bind tt tt (put_head api r) _ (upsert-Returns (head_map r))
              (prune_history-Returns history_max r))
            (λ _ _. refl))
          s tt)
