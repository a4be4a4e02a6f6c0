-- ===== src/Helm/Proofs/Keeping.antt =====
-- What the operations on releases keep: a property of the ConfigMaps that the writes of
-- internal/helmmgr/helmmgr.go keep is kept by each operation.
use workspace_gateway.Base.{
  Bool, false, List, [], ◌∷◌, ◌++◌, ◌≡◌, inl, inr, sym, subst, any, Text, Result, ok, err,
}
use workspace_gateway.Base.Exec.{Exec, Keeps, Keeps-raise, Keeps-pure, Keeps-bind}
use workspace_gateway.Base.Table.{delete}
use workspace_gateway.Helm.Api.{
  Revision, Release, ConfigMap, ApiError, absent, already_exists, named, MapsApi, IsMapsApi, call,
  outcome,
}
use workspace_gateway.Helm.Records.{
  head_map, body_map, upsert_after, upsert, put_head, put_revision, unless_absent, delete_name,
}

module _ {S A : Type 0} {P : S → Type 0} where
  pub Keeps-call : (m : Exec ApiError S A) → Keeps P m → Keeps P (call m)
  unfolding call
  Keeps-call m k = record { at = k.at }

  pub Keeps-outcome : (m : Exec ApiError S A) → Keeps P m → Keeps P (outcome m)
  unfolding outcome
  Keeps-outcome m k = record { at = k.at }

-- The ConfigMaps that are written.
pub data IsWritten : ConfigMap → Type 0 where
  written_head : (r : Release) → IsWritten (head_map r)
  written_body : (release : Text) (rv : Revision) → IsWritten (body_map release rv)

-- A property that adding, replacing and deleting a ConfigMap keep.
pub record IsKept (Q : List ConfigMap → Type 0) : Type 0 where
  pub adds :
      (m : ConfigMap) (l : List ConfigMap)
      → IsWritten m
      → any (named m.name) l ≡ false
      → Q l
      → Q (l ++ m ∷ [])
  pub replaces :
      (m : ConfigMap) (l : List ConfigMap)
      → IsWritten m
      → Q l
      → Q (delete (named m.name) l ++ m ∷ [])
  pub deletes : (name : Text) (l : List ConfigMap) → Q l → Q (delete (named name) l)

-- `Q` of the ConfigMaps in a state.
abbrev pub OnMaps : {S : Type 0} → MapsApi S → (List ConfigMap → Type 0) → S → Type 0
OnMaps api Q s = Q (api.maps s)

module _ {S : Type 0} (api : MapsApi S) (lawful : IsMapsApi api) (Q : List ConfigMap → Type 0) where
  pub get_map-Keeps : (name : Text) → Keeps (OnMaps api Q) (api.get_map name)
  get_map-Keeps name = record { at = λ s q. subst Q (sym (lawful.get_keeps name s)) q }

  pub list_maps-Keeps : (p : ConfigMap → Bool) → Keeps (OnMaps api Q) (api.list_maps p)
  list_maps-Keeps p = record { at = λ s q. subst Q (sym (lawful.list_keeps p s)) q }

-- A property of the states that the calls on ConfigMaps keep, as far as the code makes them.
pub record IsSteady {S : Type 0} (api : MapsApi S) (P : S → Type 0) : Type 0 where
  pub getting : (name : Text) → Keeps P (api.get_map name)
  pub listing : (p : ConfigMap → Bool) → Keeps P (api.list_maps p)
  pub creating : (m : ConfigMap) → IsWritten m → Keeps P (api.create_map m)
  pub updating : (m : ConfigMap) → IsWritten m → Keeps P (api.update_map m)
  pub deleting : (name : Text) → Keeps P (api.delete_map name)

module _ {S : Type 0} (api : MapsApi S) (P : S → Type 0) where
  upsert_calls :
      (m : ConfigMap)
      → Keeps P (api.get_map m.name)
      → Keeps P (api.create_map m)
      → Keeps P (api.update_map m)
      → Keeps P (upsert api m)
  unfolding upsert
  upsert_calls m getting creating updating = Keeps-bind _ _ (Keeps-outcome _ creating) after
    where
      after : (r : Result ApiError (Unit {0})) → Keeps P (upsert_after api m r)
      after (ok _) = Keeps-pure tt
      after (err already_exists) = Keeps-bind _ _ (Keeps-call _ getting) λ _. Keeps-call _ updating
      after (err absent) = Keeps-raise _
      after (err (ApiError.call_failed _)) = Keeps-raise _

  delete_calls : (name : Text) → Keeps P (api.delete_map name) → Keeps P (delete_name api name)
  unfolding delete_name
  delete_calls name deleting = Keeps-bind _ _ (Keeps-outcome _ deleting) after
    where
      after : (r : Result ApiError (Unit {0})) → Keeps P (unless_absent api r)
      after (ok _) = Keeps-pure tt
      after (err absent) = Keeps-pure tt
      after (err already_exists) = Keeps-raise _
      after (err (ApiError.call_failed _)) = Keeps-raise _

-- Calls keep a property of the ConfigMaps that their documented effects keep.
module _ {S : Type 0} (api : MapsApi S) (lawful : IsMapsApi api) (Q : List ConfigMap → Type 0) where
  create_map-Keeps :
      (m : ConfigMap)
      → ((l : List ConfigMap) → any (named m.name) l ≡ false → Q l → Q (l ++ m ∷ []))
      → Keeps (OnMaps api Q) (api.create_map m)
  create_map-Keeps m adds = record {
    at = λ s q. elim (lawful.create_adds m s) [
      | inl e ↦ subst Q (sym e) q
      | inr (fresh, e) ↦ subst Q (sym e) (adds (api.maps s) fresh q)
    ];
  }

  update_map-Keeps :
      (m : ConfigMap)
      → ((l : List ConfigMap) → Q l → Q (delete (named m.name) l ++ m ∷ []))
      → Keeps (OnMaps api Q) (api.update_map m)
  update_map-Keeps m replaces = record {
    at = λ s q. elim (lawful.update_replaces m s) [
      | inl e ↦ subst Q (sym e) q
      | inr e ↦ subst Q (sym e) (replaces (api.maps s) q)
    ];
  }

  delete_map-Keeps :
      (name : Text)
      → ((l : List ConfigMap) → Q l → Q (delete (named name) l))
      → Keeps (OnMaps api Q) (api.delete_map name)
  delete_map-Keeps name deletes = record {
    at = λ s q. elim (lawful.delete_removes name s) [
      | inl e ↦ subst Q (sym e) q
      | inr e ↦ subst Q (sym e) (deletes (api.maps s) q)
    ];
  }

  pub upsert-Keeps :
      (m : ConfigMap)
      → ((l : List ConfigMap) → any (named m.name) l ≡ false → Q l → Q (l ++ m ∷ []))
      → ((l : List ConfigMap) → Q l → Q (delete (named m.name) l ++ m ∷ []))
      → Keeps (OnMaps api Q) (upsert api m)
  upsert-Keeps m adds replaces =
      upsert_calls api (OnMaps api Q) m (get_map-Keeps api lawful Q m.name)
        (create_map-Keeps m adds) (update_map-Keeps m replaces)

  pub delete_one-Keeps :
      (name : Text)
      → ((l : List ConfigMap) → Q l → Q (delete (named name) l))
      → Keeps (OnMaps api Q) (delete_name api name)
  delete_one-Keeps name deletes =
      delete_calls api (OnMaps api Q) name (delete_map-Keeps name deletes)

  pub steady_of : IsKept Q → IsSteady api (OnMaps api Q)
  steady_of kept = record {
    getting = get_map-Keeps api lawful Q;
    listing = list_maps-Keeps api lawful Q;
    creating = λ m w. create_map-Keeps m (λ l. kept.adds m l w);
    updating = λ m w. update_map-Keeps m (λ l. kept.replaces m l w);
    deleting = λ name. delete_map-Keeps name (kept.deletes name);
  }

module _ {S : Type 0} (api : MapsApi S) (P : S → Type 0) (steady : IsSteady api P) where
  pub put_head-Keeps : (r : Release) → Keeps P (put_head api r)
  unfolding put_head
  put_head-Keeps r =
      upsert_calls api P (head_map r) (steady.getting _)
        (steady.creating (head_map r) (written_head r))
        (steady.updating (head_map r) (written_head r))

  pub put_revision-Keeps : (release : Text) (rv : Revision) → Keeps P (put_revision api release rv)
  unfolding put_revision
  put_revision-Keeps release rv =
      upsert_calls api P (body_map release rv) (steady.getting _)
        (steady.creating (body_map release rv) (written_body release rv))
        (steady.updating (body_map release rv) (written_body release rv))

  pub delete_name-Keeps : (name : Text) → Keeps P (delete_name api name)
  delete_name-Keeps name = delete_calls api P name (steady.deleting name)
