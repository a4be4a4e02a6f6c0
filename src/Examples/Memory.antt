-- ===== src/Examples/Memory.antt =====
-- A cluster that holds its ConfigMaps in a list, for the theorems on Helm releases.
use workspace_gateway.Base.{
  Bool, true, false, List, [], ◌∷◌, ◌++◌, Option, none, some, ◌≡◌, ◌⊎◌, inl, inr, refl, ap, sym,
  arith, any, keep, Text, codes, Result, ok, err, Bool-cases,
}
use workspace_gateway.Base.Exec.{Exec}
use workspace_gateway.Base.Table.{delete, first}
use workspace_gateway.Helm.Api.{
  ConfigMap, ApiError, absent, already_exists, named, MapsApi, IsMapsApi, Engine,
}
use workspace_gateway.Helm.Proofs.Reliable.{IsReliable}

-- A document is its kind and its name; what was written is kept in order.
abbrev pub Doc : Type 0
Doc = Text × Text

pub record Cluster : Type 0 where
  pub stored : List ConfigMap
  pub written : List Doc

abbrev pub get_with : Option ConfigMap → Exec ApiError Cluster ConfigMap
get_with none s = (err absent, s)
get_with (some m) s = (ok m, s)

abbrev pub create_with : Bool → ConfigMap → Exec ApiError Cluster (Unit {0})
create_with true m s = (err already_exists, s)
create_with false m s = (ok tt, record s { stored = s.stored ++ m ∷ [] })

abbrev pub update_with : Bool → ConfigMap → Exec ApiError Cluster (Unit {0})
update_with false m s = (err absent, s)
update_with true m s = (ok tt, record s { stored = delete (named m.name) s.stored ++ m ∷ [] })

abbrev pub delete_with : Bool → Text → Exec ApiError Cluster (Unit {0})
delete_with false name s = (err absent, s)
delete_with true name s = (ok tt, record s { stored = delete (named name) s.stored })

abbrev pub in_memory : MapsApi Cluster
in_memory = record {
  maps = λ s. s.stored;
  get_map = λ name s. get_with (first (named name) s.stored) s;
  list_maps = λ p s. (ok (keep p s.stored), s);
  create_map = λ m s. create_with (any (named m.name) s.stored) m s;
  update_map = λ m s. update_with (any (named m.name) s.stored) m s;
  delete_map = λ name s. delete_with (any (named name) s.stored) name s;
}

get_keeps_stored : (o : Option ConfigMap) (s : Cluster) → (get_with o s).1.stored ≡ s.stored
get_keeps_stored none s = refl
get_keeps_stored (some m) s = refl

ok_list : (a b : List ConfigMap) → Path (Result ApiError (List ConfigMap)) (ok a) (ok b) → b ≡ a
ok_list a b h =
    sym (ap (λ (r : Result ApiError (List ConfigMap)). elim r [ ok l ↦ l | err e ↦ a ]) h)

create_adds_stored :
    (taken : Bool) (m : ConfigMap) (s : Cluster)
    → any (named m.name) s.stored ≡ taken
    → ((create_with taken m s).1.stored ≡ s.stored)
      ⊎ ((any (named m.name) s.stored ≡ false)
          × ((create_with taken m s).1.stored ≡ s.stored ++ m ∷ []))
create_adds_stored true m s e = inl refl
create_adds_stored false m s e = inr (e, refl)

create_succeeds_stored :
    (taken : Bool) (m : ConfigMap) (s : Cluster)
    → (create_with taken m s).0 ≡ ok tt
    → (create_with taken m s).1.stored ≡ s.stored ++ m ∷ []
create_succeeds_stored true m s h = absurd cc
create_succeeds_stored false m s h = refl

update_replaces_stored :
    (taken : Bool) (m : ConfigMap) (s : Cluster)
    → ((update_with taken m s).1.stored ≡ s.stored)
      ⊎ ((update_with taken m s).1.stored ≡ delete (named m.name) s.stored ++ m ∷ [])
update_replaces_stored true m s = inr refl
update_replaces_stored false m s = inl refl

update_succeeds_stored :
    (taken : Bool) (m : ConfigMap) (s : Cluster)
    → (update_with taken m s).0 ≡ ok tt
    → (update_with taken m s).1.stored ≡ delete (named m.name) s.stored ++ m ∷ []
update_succeeds_stored true m s h = refl
update_succeeds_stored false m s h = absurd cc

delete_removes_stored :
    (taken : Bool) (name : Text) (s : Cluster)
    → ((delete_with taken name s).1.stored ≡ s.stored)
      ⊎ ((delete_with taken name s).1.stored ≡ delete (named name) s.stored)
delete_removes_stored true name s = inr refl
delete_removes_stored false name s = inl refl

delete_succeeds_stored :
    (taken : Bool) (name : Text) (s : Cluster)
    → (delete_with taken name s).0 ≡ ok tt
    → (delete_with taken name s).1.stored ≡ delete (named name) s.stored
delete_succeeds_stored true name s h = refl
delete_succeeds_stored false name s h = absurd cc

delete_absent_stored :
    (taken : Bool) (name : Text) (s : Cluster)
    → any (named name) s.stored ≡ taken
    → (delete_with taken name s).0 ≡ err absent
    → (any (named name) s.stored ≡ false) × ((delete_with taken name s).1.stored ≡ s.stored)
delete_absent_stored true name s e h = absurd cc
delete_absent_stored false name s e h = (e, refl)

pub in_memory-IsMapsApi : IsMapsApi in_memory
in_memory-IsMapsApi = record {
  get_keeps = λ name s. get_keeps_stored (first (named name) s.stored) s;
  list_keeps = λ p s. refl;
  list_selects = λ p s l h. ok_list (keep p s.stored) l h;
  create_adds = λ m s. create_adds_stored (any (named m.name) s.stored) m s refl;
  create_succeeds = λ m s. create_succeeds_stored (any (named m.name) s.stored) m s;
  update_replaces = λ m s. update_replaces_stored (any (named m.name) s.stored) m s;
  update_succeeds = λ m s. update_succeeds_stored (any (named m.name) s.stored) m s;
  delete_removes = λ name s. delete_removes_stored (any (named name) s.stored) name s;
  delete_succeeds = λ name s. delete_succeeds_stored (any (named name) s.stored) name s;
  delete_absent = λ name s. delete_absent_stored (any (named name) s.stored) name s refl;
}

-- A chart of one Deployment, of which no object exists yet.
abbrev pub engine : Engine Cluster Doc
engine = record {
  parse = λ t. ok (some (codes "Deployment", t));
  api_version_of = λ _. codes "apps/v1";
  kind_of = λ u. u.0;
  name_of = λ u. u.1;
  namespace_of = λ _. [];
  is_true = λ _ _. false;
  slice_of = λ _ _. [];
  has_key = λ _ _. false;
  string_at = λ _ _. none;
  set_label = λ _ _ u. u;
  set_namespace = λ _ u. u;
  set_resource_version = λ _ u. u;
  set_string = λ _ _ u. u;
  rest_mapping = λ _ kind. ok (kind, false);
  get_object = λ _ _ s. (err absent, s);
  create_object = λ _ u s. (ok tt, record s { written = s.written ++ u ∷ [] });
  update_object = λ _ u s. (ok tt, record s { written = s.written ++ u ∷ [] });
  delete_object = λ _ _ s. (ok tt, s);
  render = λ _ o.
      ok ((codes "a.yaml", codes "web") ∷ [], record { version = codes "1"; app_version = [] });
  now = λ _. 0;
}

get_finds_stored :
    (name : Text) (l : List ConfigMap)
    → any (named name) l ≡ true
    → (m : ConfigMap) × (first (named name) l ≡ some m)
get_finds_stored name [] h = absurd cc
get_finds_stored name (m ∷ l) h = elim (Bool-cases (named name m)) [
  | inl e ↦ (m, rw e)
  | inr e ↦ (let (found, f) = get_finds_stored name l (ground (arith, e, h)) in (found, rw e f))
]

create_answers_stored :
    (taken : Bool) (m : ConfigMap) (s : Cluster)
    → any (named m.name) s.stored ≡ taken
    → ((create_with taken m s).0 ≡ ok tt)
      ⊎ (((create_with taken m s).0 ≡ err already_exists)
          × (any (named m.name) (create_with taken m s).1.stored ≡ true))
create_answers_stored true m s e = inr (refl, e)
create_answers_stored false m s e = inl refl

delete_answers_stored :
    (taken : Bool) (name : Text) (s : Cluster)
    → ((delete_with taken name s).0 ≡ ok tt) ⊎ ((delete_with taken name s).0 ≡ err absent)
delete_answers_stored true name s = inl refl
delete_answers_stored false name s = inr refl

pub in_memory-IsReliable : IsReliable in_memory
in_memory-IsReliable = record {
  get_finds = λ name s h.
      let (m, e) = get_finds_stored name s.stored h in (m, ap (λ o. (get_with o s).0) e);
  list_answers = λ p s. (keep p s.stored, refl);
  create_answers = λ m s. create_answers_stored (any (named m.name) s.stored) m s refl;
  update_finds = λ m s h. ap (λ b. (update_with b m s).0) h;
  delete_answers = λ name s. delete_answers_stored (any (named name) s.stored) name s;
}
