-- ===== src/Examples/Releases.antt =====
-- The theorems on Helm releases, on a cluster that holds its ConfigMaps in a list.
use workspace_gateway.Base.{
  all-append, ◌∙◌, ◌&&◌, has_suffix, trim_space, has_prefix, ℕ, Bool, true, false, List, [], ◌∷◌,
  ◌++◌, Option, none, some, ◌≡◌, refl, sym, subst, arith, any, all, map, Text, codes, text_eq, ok,
  err, if◌then◌else◌,
}
use workspace_gateway.Base.Exec.{Keeps}
use workspace_gateway.Base.Leaves.{Leaves}
use workspace_gateway.Base.Table.{first}
use workspace_gateway.Helm.Api.{undecodable, Revision, Release, RenderOptions, ConfigMap, named}
use workspace_gateway.Base.Sorting.{sort}
use workspace_gateway.Helm.Manifest.{validate, allowed_kinds}
use workspace_gateway.Helm.Proofs.Keeping.{OnMaps}
use workspace_gateway.Helm.Proofs.Applying.{IsApart}
use workspace_gateway.Helm.Proofs.Names.{IsWellFormed}
use workspace_gateway.Helm.Proofs.Capped.{IsCapped, apply-IsCapped}
use workspace_gateway.Helm.Proofs.Gone.{IsGone, uninstall-IsGone}
use workspace_gateway.Helm.Proofs.Keeping.{IsSteady}
use workspace_gateway.Helm.Proofs.Recorded.{record_revision_of-IsStored}
use workspace_gateway.Helm.Proofs.Stored.{IsStored}
use workspace_gateway.Helm.Proofs.Reliable.{record_revision_of_returns}
use workspace_gateway.Helm.Proofs.Spelled.{IsNumbered}
use workspace_gateway.Helm.Proofs.Steady.{apply-IsNumbered}
use workspace_gateway.Helm.Proofs.Checked.{IsAllowed}
use workspace_gateway.Helm.Proofs.Allowed.{IsPermitted, apply-IsPermitted}
use workspace_gateway.Helm.Records.{body_map, record_revision_of}
use workspace_gateway.Helm.Releases.{apply, get, rollback, uninstall}
use workspace_gateway.Examples.Memory.{
  Doc, Cluster, get_with, create_with, update_with, delete_with, in_memory, in_memory-IsMapsApi,
  in_memory-IsReliable, engine,
}

abbrev ns : Text
ns = codes "worker"

abbrev options : Text → RenderOptions
options release = record {
  release = release;
  chart_path = codes "chart";
  values_yaml = [];
  ref = codes "main";
  org_ns = codes "acme";
}

abbrev empty_cluster : Cluster
empty_cluster = record { stored = []; written = [] }

abbrev apply_to : Text → Cluster → Cluster
apply_to release s = (apply in_memory engine ns 2 [] (options release) [] [] s).1

-- Of three revisions two are kept; the head stands behind them.
three_revisions :
    map
      (λ (m : ConfigMap). m.number)
      (apply_to (codes "x") (apply_to (codes "x") (apply_to (codes "x") empty_cluster))).stored
    ≡ some 2 ∷ some 3 ∷ none ∷ []
unfolding apply validate sort has_suffix trim_space has_prefix
three_revisions = refl

-- The first revision of `x` takes the name of the head of `rev-x-v1`, which is lost.
head_lost :
    (get in_memory engine ns 2
      (codes "rev-x-v1")
      (apply_to (codes "x") (apply_to (codes "rev-x-v1") empty_cluster))).0
    ≡ err undecodable
unfolding apply get validate sort has_suffix trim_space has_prefix
head_lost = refl

empty-IsWellFormed : IsWellFormed []
empty-IsWellFormed = record { held_once = λ name. omega arith; consistent = refl }

engine_apart : (Q : List ConfigMap → Type 0) → IsApart engine (OnMaps in_memory Q)
engine_apart Q = record {
  getting = λ _ _. record { at = λ s p. p };
  creating = λ _ _. record { at = λ s p. p };
  updating = λ _ _. record { at = λ s p. p };
  deleting = λ _ _. record { at = λ s p. p };
}

apply-IsCapped_example :
    Leaves
      (OnMaps in_memory IsWellFormed)
      (λ after. IsCapped in_memory in_memory-IsMapsApi 2 (omega arith) after.name)
      (apply in_memory engine ns 2 [] (options (codes "x")) [] [])
    × Leaves
        (OnMaps in_memory IsWellFormed)
        (λ after. IsCapped in_memory in_memory-IsMapsApi 2 (omega arith) after.name)
        (rollback in_memory engine ns 2 (codes "x") 1)
apply-IsCapped_example =
    apply-IsCapped in_memory in_memory-IsMapsApi 2 (omega arith) engine ns
      (engine_apart IsWellFormed) [] (options (codes "x")) [] [] (codes "x") 1

uninstall-IsGone_example :
    Leaves
      (OnMaps in_memory (λ _. Unit))
      (λ removed s. removed ≡ true → IsGone in_memory in_memory-IsMapsApi (codes "x") engine ns 2 s)
      (uninstall in_memory engine ns 2 (codes "x"))
uninstall-IsGone_example = uninstall-IsGone in_memory in_memory-IsMapsApi (codes "x") engine ns 2

abbrev revision_of : ℕ → Revision
revision_of n = record {
  revision = n;
  ref = codes "main";
  chart_path = codes "chart";
  chart_version = codes "1";
  app_version = [];
  values = [];
  created_at = 0;
  objects = [];
  manifest = codes "web";
}

abbrev recorded : Release
recorded = record {
  name = codes "x";
  namespace = ns;
  creator = [];
  session = [];
  org_ns = [];
  ref = [];
  chart_path = [];
  chart_version = [];
  app_version = [];
  revision = 2;
  status = codes "deployed";
  updated_at = 0;
  history = revision_of 1 ∷ revision_of 2 ∷ [];
  objects = [];
}

record_revision_of-IsStored_example :
    Leaves
      (OnMaps in_memory IsWellFormed)
      (λ _. IsStored in_memory in_memory-IsMapsApi (body_map (codes "x") (revision_of 2)))
      (record_revision_of in_memory 1 recorded)
record_revision_of-IsStored_example =
    record_revision_of-IsStored in_memory in_memory-IsMapsApi 1 recorded (revision_of 2) refl refl

record_revision_of_returns_example :
    (record_revision_of in_memory 1 recorded empty_cluster).0 ≡ ok recorded
record_revision_of_returns_example =
    record_revision_of_returns in_memory in_memory-IsMapsApi in_memory-IsReliable 1 recorded
      (revision_of 2) empty_cluster refl

apply-IsNumbered_example :
    Keeps (OnMaps in_memory IsNumbered) (get in_memory engine ns 2 (codes "x"))
    × Keeps
        (OnMaps in_memory IsNumbered)
        (apply in_memory engine ns 2 [] (options (codes "x")) [] [])
    × Keeps (OnMaps in_memory IsNumbered) (rollback in_memory engine ns 2 (codes "x") 1)
    × Keeps (OnMaps in_memory IsNumbered) (uninstall in_memory engine ns 2 (codes "x"))
apply-IsNumbered_example =
    apply-IsNumbered in_memory engine ns 2 [] (options (codes "x")) [] [] (codes "x") 1
      in_memory-IsMapsApi (engine_apart IsNumbered)

-- Each document that was written has a kind on the list.
abbrev is_listed : Doc → Bool
is_listed u = any (text_eq u.0) allowed_kinds

abbrev OnlyListed : Cluster → Type 0
OnlyListed s = all is_listed s.written ≡ true

written_steady : IsSteady in_memory OnlyListed
written_steady = record {
  getting = λ name. record { at = λ s p. p_of_get (first (named name) s.stored) s p };
  listing = λ _. record { at = λ s p. p };
  creating = λ m _. record { at = λ s p. p_of_create (any (named m.name) s.stored) m s p };
  updating = λ m _. record { at = λ s p. p_of_update (any (named m.name) s.stored) m s p };
  deleting = λ name. record { at = λ s p. p_of_delete (any (named name) s.stored) name s p };
}
  where
    p_of_get : (o : Option ConfigMap) (s : Cluster) → OnlyListed s → OnlyListed (get_with o s).1
    p_of_get none s p = p
    p_of_get (some m) s p = p

    p_of_create :
        (b : Bool) (m : ConfigMap) (s : Cluster) → OnlyListed s → OnlyListed (create_with b m s).1
    p_of_create true m s p = p
    p_of_create false m s p = p

    p_of_update :
        (b : Bool) (m : ConfigMap) (s : Cluster) → OnlyListed s → OnlyListed (update_with b m s).1
    p_of_update true m s p = p
    p_of_update false m s p = p

    p_of_delete :
        (b : Bool) (name : Text) (s : Cluster) → OnlyListed s → OnlyListed (delete_with b name s).1
    p_of_delete true name s p = p
    p_of_delete false name s p = p

listed_behind :
    (l : List Doc) (u : Doc)
    → all is_listed l ≡ true
    → IsAllowed engine ns u
    → all is_listed (l ++ u ∷ []) ≡ true
listed_behind l u h a = all-append is_listed l (u ∷ []) ∙ both _ _ h a.kind_listed
  where
    both : (b c : Bool) → b ≡ true → c ≡ true → (b && (c && true)) ≡ true
    both b c hb hc = ground (arith, hb, hc)

either_same : (b : Bool) (u : Doc) → (if b then u else u) ≡ u
either_same true u = refl
either_same false u = refl

listed_permitted : IsPermitted engine ns (codes "x") OnlyListed
listed_permitted = record {
  getting = λ _ _. record { at = λ s p. p };
  creating = λ _ u a. record { at = λ s p. listed_behind s.written u p a };
  updating = λ _ u _ a. record {
    at = λ s p.
        subst (λ v. all is_listed (s.written ++ v ∷ []) ≡ true)
          (sym (either_same (text_eq u.0 (codes "Service")) u)) (listed_behind s.written u p a);
  };
}

apply-IsPermitted_example :
    Keeps OnlyListed (apply in_memory engine ns 2 [] (options (codes "x")) [] [])
apply-IsPermitted_example =
    apply-IsPermitted in_memory engine ns 2 OnlyListed [] (options (codes "x")) [] [] written_steady
      listed_permitted
