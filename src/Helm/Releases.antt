-- ===== src/Helm/Releases.antt =====
-- internal/helmmgr/helmmgr.go: the operations on releases.
use workspace_gateway.Base.{
  ℕ, suc, Bool, true, false, not, List, [], ◌∷◌, ◌++◌, Option, none, some, keep, ltb, ◌==◌, Text,
  codes, Result, ok, err,
}
use workspace_gateway.Base.Exec.{Exec, ◌>>=◌, ◌>>◌, pure, raise, require}
use workspace_gateway.Base.Sorting.{sort}
use workspace_gateway.Base.Table.{first}
use workspace_gateway.Helm.Api.{
  Object, Revision, Release, RenderOptions, ChartMeta, ConfigMap, ApiError, absent, HelmError,
  invalid_name, undecodable, release_not_found, revision_not_found, from_api, of_release,
  is_revision, MapsApi, Engine, call, outcome,
}
use workspace_gateway.Helm.Apply.{template, apply_manifest, delete_objects}
use workspace_gateway.Helm.Records.{
  cm_name, heads, last_of, delete_name, with_history, record_revision_of,
}
use workspace_gateway.Roles.Labels.{valid_release_name}

abbrev or_none : List Object → Option Revision → List Object
or_none objects none = objects
or_none objects (some rv) = rv.objects

module _ {S : Type 0} (api : MapsApi S) where
  unfoldable pub delete_names : List ConfigMap → Exec HelmError S (Unit {0})
  unfolding delete_name ◌>>=◌
  delete_names [] = pure tt
  delete_names (m ∷ ms) = delete_name api m.name >> delete_names ms

  -- `deleteReleaseState`
  unfoldable pub delete_release_state : Text → Exec HelmError S (Unit {0})
  unfolding delete_names delete_name cm_name call ◌>>=◌
  delete_release_state release = do
    stored ← call (api.list_maps (of_release release))
    delete_names stored
    delete_name api (cm_name release)

  -- `List`
  unfoldable pub list_releases : Exec HelmError S (List Release)
  unfolding call ◌>>=◌
  list_releases = do
    items ← call (api.list_maps (λ _. true))
    pure (
        sort (λ a b. ltb b.updated_at a.updated_at) (heads (keep (λ m. not (is_revision m)) items)))

module _ {S Doc : Type 0} (api : MapsApi S) (engine : Engine S Doc) (namespace : Text)
    (history_max : ℕ) where
  abbrev pub got_head : Text → Option Release → Exec HelmError S (Option Release)
  got_head release none = raise undecodable
  got_head release (some r) = with_history api history_max release r

  abbrev pub got : Text → Result ApiError ConfigMap → Exec HelmError S (Option Release)
  got release (err absent) = pure none
  got release (err e) = raise (from_api e)
  got release (ok m) = got_head release m.head

  -- `Get`
  unfoldable pub get : Text → Exec HelmError S (Option Release)
  unfolding cm_name with_history outcome ◌>>=◌
  get release = outcome (api.get_map (cm_name release)) >>= got release

  -- A release, and the next revision of it.
  abbrev pub revised : Release → Revision → Release
  revised cur rv = record cur {
    ref = rv.ref;
    chart_path = rv.chart_path;
    chart_version = rv.chart_version;
    app_version = rv.app_version;
    objects = rv.objects;
    revision = rv.revision;
    status = codes "deployed";
    updated_at = rv.created_at;
    history = cur.history ++ rv ∷ [];
  }

  abbrev pub fresh_release : RenderOptions → Text → Text → Release
  fresh_release o creator session = record {
    name = o.release;
    namespace = namespace;
    creator = creator;
    session = session;
    org_ns = o.org_ns;
    ref = [];
    chart_path = [];
    chart_version = [];
    app_version = [];
    revision = 0;
    status = [];
    updated_at = 0;
    history = [];
    objects = [];
  }

  abbrev pub current_or : Release → Option Release → Release
  current_or fresh none = fresh
  current_or fresh (some r) = r

  abbrev pub clock : Exec HelmError S ℕ
  clock s = (ok (engine.now s), s)

  -- What `Apply` records, at a time, of what it found.
  abbrev pub next_release :
      RenderOptions → Text → Text → Text × List Object × ChartMeta → Option Release → ℕ → Release
  next_release o creator session (manifest, objects, meta) found time =
      let cur = current_or (fresh_release o creator session) found in
      revised cur (record {
        revision = suc cur.revision;
        ref = o.ref;
        chart_path = o.chart_path;
        values = o.values_yaml;
        chart_version = meta.version;
        app_version = meta.app_version;
        created_at = time;
        objects = objects;
        manifest = manifest;
      })

  -- The steps of `Apply` behind `Template`.
  unfoldable pub apply_templated :
      RenderOptions → Text → Text → Text × List Object × ChartMeta → Exec HelmError S Release
  unfolding apply_manifest get record_revision_of ◌>>=◌
  apply_templated o creator session templated = do
    apply_manifest engine namespace templated.0 o.release
    found ← get o.release
    time ← clock
    record_revision_of api history_max (next_release o creator session templated found time)

  abbrev pub given : {A : Type 0} → Result HelmError A → Exec HelmError S A
  given (ok a) = pure a
  given (err e) = raise e

  -- `Apply`
  unfoldable pub apply : Text → RenderOptions → Text → Text → Exec HelmError S Release
  unfolding apply_templated template valid_release_name ◌>>=◌
  apply chart_dir o creator session = do
    require (valid_release_name o.release) invalid_name
    templated ← given (template engine namespace chart_dir o)
    apply_templated o creator session templated

  -- What `Rollback` records, at a time.
  abbrev pub rolled_release : Release → Revision → ℕ → Release
  rolled_release cur target time =
      revised cur (record target { revision = suc cur.revision; created_at = time })

  abbrev pub roll_to : Text → Release → Revision → Exec HelmError S Release
  roll_to release cur target = do
    apply_manifest engine namespace target.manifest release
    time ← clock
    record_revision_of api history_max (rolled_release cur target time)

  abbrev pub roll_target : Text → ℕ → Release → Option Revision → Exec HelmError S Release
  roll_target release revision cur none = raise (revision_not_found revision)
  roll_target release revision cur (some target) = roll_to release cur target

  abbrev pub roll_found : Text → ℕ → Option Release → Exec HelmError S Release
  roll_found release revision none = raise (release_not_found release)
  roll_found release revision (some cur) =
      roll_target release revision cur
        (first (λ (rv : Revision). rv.revision == revision) cur.history)

  -- `Rollback`
  unfoldable pub rollback : Text → ℕ → Exec HelmError S Release
  unfolding get apply_manifest record_revision_of ◌>>=◌
  rollback release revision = get release >>= roll_found release revision

  abbrev objects_of : Option Revision → List Object
  objects_of none = []
  objects_of (some rv) = rv.objects

  abbrev pub uninstall_found : Text → Option Release → Exec HelmError S Bool
  uninstall_found release none = pure false
  uninstall_found release (some cur) = do
    delete_objects engine namespace (objects_of (last_of cur.history))
    delete_release_state api release
    pure true

  -- `Uninstall`
  unfoldable pub uninstall : Text → Exec HelmError S Bool
  unfolding get delete_objects delete_release_state ◌>>=◌
  uninstall release = get release >>= uninstall_found release
