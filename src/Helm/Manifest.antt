-- ===== src/Helm/Manifest.antt =====
-- internal/helmmgr/helmmgr.go: what a rendered chart may hold, and how its objects are applied and
-- deleted.
use workspace_gateway.Base.{
  ℕ, zero, suc, ◌-◌, Bool, true, false, ◌&&◌, not, List, [], ◌∷◌, ◌++◌, Option, none, some,
  if◌then◌else◌, any, null, length, Text, newline, codes, text_eq, has_prefix, trim_space, Result,
  ok, err, ◌>>=◌,
}
use workspace_gateway.Helm.Api.{
  Object, HelmError, no_objects, kind_not_allowed, namespace_not_allowed, cluster_scoped,
  not_allowed, from_engine, Engine,
}

abbrev cons_first : ℕ → List Text → List Text
cons_first c [] = (c ∷ []) ∷ []
cons_first c (piece ∷ pieces) = (c ∷ piece) ∷ pieces

-- `strings.Split` by a separator that is not empty; `skip` bytes of it are still ahead.
unfoldable pub split_on : Text → ℕ → Text → List Text
split_on sep skip [] = [] ∷ []
split_on sep (suc skip) (c ∷ t) = split_on sep skip t
split_on sep zero (c ∷ t) = elim (has_prefix (c ∷ t) sep) [
  | true ↦ [] ∷ split_on sep (length sep - 1) t
  | false ↦ cons_first c (split_on sep zero t)
]

-- The documents of a manifest.
abbrev pub docs_of : Text → List Text
docs_of manifest = split_on (newline ∷ codes "---") 0 manifest

-- `allowedKinds`
unfoldable pub allowed_kinds : List Text
allowed_kinds =
    codes "ConfigMap"
    ∷ codes "Secret"
    ∷ codes "Service"
    ∷ codes "ServiceAccount"
    ∷ codes "PersistentVolumeClaim"
    ∷ codes "Deployment"
    ∷ codes "StatefulSet"
    ∷ codes "DaemonSet"
    ∷ codes "Job"
    ∷ codes "CronJob"
    ∷ codes "Ingress"
    ∷ codes "NetworkPolicy"
    ∷ codes "HorizontalPodAutoscaler"
    ∷ codes "PodDisruptionBudget"
    ∷ []

-- The pod template of a workload, and of a CronJob.
abbrev pub pod_spec : List Text
pod_spec = codes "spec" ∷ codes "template" ∷ codes "spec" ∷ []

abbrev pub cron_pod_spec : List Text
cron_pod_spec = codes "spec" ∷ codes "jobTemplate" ∷ pod_spec

module _ {S Doc : Type 0} (engine : Engine S Doc) where
  abbrev host_at : Text → Doc → Bool
  host_at field u = engine.is_true (pod_spec ++ field ∷ []) u

  -- The volumes and the containers of a pod template.
  unfoldable pub forbid_in : List Text → Doc → Result HelmError (Unit {0})
  forbid_in base u =
      if any (engine.has_key (codes "hostPath")) (engine.slice_of (base ++ codes "volumes" ∷ []) u)
      then err (not_allowed (codes "hostPath volumes"))
      else if any (engine.is_true (codes "securityContext" ∷ codes "privileged" ∷ []))
          (engine.slice_of (base ++ codes "containers" ∷ []) u)
      then err (not_allowed (codes "privileged containers"))
      else ok tt

  -- `forbidDangerous`
  unfoldable pub forbid_dangerous : Doc → Result HelmError (Unit {0})
  unfolding forbid_in
  forbid_dangerous u =
      if host_at (codes "hostNetwork") u
      then err (not_allowed (codes "hostNetwork"))
      else if host_at (codes "hostPID") u
      then err (not_allowed (codes "hostPID"))
      else if host_at (codes "hostIPC") u
      then err (not_allowed (codes "hostIPC"))
      else (forbid_in pod_spec u >>= λ _. forbid_in cron_pod_spec u)

  abbrev root_scope : Result Text (Text × Bool) → Bool
  root_scope (ok (resource, scope)) = scope
  root_scope (err e) = false

  -- `isClusterScoped`: a kind that the mapper does not know is not.
  unfoldable pub is_cluster_scoped : Doc → Bool
  is_cluster_scoped u =
      root_scope (engine.rest_mapping (engine.api_version_of u) (engine.kind_of u))

  abbrev object_of : Doc → Object
  object_of u = record {
    api_version = engine.api_version_of u;
    kind = engine.kind_of u;
    name = engine.name_of u;
  }

  module _ (namespace : Text) where
    -- The checks of `validate` on a document with a kind.
    unfoldable pub check_object : Doc → Result HelmError Object
    unfolding allowed_kinds forbid_dangerous is_cluster_scoped
    check_object u =
        if not (any (text_eq (engine.kind_of u)) allowed_kinds)
        then err (kind_not_allowed (engine.kind_of u))
        else if not (null (engine.namespace_of u))
            && not (text_eq (engine.namespace_of u) namespace)
        then err (namespace_not_allowed (engine.namespace_of u))
        else if is_cluster_scoped u
        then err (cluster_scoped (engine.kind_of u))
        else (forbid_dangerous u >>= λ _. ok (object_of u))

    -- A document of `validate`: one without fields or without a kind is passed over.
    unfoldable pub check_parsed : Result Text (Option Doc) → Result HelmError (List Object)
    unfolding check_object
    check_parsed (err e) = err (from_engine e)
    check_parsed (ok none) = ok []
    check_parsed (ok (some u)) =
        if null (engine.kind_of u) then ok [] else (check_object u >>= λ o. ok (o ∷ []))

    -- The loop of `validate`.
    unfoldable pub check_docs : List Text → Result HelmError (List Object)
    unfolding check_parsed
    check_docs [] = ok []
    check_docs (doc ∷ docs) =
        let rest = check_docs docs in
        if null (trim_space doc)
        then rest
        else (check_parsed (engine.parse doc) >>= λ found. rest >>= λ others. ok (found ++ others))

    abbrev some_objects : List Object → Result HelmError (List Object)
    some_objects [] = err no_objects
    some_objects (o ∷ objects) = ok (o ∷ objects)

    -- `validate`
    unfoldable pub validate : Text → Result HelmError (List Object)
    unfolding check_docs split_on
    validate manifest = check_docs (docs_of manifest) >>= some_objects
