-- ===== src/Helm/Apply.antt =====
-- internal/helmmgr/helmmgr.go: rendering a chart, and applying and deleting the objects of a manifest.
use workspace_gateway.Base.{
  Bool, not, ◌||◌, List, [], ◌∷◌, ◌++◌, Option, none, some, if◌then◌else◌, null, keep, map, Text,
  newline, codes, text_eq, text_lt, has_suffix, trim_space, Result, ok, err,
}
use workspace_gateway.Base.Exec.{Exec, ◌>>=◌, ◌>>◌, pure, raise}
use workspace_gateway.Base.Sorting.{sort}
use workspace_gateway.Helm.Api.{
  Object, RenderOptions, ChartMeta, ApiError, absent, HelmError, from_api, from_engine, Engine,
  call, outcome,
}
use workspace_gateway.Helm.Manifest.{docs_of, validate, split_on}

-- The separator of the documents that `Template` writes.
abbrev separator : Text
separator = newline ∷ (codes "---" ++ newline ∷ [])

-- The loop that writes the contents, a separator before each but the first.
unfoldable pub write_docs : Text → List Text → Text
write_docs written [] = written
write_docs written (doc ∷ docs) = written ++ (separator ++ write_docs doc docs)

abbrev joined : List Text → Text
joined [] = []
joined (doc ∷ docs) = write_docs doc docs

abbrev is_skipped : Text → Bool
is_skipped name = has_suffix name (codes "_helpers.tpl") || has_suffix name (codes "NOTES.txt")

-- What `Template` makes of the rendered templates.
unfoldable pub collect : List (Text × Text) → Text
unfolding write_docs
collect rendered = joined (
    keep (λ content. not (null content))
      (map (λ (name, content). trim_space content)
        (keep (λ (name, content). not (is_skipped name))
          (sort (λ (a, _) (b, _). text_lt a b) rendered))))

abbrev pub validated_with :
    Text
    → ChartMeta
    → Result HelmError (List Object)
    → Result HelmError (Text × List Object × ChartMeta)
validated_with manifest meta (err e) = err e
validated_with manifest meta (ok objects) = ok (manifest, objects, meta)

module _ {S Doc : Type 0} (engine : Engine S Doc) (namespace : Text) where
  abbrev pub templated :
      Result Text (List (Text × Text) × ChartMeta)
      → Result HelmError (Text × List Object × ChartMeta)
  templated (err e) = err (from_engine e)
  templated (ok (rendered, meta)) =
      validated_with (collect rendered) meta (validate engine namespace (collect rendered))

  -- `Template`
  unfoldable pub template : Text → RenderOptions → Result HelmError (Text × List Object × ChartMeta)
  unfolding collect
  template chart_dir o = templated (engine.render chart_dir o)

  -- An assigned cluster IP of a Service stays.
  abbrev with_ip : Option Text → Doc → Doc
  with_ip none u = u
  with_ip (some ip) u = engine.set_string (codes "spec" ∷ codes "clusterIP" ∷ []) ip u

  abbrev pub updated : Doc → Doc → Doc
  updated cur u =
      if text_eq (engine.kind_of u) (codes "Service")
      then with_ip (engine.string_at (codes "spec" ∷ codes "clusterIP" ∷ []) cur)
          (engine.set_resource_version cur u)
      else engine.set_resource_version cur u

  abbrev pub apply_found : Text → Doc → Result ApiError Doc → Exec HelmError S (Unit {0})
  apply_found resource u (err absent) = call (engine.create_object resource u)
  apply_found resource u (err e) = raise (from_api e)
  apply_found resource u (ok cur) = call (engine.update_object resource (updated cur u))

  abbrev pub apply_mapped : Doc → Result Text (Text × Bool) → Exec HelmError S (Unit {0})
  apply_mapped u (err e) = raise (from_engine e)
  apply_mapped u (ok (resource, _)) =
      outcome (engine.get_object resource (engine.name_of u)) >>= apply_found resource u

  -- `applyObject`
  unfoldable pub apply_object : Doc → Exec HelmError S (Unit {0})
  unfolding ◌>>=◌ call outcome
  apply_object u = apply_mapped u (engine.rest_mapping (engine.api_version_of u) (engine.kind_of u))

  abbrev pub labelled : Text → Doc → Doc
  labelled release u = engine.set_namespace namespace (
      engine.set_label (codes "app.kubernetes.io/managed-by") (codes "workspace-gateway")
        (engine.set_label (codes "workspace/helm-release") release u))

  -- A document of `applyManifest`.
  unfoldable pub apply_parsed : Text → Result Text (Option Doc) → Exec HelmError S (Unit {0})
  unfolding apply_object
  apply_parsed release (err e) = raise (from_engine e)
  apply_parsed release (ok none) = pure tt
  apply_parsed release (ok (some u)) =
      if null (engine.kind_of u) then pure tt else apply_object (labelled release u)

  -- The loop of `applyManifest`.
  unfoldable pub apply_docs : Text → List Text → Exec HelmError S (Unit {0})
  unfolding apply_parsed ◌>>=◌
  apply_docs release [] = pure tt
  apply_docs release (doc ∷ docs) =
      let rest = apply_docs release docs in
      if null (trim_space doc) then rest else (apply_parsed release (engine.parse doc) >> rest)

  -- `applyManifest`
  unfoldable pub apply_manifest : Text → Text → Exec HelmError S (Unit {0})
  unfolding apply_docs split_on
  apply_manifest manifest release = apply_docs release (docs_of manifest)

  abbrev pub delete_mapped : Text → Result Text (Text × Bool) → Exec HelmError S (Unit {0})
  delete_mapped name (err e) = pure tt
  delete_mapped name (ok (resource, _)) = do
    _ ← outcome (engine.delete_object resource name)
    pure tt

  -- `deleteObject`; its error is swallowed by the only caller, which deletes from the last on.
  unfoldable pub delete_objects : List Object → Exec HelmError S (Unit {0})
  unfolding ◌>>=◌ outcome
  delete_objects [] = pure tt
  delete_objects (o ∷ objects) =
      delete_objects objects >> delete_mapped o.name (engine.rest_mapping o.api_version o.kind)
