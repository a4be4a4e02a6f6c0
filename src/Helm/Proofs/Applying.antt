-- ===== src/Helm/Proofs/Applying.antt =====
-- What applying a manifest and deleting objects keep, internal/helmmgr/helmmgr.go.
use workspace_gateway.Base.{
  Bool, List, [], ◌∷◌, Option, none, some, null, trim_space, Text, Result, ok, err,
}
use workspace_gateway.Base.Exec.{Keeps, Keeps-if, Keeps-raise, Keeps-pure, Keeps-bind}
use workspace_gateway.Helm.Api.{Object, ApiError, absent, already_exists, Engine}
use workspace_gateway.Helm.Apply.{
  apply_found, apply_mapped, apply_object, apply_parsed, apply_docs, apply_manifest, delete_objects,
  labelled, delete_mapped,
}
use workspace_gateway.Helm.Manifest.{docs_of}
use workspace_gateway.Helm.Proofs.Keeping.{Keeps-call, Keeps-outcome}

-- The calls of the dynamic client keep a property of the states.
pub record IsApart {S Doc : Type 0} (engine : Engine S Doc) (P : S → Type 0) : Type 0 where
  pub getting : (resource name : Text) → Keeps P (engine.get_object resource name)
  pub creating : (resource : Text) (u : Doc) → Keeps P (engine.create_object resource u)
  pub updating : (resource : Text) (u : Doc) → Keeps P (engine.update_object resource u)
  pub deleting : (resource name : Text) → Keeps P (engine.delete_object resource name)

module _ {S Doc : Type 0} (engine : Engine S Doc) (namespace : Text) {P : S → Type 0}
    (apart : IsApart engine P) where
  apply_found-Keeps :
      (resource : Text) (u : Doc) (r : Result ApiError Doc)
      → Keeps P (apply_found engine namespace resource u r)
  apply_found-Keeps resource u (ok cur) = Keeps-call _ (apart.updating resource _)
  apply_found-Keeps resource u (err absent) = Keeps-call _ (apart.creating resource u)
  apply_found-Keeps resource u (err already_exists) = Keeps-raise _
  apply_found-Keeps resource u (err (ApiError.call_failed _)) = Keeps-raise _

  apply_mapped-Keeps :
      (u : Doc) (r : Result Text (Text × Bool)) → Keeps P (apply_mapped engine namespace u r)
  apply_mapped-Keeps u (err e) = Keeps-raise _
  apply_mapped-Keeps u (ok (resource, _)) =
      Keeps-bind _ _ (Keeps-outcome _ (apart.getting resource _)) (apply_found-Keeps resource u)

  apply_parsed-Keeps :
      (release : Text) (r : Result Text (Option Doc))
      → Keeps P (apply_parsed engine namespace release r)
  unfolding apply_parsed apply_object
  apply_parsed-Keeps release (err e) = Keeps-raise _
  apply_parsed-Keeps release (ok none) = Keeps-pure tt
  apply_parsed-Keeps release (ok (some u)) =
      Keeps-if (null (engine.kind_of u)) _ _ (λ _. Keeps-pure tt)
        λ _. apply_mapped-Keeps (labelled engine namespace release u) _

  apply_docs-Keeps :
      (release : Text) (docs : List Text) → Keeps P (apply_docs engine namespace release docs)
  unfolding apply_docs
  apply_docs-Keeps release [] = Keeps-pure tt
  apply_docs-Keeps release (doc ∷ docs) =
      Keeps-if (null (trim_space doc)) _ _ (λ _. apply_docs-Keeps release docs)
        λ _. Keeps-bind _ _ (apply_parsed-Keeps release _) (λ _. apply_docs-Keeps release docs)

  pub apply_manifest-Keeps :
      (manifest release : Text) → Keeps P (apply_manifest engine namespace manifest release)
  unfolding apply_manifest
  apply_manifest-Keeps manifest release = apply_docs-Keeps release (docs_of manifest)

  delete_mapped-Keeps :
      (name : Text) (r : Result Text (Text × Bool))
      → Keeps P (delete_mapped engine namespace name r)
  delete_mapped-Keeps name (err e) = Keeps-pure tt
  delete_mapped-Keeps name (ok (resource, _)) =
      Keeps-bind _ _ (Keeps-outcome _ (apart.deleting resource name)) λ _. Keeps-pure tt

  pub delete_objects-Keeps :
      (objects : List Object) → Keeps P (delete_objects engine namespace objects)
  unfolding delete_objects
  delete_objects-Keeps [] = Keeps-pure tt
  delete_objects-Keeps (o ∷ objects) =
      Keeps-bind _ _ (delete_objects-Keeps objects) λ _. delete_mapped-Keeps o.name _
