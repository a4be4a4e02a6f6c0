-- ===== src/Helm/Proofs/Allowed.antt =====
-- What `Apply` of internal/helmmgr/helmmgr.go puts into the cluster passed the checks of `validate`.
use workspace_gateway.Base.{
  ℕ, Bool, List, [], ◌∷◌, Option, none, some, ◌≡◌, refl, subst, null, trim_space, Text, Result, ok,
  err,
}
use workspace_gateway.Base.Exec.{
  ◌>>=◌, Keeps, Keeps-pure, Keeps-raise, Keeps-if, Keeps-bind, Keeps-require,
}
use workspace_gateway.Helm.Api.{
  Object, RenderOptions, ChartMeta, HelmError, invalid_name, ApiError, absent, already_exists,
  MapsApi, Engine,
}
use workspace_gateway.Helm.Apply.{
  updated, apply_found, apply_mapped, apply_object, labelled, apply_parsed, apply_docs,
  apply_manifest, template, collect, templated, validated_with,
}
use workspace_gateway.Helm.Manifest.{docs_of, check_parsed, check_docs, validate}
use workspace_gateway.Helm.Proofs.Checked.{
  IsAllowed, check_object_sound, bound_ok, if_true, if_false, ok_inj,
}
use workspace_gateway.Helm.Proofs.Keeping.{Keeps-call, Keeps-outcome, IsSteady}
use workspace_gateway.Helm.Proofs.Lifecycle.{get-Keeps, clock-Keeps, record_revision_of-Keeps}
use workspace_gateway.Helm.Releases.{apply, apply_templated, given, next_release}
use workspace_gateway.Roles.Labels.{valid_release_name}

-- The steps of `Apply` keep what the allowed calls keep.
module _ {S Doc : Type 0} (engine : Engine S Doc) (namespace release : Text) (P : S → Type 0) where
  -- The calls of the dynamic client that are made for allowed documents keep a property.
  pub record IsPermitted : Type 0 where
    pub getting : (resource name : Text) → Keeps P (engine.get_object resource name)
    pub creating :
        (resource : Text) (u : Doc)
        → IsAllowed engine namespace u
        → Keeps P (engine.create_object resource (labelled engine namespace release u))
    pub updating :
        (resource : Text) (u cur : Doc)
        → IsAllowed engine namespace u
        → Keeps P (
            engine.update_object resource
              (updated engine namespace cur (labelled engine namespace release u)))

  module _ (permitted : IsPermitted) where
    apply_found-Keeps :
        (resource : Text) (u : Doc) (r : Result ApiError Doc)
        → IsAllowed engine namespace u
        → Keeps P (apply_found engine namespace resource (labelled engine namespace release u) r)
    apply_found-Keeps resource u (ok cur) a = Keeps-call _ (permitted.updating resource u cur a)
    apply_found-Keeps resource u (err absent) a = Keeps-call _ (permitted.creating resource u a)
    apply_found-Keeps resource u (err already_exists) a = Keeps-raise _
    apply_found-Keeps resource u (err (ApiError.call_failed _)) a = Keeps-raise _

    apply_mapped-Keeps :
        (u : Doc) (r : Result Text (Text × Bool))
        → IsAllowed engine namespace u
        → Keeps P (apply_mapped engine namespace (labelled engine namespace release u) r)
    apply_mapped-Keeps u (err e) a = Keeps-raise _
    apply_mapped-Keeps u (ok (resource, _)) a =
        Keeps-bind _ _ (Keeps-outcome _ (permitted.getting resource _))
          λ found. apply_found-Keeps resource u found a

    apply_parsed-Keeps :
        (r : Result Text (Option Doc)) (found : List Object)
        → check_parsed engine namespace r ≡ ok found
        → Keeps P (apply_parsed engine namespace release r)
    unfolding check_parsed apply_parsed apply_object
    apply_parsed-Keeps (err e) found h = Keeps-raise _
    apply_parsed-Keeps (ok none) found h = Keeps-pure tt
    apply_parsed-Keeps (ok (some u)) found h =
        Keeps-if (null (engine.kind_of u)) _ _ (λ _. Keeps-pure tt)
          λ kind.
            let (o, checked, _) = bound_ok _ _ found (if_false _ _ _ kind h) in
            apply_mapped-Keeps u _ (check_object_sound engine namespace u o checked)

    apply_docs-Keeps :
        (docs : List Text) (objects : List Object)
        → check_docs engine namespace docs ≡ ok objects
        → Keeps P (apply_docs engine namespace release docs)
    unfolding check_docs apply_docs
    apply_docs-Keeps [] objects h = Keeps-pure tt
    apply_docs-Keeps (doc ∷ docs) objects h =
        Keeps-if (null (trim_space doc)) _ _
          (λ blank. apply_docs-Keeps docs objects (if_true _ _ _ blank h))
          λ written.
            let (found, parsed, h1) = bound_ok _ _ objects (if_false _ _ _ written h) in
            let (others, rest, _) = bound_ok _ _ objects h1 in
            Keeps-bind _ _ (apply_parsed-Keeps (engine.parse doc) found parsed)
              λ _. apply_docs-Keeps docs others rest

    pub apply_manifest-Keeps :
        (manifest : Text) (objects : List Object)
        → validate engine namespace manifest ≡ ok objects
        → Keeps P (apply_manifest engine namespace manifest release)
    unfolding validate apply_manifest
    apply_manifest-Keeps manifest objects h =
        let (found, checked, _) = bound_ok _ _ objects h in
        apply_docs-Keeps (docs_of manifest) found checked

module _ {S Doc : Type 0} (api : MapsApi S) (engine : Engine S Doc) (namespace : Text)
    (history_max : ℕ) (P : S → Type 0) where
  template_checked :
      (chart_dir : Text) (o : RenderOptions) (t : Text × List Object × ChartMeta)
      → template engine namespace chart_dir o ≡ ok t
      → validate engine namespace t.0 ≡ ok t.1
  unfolding template
  template_checked chart_dir o t h = go (engine.render chart_dir o) h
    where
      checked :
          (manifest : Text) (meta : ChartMeta) (r : Result HelmError (List Object))
          → validate engine namespace manifest ≡ r
          → validated_with manifest meta r ≡ ok t
          → validate engine namespace t.0 ≡ ok t.1
      checked manifest meta (err e) v h = absurd cc
      checked manifest meta (ok objects) v h =
          subst (λ x. validate engine namespace x.0 ≡ ok x.1) (ok_inj _ t h) v

      go :
          (r : Result Text (List (Text × Text) × ChartMeta))
          → templated engine namespace r ≡ ok t
          → validate engine namespace t.0 ≡ ok t.1
      go (err e) h = absurd cc
      go (ok (rendered, meta)) h = checked (collect rendered) meta _ refl h

  -- Take any property of the cluster that the calls on the release ConfigMaps keep, and that the
  -- dynamic client keeps when it reads an object, or writes a document labelled for this release
  -- whose kind is on the list, that names no other namespace, is not known as cluster-scoped and
  -- passes the check for dangerous fields. `Apply` keeps it: no other object is ever written.
  pub apply-IsPermitted :
      (chart_dir : Text) (o : RenderOptions) (creator session : Text)
      → IsSteady api P
      → IsPermitted engine namespace o.release P
      → Keeps P (apply api engine namespace history_max chart_dir o creator session)
  unfolding apply apply_templated ◌>>=◌
  apply-IsPermitted chart_dir o creator session steady permitted =
      Keeps-require (valid_release_name o.release) invalid_name _
        λ _. from_template (template engine namespace chart_dir o) refl
    where
      steps :
          (t : Text × List Object × ChartMeta)
          → validate engine namespace t.0 ≡ ok t.1
          → Keeps P (apply_templated api engine namespace history_max o creator session t)
      steps t checked =
          Keeps-bind _ _
            (apply_manifest-Keeps engine namespace o.release P permitted t.0 t.1 checked)
            λ _.
              Keeps-bind _ _ (get-Keeps api P steady history_max engine namespace o.release)
                λ found.
                  Keeps-bind _ _ (clock-Keeps api P steady history_max engine namespace) λ time.
                    record_revision_of-Keeps api P steady history_max
                      (next_release api engine namespace history_max o creator session t found time)

      from_template :
          (r : Result HelmError (Text × List Object × ChartMeta))
          → template engine namespace chart_dir o ≡ r
          → Keeps P (
              given api engine namespace history_max r
              >>= apply_templated api engine namespace history_max o creator session)
      from_template (err e) h = record { at = λ s p. p }
      from_template (ok t) h = record {
        at = λ s p. (steps t (template_checked chart_dir o t h)).at s p;
      }
