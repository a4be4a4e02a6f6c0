-- ===== src/Helm/Proofs/Lifecycle.antt =====
-- What `Get`, `Apply`, `Rollback` and `Uninstall` of internal/helmmgr/helmmgr.go keep.
use workspace_gateway.Base.{
  ℕ, Bool, true, false, List, [], ◌∷◌, Option, none, some, any, null, Text, Result, ok, err, ◌==◌,
}
use workspace_gateway.Base.Exec.{
  Keeps, Keeps-if, Keeps-attempt, Keeps-raise, Keeps-pure, Keeps-bind, Keeps-require,
}
use workspace_gateway.Helm.Api.{
  Object, Revision, Release, RenderOptions, ChartMeta, ConfigMap, ApiError, absent, already_exists,
  HelmError, invalid_name, MapsApi, Engine, call,
}
use workspace_gateway.Helm.Apply.{apply_manifest, template}
use workspace_gateway.Helm.Proofs.Applying.{IsApart, apply_manifest-Keeps, delete_objects-Keeps}
use workspace_gateway.Helm.Proofs.Keeping.{
  IsSteady, Keeps-call, Keeps-outcome, put_head-Keeps, put_revision-Keeps, delete_name-Keeps,
}
use workspace_gateway.Helm.Records.{
  cm_name, last_of, prune_each, prune_history, put, put_revisions, migrate_legacy, load_revisions,
  with_history, record_revision_of, prune_one, record_last,
}
use workspace_gateway.Helm.Releases.{
  got, got_head, roll_target, get, next_release, rolled_release, clock, apply_templated, given,
  apply, roll_found, rollback, delete_names, delete_release_state, uninstall_found, uninstall,
}
use workspace_gateway.Roles.Labels.{valid_release_name}

module _ {S : Type 0} (api : MapsApi S) (P : S → Type 0) (steady : IsSteady api P) where
  listing-Keeps : (p : ConfigMap → Bool) → Keeps P (call (api.list_maps p))
  listing-Keeps p = Keeps-call _ (steady.listing p)

  prune_one-Keeps : (l : List ℕ) (name : Text) (n : Option ℕ) → Keeps P (prune_one api l name n)
  prune_one-Keeps l name none = Keeps-pure tt
  prune_one-Keeps l name (some n) =
      Keeps-if (any (◌==◌ n) l) _ _ (λ _. Keeps-pure tt) λ _. delete_name-Keeps api P steady name

  pub prune_each-Keeps : (l : List ℕ) (ms : List ConfigMap) → Keeps P (prune_each api l ms)
  unfolding prune_each
  prune_each-Keeps l [] = Keeps-pure tt
  prune_each-Keeps l (m ∷ ms) =
      Keeps-bind _ _ (prune_one-Keeps l m.name m.number) λ _. prune_each-Keeps l ms

  put_revisions-Keeps : (release : Text) (l : List Revision) → Keeps P (put_revisions api release l)
  unfolding put_revisions
  put_revisions-Keeps release [] = Keeps-pure tt
  put_revisions-Keeps release (rv ∷ l) =
      Keeps-bind _ _ (put_revision-Keeps api P steady release rv) λ _. put_revisions-Keeps release l

  load_revisions-Keeps : (release : Text) → Keeps P (load_revisions api release)
  unfolding load_revisions
  load_revisions-Keeps release = Keeps-bind _ _ (listing-Keeps _) λ _. Keeps-pure _

  delete_names-Keeps : (ms : List ConfigMap) → Keeps P (delete_names api ms)
  unfolding delete_names
  delete_names-Keeps [] = Keeps-pure tt
  delete_names-Keeps (m ∷ ms) =
      Keeps-bind _ _ (delete_name-Keeps api P steady m.name) λ _. delete_names-Keeps ms

  delete_release_state-Keeps : (release : Text) → Keeps P (delete_release_state api release)
  unfolding delete_release_state
  delete_release_state-Keeps release = Keeps-bind _ _ (listing-Keeps _) λ ms.
      Keeps-bind _ _ (delete_names-Keeps ms) λ _. delete_name-Keeps api P steady (cm_name release)

  module _ (history_max : ℕ) where
    pub prune_history-Keeps : (r : Release) → Keeps P (prune_history api history_max r)
    unfolding prune_history
    prune_history-Keeps r =
        Keeps-if (history_max == 0) _ _ (λ _. Keeps-pure tt)
          λ _. Keeps-bind _ _ (listing-Keeps _) (prune_each-Keeps _)

    pub put-Keeps : (r : Release) → Keeps P (put api history_max r)
    unfolding put
    put-Keeps r = Keeps-bind _ _ (put_head-Keeps api P steady r) λ _. prune_history-Keeps r

    migrate_legacy-Keeps : (r : Release) → Keeps P (migrate_legacy api history_max r)
    unfolding migrate_legacy
    migrate_legacy-Keeps r = Keeps-bind _ _ (put_revisions-Keeps r.name r.history) λ _. put-Keeps r

    with_history-Keeps :
        (release : Text) (r : Release) → Keeps P (with_history api history_max release r)
    unfolding with_history
    with_history-Keeps release r =
        Keeps-bind _ _
          (Keeps-if (null r.history) _ _ (λ _. Keeps-pure _)
            λ _. Keeps-attempt _ (migrate_legacy-Keeps r))
          λ _. Keeps-bind _ _ (load_revisions-Keeps release) λ _. Keeps-pure _

    record_last-Keeps :
        (r : Release) (rv : Option Revision) → Keeps P (record_last api history_max r rv)
    record_last-Keeps r none = Keeps-raise _
    record_last-Keeps r (some rv) =
        Keeps-bind _ _ (put_revision-Keeps api P steady r.name rv)
          λ _. Keeps-bind _ _ (put-Keeps r) λ _. Keeps-pure r

    pub record_revision_of-Keeps : (r : Release) → Keeps P (record_revision_of api history_max r)
    unfolding record_revision_of
    record_revision_of-Keeps r = record_last-Keeps r (last_of r.history)

    module _ {Doc : Type 0} (engine : Engine S Doc) (namespace : Text) where
      got-Keeps :
          (release : Text) (r : Result ApiError ConfigMap)
          → Keeps P (got api engine namespace history_max release r)
      got-Keeps release (err absent) = Keeps-pure none
      got-Keeps release (err already_exists) = Keeps-raise _
      got-Keeps release (err (ApiError.call_failed _)) = Keeps-raise _
      got-Keeps release (ok m) = got_head-Keeps m.head
        where
          got_head-Keeps :
              (head : Option Release)
              → Keeps P (got_head api engine namespace history_max release head)
          got_head-Keeps none = Keeps-raise _
          got_head-Keeps (some r) = with_history-Keeps release r

      pub get-Keeps : (release : Text) → Keeps P (get api engine namespace history_max release)
      unfolding get
      get-Keeps release = Keeps-bind _ _ (Keeps-outcome _ (steady.getting _)) (got-Keeps release)

      pub clock-Keeps : Keeps P (clock api engine namespace history_max)
      clock-Keeps = record { at = λ s p. p }

      pub given-Keeps :
          {A : Type 0} (r : Result HelmError A) → Keeps P (given api engine namespace history_max r)
      given-Keeps (ok a) = Keeps-pure a
      given-Keeps (err e) = Keeps-raise e

    module _ {Doc : Type 0} (engine : Engine S Doc) (namespace : Text)
        (apart : IsApart engine P) where
      applied-Keeps :
          (manifest release : Text) → Keeps P (apply_manifest engine namespace manifest release)
      applied-Keeps = apply_manifest-Keeps engine namespace apart

      apply_templated-Keeps :
          (o : RenderOptions) (creator session : Text) (t : Text × List Object × ChartMeta)
          → Keeps P (apply_templated api engine namespace history_max o creator session t)
      unfolding apply_templated
      apply_templated-Keeps o creator session t = Keeps-bind _ _ (applied-Keeps t.0 o.release) λ _.
          Keeps-bind _ _ (get-Keeps engine namespace o.release) λ found.
            Keeps-bind _ _ (clock-Keeps engine namespace) λ time.
              record_revision_of-Keeps
                (next_release api engine namespace history_max o creator session t found time)

      pub apply-Keeps :
          (chart_dir : Text) (o : RenderOptions) (creator session : Text)
          → Keeps P (apply api engine namespace history_max chart_dir o creator session)
      unfolding apply
      apply-Keeps chart_dir o creator session =
          Keeps-require (valid_release_name o.release) invalid_name _ λ _.
            Keeps-bind _ _ (given-Keeps engine namespace (template engine namespace chart_dir o))
              (apply_templated-Keeps o creator session)

      roll_target-Keeps :
          (release : Text) (revision : ℕ) (cur : Release) (rv : Option Revision)
          → Keeps P (roll_target api engine namespace history_max release revision cur rv)
      roll_target-Keeps release revision cur none = Keeps-raise _
      roll_target-Keeps release revision cur (some rv) =
          Keeps-bind _ _ (applied-Keeps rv.manifest release) λ _.
            Keeps-bind _ _ (clock-Keeps engine namespace) λ time.
              record_revision_of-Keeps (rolled_release api engine namespace history_max cur rv time)

      roll_found-Keeps :
          (release : Text) (revision : ℕ) (cur : Option Release)
          → Keeps P (roll_found api engine namespace history_max release revision cur)
      roll_found-Keeps release revision none = Keeps-raise _
      roll_found-Keeps release revision (some cur) = roll_target-Keeps release revision cur _

      pub rollback-Keeps :
          (release : Text) (revision : ℕ)
          → Keeps P (rollback api engine namespace history_max release revision)
      unfolding rollback
      rollback-Keeps release revision =
          Keeps-bind _ _ (get-Keeps engine namespace release) (roll_found-Keeps release revision)

      uninstall_found-Keeps :
          (release : Text) (cur : Option Release)
          → Keeps P (uninstall_found api engine namespace history_max release cur)
      uninstall_found-Keeps release none = Keeps-pure false
      uninstall_found-Keeps release (some cur) =
          Keeps-bind _ _ (delete_objects-Keeps engine namespace apart _)
            λ _. Keeps-bind _ _ (delete_release_state-Keeps release) λ _. Keeps-pure true

      pub uninstall-Keeps :
          (release : Text) → Keeps P (uninstall api engine namespace history_max release)
      unfolding uninstall
      uninstall-Keeps release =
          Keeps-bind _ _ (get-Keeps engine namespace release) (uninstall_found-Keeps release)
