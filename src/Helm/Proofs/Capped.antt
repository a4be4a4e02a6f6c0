-- ===== src/Helm/Proofs/Capped.antt =====
-- `Apply` and `Rollback` of internal/helmmgr/helmmgr.go leave at most `historyMax` revisions stored.
use workspace_gateway.Base.{
  ℕ, ◌≤◌, ◌<◌, true, List, [], Option, none, some, ◌≡◌, sym, subst, arith, all, keep, Text, ◌==◌,
  Result, ok, err,
}
use workspace_gateway.Base.Exec.{◌>>=◌, Keeps}
use workspace_gateway.Base.Leaves.{
  Leaves, Leaves-pure, Leaves-raise, Leaves-if, Leaves-bind, Leaves-behind, Leaves-with,
  Leaves-weaken, Leaves-require,
}
use workspace_gateway.Base.Table.{count_rows}
use workspace_gateway.Helm.Api.{
  Object, ChartMeta, HelmError, Revision, Release, RenderOptions, invalid_name, body_of, MapsApi,
  IsMapsApi, Engine,
}
use workspace_gateway.Helm.Apply.{apply_manifest, template}
use workspace_gateway.Helm.Proofs.Bounds.{is_pending, prune_each-Leaves, length-newest_numbers}
use workspace_gateway.Helm.Proofs.Keeping.{OnMaps, steady_of, put_head-Keeps, put_revision-Keeps}
use workspace_gateway.Helm.Proofs.Applying.{IsApart, apply_manifest-Keeps}
use workspace_gateway.Helm.Proofs.Lifecycle.{prune_each-Keeps, get-Keeps, clock-Keeps}
use workspace_gateway.Helm.Proofs.Names.{IsWellFormed, kept_IsWellFormed}
use workspace_gateway.Helm.Proofs.Pruned.{list_maps-Leaves, count_bodies, all_found}
use workspace_gateway.Helm.Records.{
  newest_numbers, numbers, prune_history, put, last_of, record_last, record_revision_of,
}
use workspace_gateway.Helm.Releases.{
  get, clock, next_release, rolled_release, given, apply_templated, apply, roll_target, roll_found,
  rollback,
}
use workspace_gateway.Roles.Labels.{valid_release_name}

module _ {S : Type 0} (api : MapsApi S) (lawful : IsMapsApi api) (history_max : ℕ)
    (capped : 0 < history_max) where
  -- At most `historyMax` bodies of the release are stored.
  abbrev pub IsCapped : Text → S → Type 0
  IsCapped release s = count_rows (body_of release) (api.maps s) ≤ history_max

  prune_history-IsCapped :
      (r : Release)
      → Leaves (OnMaps api IsWellFormed) (λ _. IsCapped r.name) (prune_history api history_max r)
  unfolding prune_history
  prune_history-IsCapped r =
      Leaves-if (history_max == 0) _ _ (λ z. absurd (not_zero z))
        λ _. Leaves-bind _ _ _ _ (list_maps-Leaves api lawful IsWellFormed (body_of r.name)) λ ms.
          Leaves-weaken (λ s. IsWellFormed (api.maps s) × (ms ≡ keep (body_of r.name) (api.maps s)))
            (λ _ s.
              IsWellFormed (api.maps s) × (all (is_pending r.name kept []) (api.maps s) ≡ true))
            _ _
            (λ s (w, e). (
              w,
              subst (λ l. all (is_pending r.name kept l) (api.maps s) ≡ true) (sym e)
                  (all_found r.name kept (api.maps s) w),
            ))
            (λ _ s (w, t). omega (
              arith,
              count_bodies r.name kept (api.maps s) w t,
              length-newest_numbers history_max (numbers r.history),
            ))
            (Leaves-with (OnMaps api IsWellFormed) _ _
              (prune_each-Keeps api (OnMaps api IsWellFormed)
                (steady_of api lawful IsWellFormed kept_IsWellFormed) kept ms)
              (prune_each-Leaves r.name kept api lawful ms))
    where
      kept : List ℕ
      kept = newest_numbers history_max (numbers r.history)

      not_zero : history_max == 0 ≡ true → ⊥
      not_zero z = ground (arith, capped, z)

  put-IsCapped :
      (r : Release)
      → Leaves (OnMaps api IsWellFormed) (λ _. IsCapped r.name) (put api history_max r)
  unfolding put
  put-IsCapped r =
      Leaves-behind _ _ _
        (put_head-Keeps api (OnMaps api IsWellFormed)
          (steady_of api lawful IsWellFormed kept_IsWellFormed) r)
        λ _. prune_history-IsCapped r

  record_last-IsCapped :
      (r : Release) (rv : Option Revision)
      → Leaves
          (OnMaps api IsWellFormed)
          (λ after. IsCapped after.name)
          (record_last api history_max r rv)
  record_last-IsCapped r none = Leaves-raise _
  record_last-IsCapped r (some rv) =
      Leaves-behind _ _ _
        (put_revision-Keeps api (OnMaps api IsWellFormed)
          (steady_of api lawful IsWellFormed kept_IsWellFormed) r.name rv)
        λ _. Leaves-bind (λ _. IsCapped r.name) _ _ _ (put-IsCapped r) λ _. Leaves-pure r λ s c. c

  record_revision_of-IsCapped :
      (r : Release)
      → Leaves
          (OnMaps api IsWellFormed)
          (λ after. IsCapped after.name)
          (record_revision_of api history_max r)
  unfolding record_revision_of
  record_revision_of-IsCapped r = record_last-IsCapped r (last_of r.history)

  module _ {Doc : Type 0} (engine : Engine S Doc) (namespace : Text)
      (apart : IsApart engine (OnMaps api IsWellFormed)) where
    applying :
        (manifest release : Text)
        → Keeps (OnMaps api IsWellFormed) (apply_manifest engine namespace manifest release)
    applying = apply_manifest-Keeps engine namespace apart

    getting :
        (release : Text)
        → Keeps (OnMaps api IsWellFormed) (get api engine namespace history_max release)
    getting =
        get-Keeps api (OnMaps api IsWellFormed)
          (steady_of api lawful IsWellFormed kept_IsWellFormed) history_max engine namespace

    reading : Keeps (OnMaps api IsWellFormed) (clock api engine namespace history_max)
    reading =
        clock-Keeps api (OnMaps api IsWellFormed)
          (steady_of api lawful IsWellFormed kept_IsWellFormed) history_max engine namespace

    apply_templated-IsCapped :
        (o : RenderOptions) (creator session : Text) (t : Text × List Object × ChartMeta)
        → Leaves
            (OnMaps api IsWellFormed)
            (λ after. IsCapped after.name)
            (apply_templated api engine namespace history_max o creator session t)
    unfolding apply_templated
    apply_templated-IsCapped o creator session t = Leaves-behind _ _ _ (applying t.0 o.release) λ _.
        Leaves-behind _ _ _ (getting o.release) λ found. Leaves-behind _ _ _ reading λ time.
          record_revision_of-IsCapped
            (next_release api engine namespace history_max o creator session t found time)

    given-IsCapped :
        (o : RenderOptions) (creator session : Text)
        (t : Result HelmError (Text × List Object × ChartMeta))
        → Leaves
            (OnMaps api IsWellFormed)
            (λ after. IsCapped after.name)
            (given api engine namespace history_max t
              >>= apply_templated api engine namespace history_max o creator session)
    unfolding ◌>>=◌
    given-IsCapped o creator session (ok t) = record {
      holds = λ s p. (apply_templated-IsCapped o creator session t).holds s p;
    }
    given-IsCapped o creator session (err e) = record { holds = λ s p. tt }

    -- With a `historyMax` above 0, in a cluster where ConfigMap names are held once and revision
    -- bodies are named by their release and number, and where what the dynamic client does keeps
    -- that: an `Apply` that returns a release leaves at most `historyMax` revision bodies of it, and
    -- so does a `Rollback`, whatever calls failed before.
    pub apply-IsCapped :
        (chart_dir : Text) (o : RenderOptions) (creator session release : Text) (revision : ℕ)
        → Leaves
            (OnMaps api IsWellFormed)
            (λ after. IsCapped after.name)
            (apply api engine namespace history_max chart_dir o creator session)
          × Leaves
              (OnMaps api IsWellFormed)
              (λ after. IsCapped after.name)
              (rollback api engine namespace history_max release revision)
    unfolding apply rollback
    apply-IsCapped chart_dir o creator session release revision = (
      Leaves-require (valid_release_name o.release) invalid_name _ _
          (given-IsCapped o creator session (template engine namespace chart_dir o)),
      Leaves-behind _ _ _ (getting release) roll_found-IsCapped,
    )
      where
        roll_target-IsCapped :
            (cur : Release) (rv : Option Revision)
            → Leaves
                (OnMaps api IsWellFormed)
                (λ after. IsCapped after.name)
                (roll_target api engine namespace history_max release revision cur rv)
        roll_target-IsCapped cur none = Leaves-raise _
        roll_target-IsCapped cur (some rv) = Leaves-behind _ _ _ (applying rv.manifest release) λ _.
            Leaves-behind _ _ _ reading λ time.
              record_revision_of-IsCapped
                (rolled_release api engine namespace history_max cur rv time)

        roll_found-IsCapped :
            (cur : Option Release)
            → Leaves
                (OnMaps api IsWellFormed)
                (λ after. IsCapped after.name)
                (roll_found api engine namespace history_max release revision cur)
        roll_found-IsCapped none = Leaves-raise _
        roll_found-IsCapped (some cur) = roll_target-IsCapped cur _
