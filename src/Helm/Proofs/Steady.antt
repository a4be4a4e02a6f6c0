-- ===== src/Helm/Proofs/Steady.antt =====
-- Every operation on releases of internal/helmmgr/helmmgr.go keeps the names of the ConfigMaps apart.
use workspace_gateway.Base.{ℕ, Text}
use workspace_gateway.Base.Exec.{Keeps}
use workspace_gateway.Helm.Api.{RenderOptions, MapsApi, IsMapsApi, Engine}
use workspace_gateway.Helm.Proofs.Keeping.{OnMaps, steady_of, IsSteady}
use workspace_gateway.Helm.Proofs.Applying.{IsApart}
use workspace_gateway.Helm.Proofs.Lifecycle.{
  get-Keeps, apply-Keeps, rollback-Keeps, uninstall-Keeps,
}
use workspace_gateway.Helm.Proofs.Spelled.{IsNumbered, kept_IsNumbered}
use workspace_gateway.Helm.Releases.{get, apply, rollback, uninstall}

-- No two ConfigMaps have the same name, and the name of a revision body is `helm-release-rev-`, its
-- release, `-v` and decimal digits that stand for its number: where what the dynamic client does keeps
-- that, `Get`, `Apply`, `Rollback` and `Uninstall` keep it, on every branch, failed calls included.
pub apply-IsNumbered :
    {S Doc : Type 0} (api : MapsApi S) (engine : Engine S Doc) (namespace : Text) (history_max : ℕ)
    (chart_dir : Text) (o : RenderOptions) (creator session release : Text) (revision : ℕ)
    → IsMapsApi api
    → IsApart engine (OnMaps api IsNumbered)
    → Keeps (OnMaps api IsNumbered) (get api engine namespace history_max release)
      × Keeps
          (OnMaps api IsNumbered)
          (apply api engine namespace history_max chart_dir o creator session)
      × Keeps (OnMaps api IsNumbered) (rollback api engine namespace history_max release revision)
      × Keeps (OnMaps api IsNumbered) (uninstall api engine namespace history_max release)
apply-IsNumbered api engine namespace history_max chart_dir o creator session release revision
      lawful apart =
    let steady : IsSteady api (OnMaps api IsNumbered) =
      steady_of api lawful IsNumbered kept_IsNumbered in
    (
      get-Keeps api (OnMaps api IsNumbered) steady history_max engine namespace release,
      apply-Keeps api (OnMaps api IsNumbered) steady history_max engine namespace apart chart_dir o
          creator session,
      rollback-Keeps api (OnMaps api IsNumbered) steady history_max engine namespace apart release
          revision,
      uninstall-Keeps api (OnMaps api IsNumbered) steady history_max engine namespace apart release,
    )
