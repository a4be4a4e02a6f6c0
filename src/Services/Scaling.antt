-- ===== src/Services/Scaling.antt =====
-- internal/servicesmgr/services.go: pausing, resuming and scaling a service. What they return is read by
-- `Get` behind them.
use workspace_gateway.Base.{ℕ, Option, none, some, if◌then◌else◌, ltb, Text}
use workspace_gateway.Base.Exec.{Exec, ◌>>=◌}
use workspace_gateway.Services.Api.{Deployment, ServiceError, Cluster}

abbrev pub or_zero : Option ℕ → ℕ
or_zero none = 0
or_zero (some n) = n

abbrev pub at_least_one : ℕ → ℕ
at_least_one n = if ltb n 1 then 1 else n

-- The annotation that a pause leaves: an earlier one stays.
abbrev pub remembered : Deployment → Option (Option ℕ) → Option (Option ℕ)
remembered d none = some (some (at_least_one (or_zero d.replicas)))
remembered d (some before) = some before

-- The replicas that a resume sets.
abbrev pub restored : Option (Option ℕ) → ℕ
restored none = 1
restored (some none) = 1
restored (some (some n)) = at_least_one n

module _ {S : Type 0} (cluster : Cluster S) where
  -- `Pause`
  unfoldable pub pause : Text → Exec ServiceError S (Unit {0})
  unfolding ◌>>=◌
  pause name = do
    d ← cluster.get_deployment name
    cluster.update_deployment (record d { replicas = some 0; paused = remembered d d.paused })

  -- `Resume`
  unfoldable pub resume_service : Text → Exec ServiceError S (Unit {0})
  unfolding ◌>>=◌
  resume_service name = do
    d ← cluster.get_deployment name
    cluster.update_deployment (record d { replicas = some (restored d.paused); paused = none })

  -- `Scale`; a count is never negative here.
  unfoldable pub scale : Text → ℕ → Exec ServiceError S (Unit {0})
  unfolding ◌>>=◌
  scale name replicas = do
    d ← cluster.get_deployment name
    cluster.update_deployment (record d { replicas = some replicas; paused = none })
