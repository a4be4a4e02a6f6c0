-- ===== src/Services.antt =====
-- internal/servicesmgr: the deployment of a service, its scale and its volumes (services.go), rollout
-- history and rollback (rollback.go), and readiness of a deployment (wait.go).
pub mod Rollback
pub mod Target
pub mod Readiness
pub mod Waiting
pub mod Api
pub mod Scaling
pub mod Resumed
pub mod Volumes
pub mod Deploying
pub mod Tenants
pub mod Mounted
