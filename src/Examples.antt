-- ===== src/Examples.antt =====
-- Concrete inputs on which the theorems are applied: a deployment whose services answer, one with a
-- repository of another tenant, files of a merge, and a cluster held in lists.
pub mod Deployment
pub mod Requests
pub mod Data
pub mod Cluster
pub mod Commits
pub mod Tenants
pub mod Memory
pub mod Releases
pub mod Sessions
pub mod Boxes
