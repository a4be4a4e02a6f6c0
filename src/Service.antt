-- ===== src/Service.antt =====
-- internal/workspacesvc: the gateway's handlers. Env is what they ask of the agent, Forgejo, the
-- cluster and the database; the other modules are a group of handlers each, with the proofs below.
pub mod Env
pub mod Tenant
pub mod Access
pub mod Claims
pub mod Sessions
pub mod Removal
pub mod Requests
pub mod Sandboxes
pub mod Ports
pub mod Proofs
