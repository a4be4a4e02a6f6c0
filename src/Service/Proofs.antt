-- ===== src/Service/Proofs.antt =====
-- Theorems on the handlers of Service.
pub mod Rules
pub mod Calls
pub mod Merging
pub mod Presets
pub mod MainBranch
pub mod Owners
pub mod Sharing
pub mod Orgs
pub mod Representative
pub mod Demolition
pub mod Repository
pub mod Submitting
pub mod Answers
pub mod Visible
pub mod Images
pub mod Isolation
pub mod Deployable
