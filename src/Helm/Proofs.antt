-- ===== src/Helm/Proofs.antt =====
-- What the operations on releases of internal/helmmgr keep and leave behind.
pub mod Keeping
pub mod Applying
pub mod Lifecycle
pub mod Names
pub mod Bounds
pub mod Pruned
pub mod Capped
pub mod Stored
pub mod Recorded
pub mod Gone
pub mod Checked
pub mod Allowed
pub mod Reliable
pub mod Spelled
pub mod Steady
