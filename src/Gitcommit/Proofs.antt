-- ===== src/Gitcommit/Proofs.antt =====
-- What the operations of internal/gitcommit/gitcommit.go keep and leave behind.
pub mod Legal
pub mod Cached
pub mod Staged
pub mod Counted
