-- ===== src/Gitcommit.antt =====
-- internal/gitcommit: commits written for a session.
pub mod Git
pub mod Files
pub mod Staging
pub mod Cache
pub mod Proofs
pub mod Compare
