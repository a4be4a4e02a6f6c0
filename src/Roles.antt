-- ===== src/Roles.antt =====
-- internal/roles: the roles with their whitelists (Tools), the names of sessions (Names) and what
-- is proved of both.
pub mod Tools
pub mod Names
pub mod Policy
pub mod Sessions
pub mod Labels
