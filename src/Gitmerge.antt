-- ===== src/Gitmerge.antt =====
-- internal/gitmerge: integrating a base branch into a feature branch. Marker renders conflicts,
-- Merge decides one path, Sync is the whole operation over a repository.
pub mod Marker
pub mod Merge
pub mod Outcome
pub mod Sync
pub mod Worktree
