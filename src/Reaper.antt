-- ===== src/Reaper.antt =====
-- internal/sandboxreaper/reaper.go: which sandboxes a sweep deletes. The cluster and the sandbox worker
-- are parameters.
pub mod Sweep
pub mod Idle
