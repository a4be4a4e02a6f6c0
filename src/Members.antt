-- ===== src/Members.antt =====
-- internal/members: the ownership tables (Store), and what is proved of them (Ownership, Submissions).
pub mod Store
pub mod Ownership
pub mod Records
