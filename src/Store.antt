-- ===== src/Store.antt =====
-- internal/store: what the learn loop keeps, candidates and playbooks.
pub mod Db
pub mod Ends
pub mod Quiet
pub mod Playbooks
pub mod Candidates
