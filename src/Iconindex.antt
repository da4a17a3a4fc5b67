-- ===== src/Iconindex.antt =====
-- The package internal/iconindex: the local mirror of the icon corpus and its queries.
pub mod Collection
pub mod Db
pub mod Replace
pub mod Sets
pub mod Build
pub mod Query
pub mod Coverage
pub mod Snapshot
