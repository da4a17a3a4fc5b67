-- ===== src/Cliutil.antt =====
-- internal/cliutil: helpers that the commands share.
pub mod Limiter
pub mod Wait
pub mod Fanout
