-- ===== src/Cli.antt =====
-- internal/cli: the logic of the commands.
pub mod Diff
