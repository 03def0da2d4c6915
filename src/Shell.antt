-- ===== src/Shell.antt =====
-- The shell of shell/.
pub mod Exec
pub mod Parsing
pub mod Session
mod Tests
