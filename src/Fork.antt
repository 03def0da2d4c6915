-- ===== src/Fork.antt =====
-- The programs of fork/.
pub mod Primes
pub mod Xargs
mod Tests
