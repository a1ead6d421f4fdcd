-- ===== src/Timer.antt =====
-- timer/: the periodic jobs.
pub mod Checks
pub mod Expiry
