-- ===== src/Watchdog.antt =====
-- The package pkg: the watchdog itself.
pub mod Counter
pub mod Environment
pub mod Lock
pub mod Health
pub mod Readiness
pub mod Shutdown
pub mod Child
pub mod Handlers
pub mod Start
