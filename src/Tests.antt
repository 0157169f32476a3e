-- ===== src/Tests.antt =====
-- Runs of the program's parts on concrete inputs.
pub mod Config
pub mod Requests
pub mod System
pub mod Executor
pub mod Forwarding
pub mod Metrics
pub mod Shutdown
pub mod Handlers
pub mod Watchdog
