-- ===== src/Executor/HttpRunner.antt =====
-- executor/http_runner.go: requests forwarded to a process that serves HTTP.
pub mod Headers
pub mod Timeout
pub mod Run
pub mod Start
