-- ===== src/Executor.antt =====
-- The package executor: the runners of a function, one for each mode.
pub mod Base
pub mod Logging
pub mod Pipe
pub mod Serializing
pub mod Streaming
pub mod Inproc
pub mod HttpRunner
