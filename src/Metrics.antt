-- ===== src/Metrics.antt =====
-- The package metrics: the counters of requests and the server that shows them.
pub mod Http
pub mod Server
pub mod Wrapping
pub mod Instrument
