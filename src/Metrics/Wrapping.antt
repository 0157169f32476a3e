-- ===== src/Metrics/Wrapping.antt =====
-- metrics/metrics.go, InstrumentHandler, as a wrapper around a handler; what it does to the metrics is
-- in Metrics.Instrument.
use of_watchdog.Executor.Base.{Handler}

-- `promhttp.InstrumentHandlerCounter` and `promhttp.InstrumentHandlerDuration`, for the collectors
-- that they are given.
pub record Promhttp : Type 0 where
  pub handler_counter : Handler → Handler
  pub handler_duration : Handler → Handler

unfoldable pub instrument_handler : Promhttp → Handler → Handler
instrument_handler p next = p.handler_counter (p.handler_duration next)
