-- ===== src/Metrics/Server.antt =====
-- metrics/metrics.go, MetricsServer.
use of_watchdog.Prelude.{String, pos, ℕ, ℤ, ◌^◌}
use of_watchdog.Go.Http.{Error}
use of_watchdog.Config.Values.{Duration}

-- The settings of the server's `http.Server`, whose only route is /metrics.
pub record MetricsServer : Type 0 where
  pub port : ℤ
  pub read_timeout : Duration
  pub write_timeout : Duration
  pub max_header_bytes : ℕ
  pub route : String

unfoldable pub register : ℤ → MetricsServer
register metrics_port = record {
  port = metrics_port;
  read_timeout = pos 500_000_000;
  write_timeout = pos 500_000_000;
  max_header_bytes = 2 ^ 20;
  route = "/metrics";
}

-- What happens to the server's two goroutines: `ListenAndServe` ends, or the channel is signalled.
pub data Event : Type 0 where
  server_closed : Event
  listen_failed : Error → Event
  cancel : Event

pub data Status : Type 0 where
  serving : Status
  shutting_down : Status
  stopped : Status
  panicked : Error → Status

-- `Serve`: a failure to listen is a panic of the whole process.
unfoldable pub serve : Status → Event → Status
serve (panicked e) _ = panicked e
serve _ (listen_failed e) = panicked e
serve _ server_closed = stopped
serve stopped cancel = stopped
serve _ cancel = shutting_down
