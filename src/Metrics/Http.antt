-- ===== src/Metrics/Http.antt =====
-- metrics/http.go: the metrics of the HTTP server.
use of_watchdog.Prelude.{Bool, List, String, [], false, if◌then◌else◌, true, ℕ, ◌++◌, ◌==◌, ◌∷◌}
use of_watchdog.Config.Values.{Duration}

-- A request as the counters label it: its status code and its method.
abbrev pub Label : Type 0
Label = ℕ × String

-- The counter and the histogram are what they were given, in order. The gauge is a number of
-- requests: it is taken up by one before it is taken down by one. A `uint32` holds 0 or 1.
pub record Http : Type 0 where
  pub requests_total : List Label
  pub request_duration_histogram : List Label
  pub in_flight : ℕ
  pub watchdog_ready_timestamp : ℕ
  pub first_request_duration_histogram : List Duration
  pub first_request_recorded : ℕ

unfoldable pub new_http : Http
new_http = record {
  requests_total = [];
  request_duration_histogram = [];
  in_flight = 0;
  watchdog_ready_timestamp = 0;
  first_request_duration_histogram = [];
  first_request_recorded = 0;
}

-- The time in nanoseconds; the source shows it in seconds.
unfoldable pub record_watchdog_ready : ℕ → Http → Http
record_watchdog_ready now h = record h { watchdog_ready_timestamp = now }

-- `atomic.CompareAndSwapUint32(&h.firstRequestRecorded, 0, 1)`.
unfoldable pub try_mark_first_request : Http → Http × Bool
try_mark_first_request h =
    if h.first_request_recorded == 0
    then (record h { first_request_recorded = 1 }, true)
    else (h, false)

unfoldable pub observe_first_request_duration : Duration → Http → Http
observe_first_request_duration duration h = record h {
  first_request_duration_histogram = h.first_request_duration_histogram ++ duration ∷ [];
}
