-- ===== src/Watchdog/Start/Draining.antt =====
-- The server while it drains: what its endpoints answer once the signal has come.
use of_watchdog.Prelude.{Bool, String, arith, eq_iff, false, none, refl, some, true, ◌≡◌, ◌⊎◌}
use of_watchdog.Go.Http.{Error, Request, Writer, write, write_header}
use of_watchdog.Executor.Base.{handled_status}
use of_watchdog.Watchdog.Lock.{World}
use of_watchdog.Watchdog.Lock.Laws.{IsUp}
use of_watchdog.Watchdog.Health.{health_handler}
use of_watchdog.Watchdog.Readiness.{serve_http}
use of_watchdog.Watchdog.Shutdown.{State, init, Reach}
use of_watchdog.Watchdog.Shutdown.Laws.{has_cleared, drained_is_down}
use of_watchdog.Watchdog.Start.{Endpoint, health, ready, function, endpoint, Serving, serve_request}

module _ (new_request : String → String → String → Request ⊎ Error) (v : Serving) (s : World)
    (met : Bool) (w : Writer) (r : Request) where
  -- A probe is answered with 503, and any other request by the function.
  abbrev pub IsDrained : Endpoint → Type 0
  IsDrained function = serve_request new_request v s met w r ≡ v.routes.root w r
  IsDrained probe = handled_status (serve_request new_request v s met w r) ≡ some 503

  down-IsDrained :
      (e : Endpoint)
      → endpoint r.path ≡ e
      → w.sent ≡ none
      → r.method ≡ "GET"
      → ¬ IsUp s
      → IsDrained e
  unfolding serve_request health_handler serve_http write_header write
  down-IsDrained health h unsent get down = ground (arith, eq_iff r.method "GET")
  down-IsDrained ready h unsent get down = ground (arith, eq_iff r.method "GET")
  down-IsDrained function h unsent get down = rw (h, serve_request)

-- A service whose signal came after it was marked as ready, and whose flag has been cleared, answers
-- a GET of /_/health and of /_/ready with 503, whatever the limiter and the function say, while a
-- GET of any other path still goes to the function.
pub IsDrained-serve_request :
    (new_request : String → String → String → Request ⊎ Error) (v : Serving)
    (lock_file readable : Bool) (t : State) (met : Bool) (w : Writer) (r : Request)
    → Reach v.settings (init lock_file readable) t
    → has_cleared t.signal ≡ true
    → t.early ≡ false
    → w.sent ≡ none
    → r.method ≡ "GET"
    → IsDrained new_request v t.world met w r (endpoint r.path)
IsDrained-serve_request new_request v lock_file readable t met w r reach cleared late unsent get =
    down-IsDrained new_request v t.world met w r (endpoint r.path) refl unsent get
      (drained_is_down v.settings lock_file readable t reach cleared late)
