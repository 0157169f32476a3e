-- ===== src/Watchdog/Health.antt =====
-- pkg/watchdog.go, makeHealthHandler: GET /_/health.
pub mod Laws
use of_watchdog.Prelude.{Bool, List, [], if◌then◌else◌, not, str_eq, ℕ, ◌==◌, ◌||◌, ◌∷◌}
use of_watchdog.Go.Http.{Request, Writer, write_header, write}
use of_watchdog.Watchdog.Lock.{World, lock_file_present}

abbrev pub ok_body : List ℕ
ok_body = 79 ∷ 75 ∷ []

-- `atomic.LoadInt32(&acceptingConnections) == 0 || lockPresent() == false`.
abbrev pub unavailable : World → Bool
unavailable s = s.accepting_connections == 0 || not (lock_file_present s)

unfoldable pub health_handler : World → Writer → Request → Writer
health_handler s w r =
    if str_eq r.method "GET"
    then (if unavailable s then write_header w 503 else write (write_header w 200) ok_body)
    else write_header w 405
