-- ===== src/Watchdog/Health/Laws.antt =====
-- The answer of the health endpoint.
use of_watchdog.Prelude.{arith, eq_iff, none, some, ◌↔◌, ◌≡◌, ◌≢◌}
use of_watchdog.Go.Http.{Request, Writer, write_header, write, status}
use of_watchdog.Watchdog.Lock.{World}
use of_watchdog.Watchdog.Lock.Laws.{IsUp}
use of_watchdog.Watchdog.Health.{health_handler}

module _ (s : World) (w : Writer) (r : Request) (unsent : w.sent ≡ none) where
  -- The status is 200 exactly for a GET of a service that is up, 503 exactly for a GET of one that
  -- is not, and 405 exactly for any other method.
  pub health_handler-status :
      ((status (health_handler s w r) ≡ some 200) ↔ ((r.method ≡ "GET") × IsUp s))
      × ((status (health_handler s w r) ≡ some 503) ↔ ((r.method ≡ "GET") × (¬ IsUp s)))
      × ((status (health_handler s w r) ≡ some 405) ↔ (r.method ≢ "GET"))
  unfolding health_handler write_header write
  health_handler-status = ground (arith, eq_iff r.method "GET")
