-- ===== src/Tests/Shutdown.antt =====
-- The shutdown, the endpoints while it goes on, and the process of the HTTP mode beside it.
use of_watchdog.Prelude.{arith, false, none, pos, refl, some, true, ◌↔◌, ◌≡◌, ◌≢◌, ◌⊎◌}
use of_watchdog.Go.Http.{Error}
use of_watchdog.Executor.Base.{handled_status}
use of_watchdog.Watchdog.Lock.Laws.{IsUp}
use of_watchdog.Watchdog.Shutdown.{
  State, init, Reach, here, next, write_lock, accept, receive, clear_flag, no_lock, flagged,
  draining, accepting,
}
use of_watchdog.Watchdog.Shutdown.Ends.{Ends, Reach-Ends}
use of_watchdog.Watchdog.Shutdown.Races.{suppressed-IsUp_iff, IsUp-while_draining}
use of_watchdog.Watchdog.Start.{endpoint}
use of_watchdog.Tests.Requests.{writer}
use of_watchdog.Tests.System.{no_content, new_request, config, settings}
use of_watchdog.Watchdog.Shutdown.{
  listening, returned, closed, stopped, stamp, remove_fails, tick, shutdown, drained, close, return,
}
use of_watchdog.Watchdog.Shutdown.Drains.{returned_when_drained, hijacked_cut_off}
use of_watchdog.Watchdog.Shutdown.{gave_up, failed}
use of_watchdog.Metrics.Http.{new_http, record_watchdog_ready}
use of_watchdog.Watchdog.Child
use of_watchdog.Watchdog.Child.Laws.{ended_only_by_error}
use of_watchdog.Watchdog.Child.Deaths.{ready, Reach-ready, IsKilled, IsKilled-while_serving}
use of_watchdog.Watchdog.Start.{Serving, serving_of, serve_request}
use of_watchdog.Watchdog.Start.Draining.{IsDrained-serve_request}
use of_watchdog.Tests.Requests.{probe}

-- A signal after the service was marked as ready.
abbrev stopping : State
stopping = record (init false true) {
  world = record { accepting_connections = 0; lock_file = true; readable = true };
  main = accepting;
  signal = flagged;
}

Reach-stopping : Reach settings (init false true) stopping
Reach-stopping =
    next
      (next
        (next (next here (write_lock refl refl refl) (omega arith)) (accept refl refl)
          (omega arith))
        (receive refl refl) (omega arith))
      (clear_flag refl refl) (omega arith)

Reach-Ends_example : Ends settings stopping
Reach-Ends_example = Reach-Ends settings false true stopping refl Reach-stopping (omega arith)

-- The signal has come, nothing was in progress, and the caller has returned.
abbrev finished : State
finished = record (init false true) {
  world = record { accepting_connections = 0; lock_file = true; readable = true };
  main = returned;
  signal = closed;
  server = stopped;
  closes = 1;
  metrics = record_watchdog_ready 5 new_http;
}

Reach-finished : Reach settings (init false true) finished
unfolding new_http
Reach-finished =
    let waiting =
      next
        (next
          (next
            (next
              (next (next Reach-stopping (stamp 5 refl refl) (omega arith)) (remove_fails refl refl)
                (omega arith))
              (tick refl refl refl) (omega arith))
            (shutdown refl refl) (omega arith))
          (drained refl refl refl) (omega arith))
        (close refl refl) (omega arith) in
    next waiting (return refl (omega arith) refl) (omega arith)

returned_when_drained_example :
    (finished.main ≡ gave_up)
    ⊎ (finished.server ≡ failed)
    ⊎ (finished.active ≡ 0)
    ⊎ (finished.expired ≡ true)
returned_when_drained_example =
    returned_when_drained settings false true finished Reach-finished refl

hijacked_cut_off_example :
    (s : State) × Reach settings (init false true) s
    × (s.main ≡ returned)
    × (s.server ≡ stopped)
    × (s.hijacked ≡ 1)
    × (s.expired ≡ false)
hijacked_cut_off_example = hijacked_cut_off settings false true refl refl

abbrev unlocked : State
unlocked = record (init false true) {
  world = record { accepting_connections = 1; lock_file = false; readable = true };
  main = accepting;
}

suppressed-IsUp_iff_example :
    IsUp unlocked.world ↔ ((unlocked.world.accepting_connections ≢ 0) × (true ≡ false))
suppressed-IsUp_iff_example =
    suppressed-IsUp_iff (record settings { suppress_lock = true }) true unlocked refl
      (next here (no_lock refl refl refl) (omega arith))

IsUp-while_draining_example :
    (s : State) × Reach settings (init false true) s × (s.signal ≡ draining) × IsUp s.world
IsUp-while_draining_example = IsUp-while_draining settings false refl refl

-- What the watchdog serves with these settings.
abbrev serving : Serving
serving =
    serving_of (record config { healthcheck_interval = pos 5_000_000_000 }) none
      (record { root = no_content; readiness_handler = no_content; has_limiter = false })

IsDrained-serve_request_example :
    handled_status (serve_request new_request serving stopping.world false writer probe) ≡ some 503
unfolding serving_of endpoint
IsDrained-serve_request_example =
    IsDrained-serve_request new_request serving false true stopping false writer probe
      Reach-stopping refl refl refl refl

-- The process has ended by itself after the service was marked as ready, and is reported as up.
abbrev bare : Child.State
bare = record (ready false) { child = Child.exited none }

Reach-bare : Child.Reach settings (Child.init none false true) bare
Reach-bare =
    Child.next (Reach-ready settings false refl) (Child.child_exits none refl refl) refl
      (omega arith)

ended_only_by_error_example :
    ((bare.alive ≡ true) ⊎ ((e : Error) × (bare.child ≡ Child.exited (some e))))
    × ((bare.terminated ≡ true) ⊎ ((bare.forwarded ≡ false) × (bare.shutdown.signal ≡ listening)))
ended_only_by_error_example = ended_only_by_error settings none false true bare Reach-bare

IsKilled-while_serving_example :
    (s : Child.State) × Child.Reach settings (Child.init none false true) s
    × IsKilled settings false refl "signal: terminated" s
IsKilled-while_serving_example = IsKilled-while_serving settings false refl "signal: terminated"
