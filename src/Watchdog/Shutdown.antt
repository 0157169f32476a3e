-- ===== src/Watchdog/Shutdown.antt =====
-- pkg/watchdog.go, listenUntilShutdown: the goroutine that waits for SIGTERM, the goroutine that
-- serves, and the caller, as three threads that share the world and a channel.
pub mod Closing
pub mod Drains
pub mod Ends
pub mod Laws
pub mod Races
pub mod Stuck
use of_watchdog.Prelude.{Bool, false, is_positive, not, true, ℕ, ◌+◌, ◌<◌, ◌≡◌}
use of_watchdog.Config.Values.{Duration}
use of_watchdog.Metrics.Http.{Http, new_http, record_watchdog_ready}
use of_watchdog.Watchdog.Lock.{World, store}

-- The parameters that it reads: whether the lock file is suppressed, and how long the load balancer
-- is given to see that the service is going down.
pub record Settings : Type 0 where
  pub suppress_lock : Bool
  pub healthcheck_interval : Duration

-- The caller: before the lock file, after writing it, after setting the flag, waiting for the
-- channel, returned, or returned with the error of the lock file.
pub data Main : Type 0 where
  preparing : Main
  written : Main
  accepting : Main
  waiting : Main
  returned : Main
  gave_up : Main

-- The goroutine of the signal, after each of its statements; `shutting` is inside `Shutdown`.
pub data Signal : Type 0 where
  listening : Signal
  signalled : Signal
  flagged : Signal
  removed : Signal
  draining : Signal
  shutting : Signal
  shut : Signal
  closed : Signal

-- The goroutine of `ListenAndServe`.
pub data Server : Type 0 where
  serving : Server
  stopped : Server
  failed : Server

-- `closes` counts the calls of `close(idleConnsClosed)`, the second of which is a panic. `early`
-- remembers whether the signal came before the caller had marked the service as ready. `active`
-- counts the connections with a request in progress but for those that were hijacked, which
-- `hijacked` counts (the reverse proxy hijacks the connection of a WebSocket), and `expired` says that the time limit of
-- `Shutdown` has run out.
pub record State : Type 0 where
  pub world : World
  pub main : Main
  pub signal : Signal
  pub server : Server
  pub closes : ℕ
  pub early : Bool
  pub metrics : Http
  pub active : ℕ
  pub hijacked : ℕ
  pub expired : Bool

-- The caller has set the flag.
abbrev pub is_ready : Main → Bool
is_ready accepting = true
is_ready waiting = true
is_ready returned = true
is_ready _ = false

-- `Shutdown` makes `ListenAndServe` return.
abbrev pub stop : Server → Server
stop serving = stopped
stop other = other

-- `<-time.Tick(interval)` waits for the interval; for one of 0 or less `time.Tick` returns a nil
-- channel, from which nothing is ever received. `receive` is the signal or, as well, the end of the
-- context, which the source treats alike. `Shutdown` first stops the listener, which makes
-- `ListenAndServe` return, and then waits until no request is in progress, those on hijacked
-- connections aside, or its context, of
-- `writeTimeout`, has ended; its error is only logged.
pub data Step (c : Settings) (s t : State) : Type 0 where
  write_lock :
      c.suppress_lock ≡ false
      → s.main ≡ preparing
      → t ≡ record s { main = written; world = record (s.world) { lock_file = true } }
      → Step c s t
  lock_fails :
      c.suppress_lock ≡ false → s.main ≡ preparing → t ≡ record s { main = gave_up } → Step c s t
  accept :
      s.main ≡ written → t ≡ record s { main = accepting; world = store 1 s.world } → Step c s t
  no_lock :
      c.suppress_lock ≡ true
      → s.main ≡ preparing
      → t ≡ record s { main = accepting; world = store 1 s.world }
      → Step c s t
  stamp :
      (now : ℕ)
      → s.main ≡ accepting
      → t ≡ record s { main = waiting; metrics = record_watchdog_ready now s.metrics }
      → Step c s t
  return : s.main ≡ waiting → 0 < s.closes → t ≡ record s { main = returned } → Step c s t
  receive :
      s.signal ≡ listening
      → t ≡ record s { signal = signalled; early = not (is_ready s.main) }
      → Step c s t
  clear_flag :
      s.signal ≡ signalled → t ≡ record s { signal = flagged; world = store 0 s.world } → Step c s t
  remove :
      s.signal ≡ flagged
      → t ≡ record s { signal = removed; world = record (s.world) { lock_file = false } }
      → Step c s t
  remove_fails : s.signal ≡ flagged → t ≡ record s { signal = removed } → Step c s t
  tick :
      is_positive c.healthcheck_interval ≡ true
      → s.signal ≡ removed
      → t ≡ record s { signal = draining }
      → Step c s t
  shutdown :
      s.signal ≡ draining → t ≡ record s { signal = shutting; server = stop s.server } → Step c s t
  drained : s.signal ≡ shutting → s.active ≡ 0 → t ≡ record s { signal = shut } → Step c s t
  expire : s.signal ≡ shutting → t ≡ record s { signal = shut; expired = true } → Step c s t
  close : s.signal ≡ shut → t ≡ record s { signal = closed; closes = s.closes + 1 } → Step c s t
  server_fails :
      s.server ≡ serving → t ≡ record s { server = failed; closes = s.closes + 1 } → Step c s t
  arrive : s.server ≡ serving → t ≡ record s { active = s.active + 1 } → Step c s t
  leave : (n : ℕ) → s.active ≡ n + 1 → t ≡ record s { active = n } → Step c s t
  hijack :
      (n : ℕ)
      → s.active ≡ n + 1
      → t ≡ record s { active = n; hijacked = s.hijacked + 1 }
      → Step c s t
  hang_up : (n : ℕ) → s.hijacked ≡ n + 1 → t ≡ record s { hijacked = n } → Step c s t

-- `Start` has stored 0 in the flag; a lock file may be left from before.
abbrev pub init : Bool → Bool → State
init lock_file readable = record {
  world = record { accepting_connections = 0; lock_file = lock_file; readable = readable };
  main = preparing;
  signal = listening;
  server = serving;
  closes = 0;
  early = false;
  metrics = new_http;
  active = 0;
  hijacked = 0;
  expired = false;
}

-- The runs of the program; a panic ends it.
pub data Reach (c : Settings) (s : State) : State → Type 0 where
  here : Reach c s s
  next : {t u : State} → Reach c s t → Step c t u → t.closes < 2 → Reach c s u
