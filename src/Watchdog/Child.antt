-- ===== src/Watchdog/Child.antt =====
-- executor/http_runner.go, Start, beside pkg/watchdog.go, listenUntilShutdown: the process of the HTTP
-- mode, the goroutine that forwards SIGTERM to it, and the goroutine that waits for its end.
use of_watchdog.Prelude.{Bool, Option, false, is_none, none, some, true, ◌<◌, ◌≡◌, ◌⊎◌}
pub mod Laws
pub mod Deaths
use of_watchdog.Go.Http.{Error}
use of_watchdog.Watchdog.Shutdown

-- The function's process. It may end at any time, after a SIGTERM or by itself.
pub data Child : Type 0 where
  running : Child
  exited : Option Error → Child

-- `terminated` says that the watchdog was sent SIGTERM, which goes to the channels of both
-- goroutines; `forwarded` that the runner has passed it on. `alive` is false once `log.Fatalf` has
-- ended the watchdog, and all its goroutines with it. `started` says whether `cmd.Start` has
-- succeeded: where it has not, `cmd.Wait` returns an error at once, and there is no process that a
-- signal could be sent to, so that trying it is a panic.
pub record State : Type 0 where
  pub shutdown : Shutdown.State
  pub child : Child
  pub started : Bool
  pub terminated : Bool
  pub forwarded : Bool
  pub alive : Bool

abbrev child_of : Option Error → Child
child_of none = running
child_of (some e) = exited (some "exec: not started")

-- `Start` of the runner has returned, with the error of `cmd.Start` that its caller drops.
abbrev pub init : Option Error → Bool → Bool → State
init start_error lock_file readable = record {
  shutdown = Shutdown.init lock_file readable;
  child = child_of start_error;
  started = is_none start_error;
  terminated = false;
  forwarded = false;
  alive = true;
}

pub data Step (c : Shutdown.Settings) (s t : State) : Type 0 where
  terminate : t ≡ record s { terminated = true } → Step c s t
  -- listenUntilShutdown receives no signal before one is sent.
  serve :
      (u : Shutdown.State)
      → Shutdown.Step c s.shutdown u
      → (u.signal ≡ Shutdown.listening) ⊎ (s.terminated ≡ true)
      → t ≡ record s { shutdown = u }
      → Step c s t
  forward :
      s.terminated ≡ true
      → s.forwarded ≡ false
      → s.started ≡ true
      → t ≡ record s { forwarded = true }
      → Step c s t
  forward_panics :
      s.terminated ≡ true → s.started ≡ false → t ≡ record s { alive = false } → Step c s t
  child_exits :
      (e : Option Error) → s.child ≡ running → t ≡ record s { child = exited e } → Step c s t
  fatal : (e : Error) → s.child ≡ exited (some e) → t ≡ record s { alive = false } → Step c s t

-- The runs of the watchdog, up to its end by `log.Fatalf` or by a panic.
pub data Reach (c : Shutdown.Settings) (s : State) : State → Type 0 where
  here : Reach c s s
  next :
      {t u : State}
      → Reach c s t
      → Step c t u
      → t.alive ≡ true
      → t.shutdown.closes < 2
      → Reach c s u
