-- ===== src/Watchdog/Shutdown/Drains.antt =====
-- What the end of the service leaves undone.
use of_watchdog.Prelude.{Bool, arith, false, inl, inr, is_positive, refl, true, ◌<◌, ◌≡◌, ◌≢◌, ◌⊎◌}
use of_watchdog.Watchdog.Shutdown.{
  Settings, shutting, shut, closed, Server, serving, stopped, failed, stop, State, returned, Step,
  write_lock, lock_fails, accept, no_lock, stamp, return, receive, clear_flag, remove, remove_fails,
  tick, shutdown, drained, expire, close, server_fails, arrive, leave, hijack, hang_up, init, Reach,
  here, next,
}
use of_watchdog.Watchdog.Shutdown.Closing.{stop-≢}
use of_watchdog.Watchdog.Shutdown.Ends.{has_returned}
use of_watchdog.Watchdog.Shutdown.{Main, gave_up, preparing, written, accepting, waiting}

-- Once `Shutdown` has begun no request comes, and once it has returned either none is in progress
-- or its time limit has run out. The channel is closed by the goroutine of the signal or by that of
-- a server that has failed.
record Inv (s : State) : Type 0 where
  stopping : s.signal ≡ shutting → s.server ≢ serving
  down : (s.signal ≡ shut) ⊎ (s.signal ≡ closed) → s.server ≢ serving
  idle : (s.signal ≡ shut) ⊎ (s.signal ≡ closed) → (s.active ≡ 0) ⊎ (s.expired ≡ true)
  closer : 0 < s.closes → (s.signal ≡ closed) ⊎ (s.server ≡ failed)
  ended : s.main ≡ returned → (s.signal ≡ closed) ⊎ (s.server ≡ failed)

stop-of_failed : (v : Server) → v ≡ failed → stop v ≡ failed
stop-of_failed failed h = refl
stop-of_failed serving h = cc
stop-of_failed stopped h = cc

Step-Inv : {c : Settings} {s t : State} → Step c s t → Inv s → Inv t
Step-Inv (write_lock k at e) i = ground arith
Step-Inv (lock_fails k at e) i = ground arith
Step-Inv (accept at e) i = ground arith
Step-Inv (no_lock k at e) i = ground arith
Step-Inv (stamp now at e) i = ground arith
Step-Inv (return at c e) i = ground arith
Step-Inv (receive at e) i = ground arith
Step-Inv (clear_flag at e) i = ground arith
Step-Inv (remove at e) i = ground arith
Step-Inv (remove_fails at e) i = ground arith
Step-Inv (tick k at e) i = ground arith
Step-Inv {s = s} (shutdown at e) i =
    ground (
      arith,
      i.stopping,
      i.down,
      i.idle,
      i.closer,
      i.ended,
      stop-≢ s.server,
      stop-of_failed s.server,
    )
Step-Inv (drained at z e) i = ground arith
Step-Inv (expire at e) i = ground arith
Step-Inv (close at e) i = ground arith
Step-Inv (server_fails at e) i = ground arith
Step-Inv (arrive at e) i = ground arith
Step-Inv (leave n k e) i = ground arith
Step-Inv (hijack n k e) i = ground arith
Step-Inv (hang_up n k e) i = ground arith

returned_or_gave_up : (m : Main) → has_returned m ≡ true → (m ≡ returned) ⊎ (m ≡ gave_up)
returned_or_gave_up returned h = inl refl
returned_or_gave_up gave_up h = inr refl
returned_or_gave_up preparing h = cc
returned_or_gave_up written h = cc
returned_or_gave_up accepting h = cc
returned_or_gave_up waiting h = cc

Reach-Inv : {c : Settings} (l r : Bool) {s : State} → Reach c (init l r) s → Inv s
Reach-Inv l r here = ground arith
Reach-Inv l r (next reach st alive) = Step-Inv st (Reach-Inv l r reach)

-- When the caller has returned, either it has given up for an error of the lock file, or the server
-- has failed, or the time limit of the shutdown has run out, or no request is in progress on a
-- connection that was not hijacked.
pub returned_when_drained :
    (c : Settings) (lock_file readable : Bool) (s : State)
    → Reach c (init lock_file readable) s
    → has_returned s.main ≡ true
    → (s.main ≡ gave_up) ⊎ (s.server ≡ failed) ⊎ (s.active ≡ 0) ⊎ (s.expired ≡ true)
returned_when_drained c lock_file readable s reach done =
    let i = Reach-Inv lock_file readable reach in
    ground (arith, i.ended, i.idle, returned_or_gave_up s.main done)

-- A request on a hijacked connection, which is what a WebSocket is, is cut off: the whole shutdown
-- can run, without a failure and within its time limit, while the request is in progress.
pub hijacked_cut_off :
    (c : Settings) (lock_file readable : Bool)
    → c.suppress_lock ≡ false
    → is_positive c.healthcheck_interval ≡ true
    → (s : State) × Reach c (init lock_file readable) s
      × (s.main ≡ returned)
      × (s.server ≡ stopped)
      × (s.hijacked ≡ 1)
      × (s.expired ≡ false)
hijacked_cut_off c lock_file readable locks waits =
    let upgraded =
      next
        (next
          (next
            (next
              (next (next here (write_lock locks refl refl) (omega arith)) (accept refl refl)
                (omega arith))
              (stamp 0 refl refl) (omega arith))
            (arrive refl refl) (omega arith))
          (hijack 0 refl refl) (omega arith))
        (receive refl refl) (omega arith) in
    let down =
      next
        (next
          (next
            (next (next upgraded (clear_flag refl refl) (omega arith)) (remove refl refl)
              (omega arith))
            (tick waits refl refl) (omega arith))
          (shutdown refl refl) (omega arith))
        (drained refl refl refl) (omega arith) in
    (
      _,
      next (next down (close refl refl) (omega arith)) (return refl (omega arith) refl)
          (omega arith),
      refl,
      refl,
      refl,
      refl,
    )
