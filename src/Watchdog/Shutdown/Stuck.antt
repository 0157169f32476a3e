-- ===== src/Watchdog/Shutdown/Stuck.antt =====
-- The shutdown that waits for a channel from which nothing comes.
use of_watchdog.Prelude.{Bool, arith, false, inl, inr, is_positive, refl, ◌≡◌, ◌≢◌, ◌⊎◌}
use of_watchdog.Watchdog.Shutdown.Laws.{returned_after_close}
use of_watchdog.Watchdog.Shutdown.{
  Settings, draining, shutting, shut, closed, stopped, failed, State, Step, write_lock, lock_fails,
  accept, no_lock, stamp, return, receive, clear_flag, remove, remove_fails, tick, shutdown, close,
  server_fails, drained, expire, arrive, leave, hijack, hang_up, init, Reach, here, next, returned,
}
use of_watchdog.Watchdog.Shutdown.Closing.{Reach-Closing, Server-cases}
use of_watchdog.Watchdog.Shutdown.Ends.{has_returned}
use of_watchdog.Watchdog.Shutdown.{Main, gave_up, preparing, written, accepting, waiting}

-- The signal has not come further than the wait for the interval.
record Waiting (s : State) : Type 0 where
  signal : (s.signal ≢ draining) × (s.signal ≢ shutting) × (s.signal ≢ shut) × (s.signal ≢ closed)
  server : s.server ≢ stopped

module _ (c : Settings) (blocks : is_positive c.healthcheck_interval ≡ false) where
  Step-Waiting : {s t : State} → Step c s t → Waiting s → Waiting t
  Step-Waiting (write_lock k at e) i = ground arith
  Step-Waiting (lock_fails k at e) i = ground arith
  Step-Waiting (accept at e) i = ground arith
  Step-Waiting (no_lock k at e) i = ground arith
  Step-Waiting (stamp now at e) i = ground arith
  Step-Waiting (return at d e) i = ground arith
  Step-Waiting (receive at e) i = ground arith
  Step-Waiting (clear_flag at e) i = ground arith
  Step-Waiting (remove at e) i = ground arith
  Step-Waiting (remove_fails at e) i = ground arith
  Step-Waiting (tick k at e) i = cc
  Step-Waiting (shutdown at e) i = absurd (i.signal.0 at)
  Step-Waiting (close at e) i = absurd (i.signal.2 at)
  Step-Waiting (server_fails at e) i = ground arith
  Step-Waiting (drained at z e) i = absurd (i.signal.1 at)
  Step-Waiting (expire at e) i = absurd (i.signal.1 at)
  Step-Waiting (arrive at e) i = ground arith
  Step-Waiting (leave n k e) i = ground arith
  Step-Waiting (hijack n k e) i = ground arith
  Step-Waiting (hang_up n k e) i = ground arith

  Reach-Waiting : (l r : Bool) {s : State} → Reach c (init l r) s → Waiting s
  Reach-Waiting l r here = ground arith
  Reach-Waiting l r (next reach st alive) = Step-Waiting st (Reach-Waiting l r reach)

running_or_gave_up :
    {P : Type 0} (m : Main) → m ≢ returned → (has_returned m ≡ false) ⊎ (m ≡ gave_up) ⊎ P
running_or_gave_up returned h = absurd (h refl)
running_or_gave_up gave_up h = inr (inl refl)
running_or_gave_up preparing h = inl refl
running_or_gave_up written h = inl refl
running_or_gave_up accepting h = inl refl
running_or_gave_up waiting h = inl refl

-- With a healthcheck interval of 0 or less the signal never ends the service: in no interleaving is
-- the server ever shut down, and the caller returns only after the server has failed or when it
-- gives up for an error of the lock file.
pub never_stopped :
    (c : Settings) (lock_file readable : Bool) (s : State)
    → is_positive c.healthcheck_interval ≡ false
    → Reach c (init lock_file readable) s
    → (s.server ≢ stopped)
      × ((has_returned s.main ≡ false) ⊎ (s.main ≡ gave_up) ⊎ (s.server ≡ failed))
never_stopped c lock_file readable s blocks reach =
    let w = Reach-Waiting c blocks lock_file readable reach in
    let closing = Reach-Closing lock_file readable reach in
    let returns = returned_after_close c lock_file readable s reach in
    (
      w.server,
      elim (Server-cases s.server) [
        | inl down ↦ inr (inr down)
        | inr up ↦
            let still : s.main ≢ returned =
              λ done. omega (arith, returns done, closing.unclosed w.signal.3 up) in
            running_or_gave_up s.main still
      ],
    )
