-- ===== src/Watchdog/Child/Deaths.antt =====
-- The end of the process that ends the watchdog in the middle of a request.
use of_watchdog.Prelude.{Bool, arith, false, inl, none, refl, some, true, ◌≡◌}
use of_watchdog.Go.Http.{Error}
use of_watchdog.Watchdog.Lock.{lock_file_present}
use of_watchdog.Watchdog.Lock.Laws.{IsUp}
use of_watchdog.Watchdog.Shutdown
use of_watchdog.Watchdog.Child.{
  exited, State, init, terminate, serve, forward, child_exits, fatal, Reach, here, next,
}

-- The service after it was marked as ready, with a request in progress.
abbrev pub ready : Bool → State
ready lock_file = record (init none lock_file true) {
  shutdown = record (Shutdown.init lock_file true) {
    main = Shutdown.accepting;
    active = 1;
    world = record { accepting_connections = 1; lock_file = true; readable = true };
  };
}

module _ (c : Shutdown.Settings) (lock_file : Bool) (locks : c.suppress_lock ≡ false) where
  pub Reach-ready : Reach c (init none lock_file true) (ready lock_file)
  Reach-ready =
      next
        (next
          (next here (serve _ (Shutdown.write_lock locks refl refl) (inl refl) refl) refl
            (omega arith))
          (serve _ (Shutdown.accept refl refl) (inl refl) refl) refl (omega arith))
        (serve _ (Shutdown.arrive refl refl) (inl refl) refl) refl (omega arith)

  -- The watchdog has been ended by the process, while it served, was reported as up, and had a
  -- request in progress.
  abbrev pub IsKilled : Error → State → Type 0
  IsKilled e s =
      (s.forwarded ≡ true)
      × (s.child ≡ exited (some e))
      × (s.alive ≡ false)
      × (s.shutdown.server ≡ Shutdown.serving)
      × (s.shutdown.active ≡ 1)
      × IsUp s.shutdown.world

  -- SIGTERM, passed on to the process, can end a watchdog that uses the lock file at once: a process
  -- that it ends with an error does so while the server still serves, the service is reported as up,
  -- and a request is in progress.
  pub IsKilled-while_serving :
      (e : Error) → (s : State) × Reach c (init none lock_file true) s × IsKilled e s
  unfolding lock_file_present
  IsKilled-while_serving e = (
    record (ready lock_file) {
      child = exited (some e);
      terminated = true;
      forwarded = true;
      alive = false;
    },
    next
        (next
          (next (next Reach-ready (terminate refl) refl (omega arith)) (forward refl refl refl refl)
            refl (omega arith))
          (child_exits (some e) refl refl) refl (omega arith))
        (fatal e refl refl) refl (omega arith),
    (refl, refl, refl, refl, refl, (omega arith, refl)),
  )
