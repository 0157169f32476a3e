-- ===== src/Watchdog/Shutdown/Races.antt =====
-- Interleavings in which the health of the service is not what the shutdown means it to be, and
-- the service without a lock file.
use of_watchdog.Prelude.{Bool, arith, false, is_positive, refl, true, ◌↔◌, ◌≡◌, ◌≢◌}
use of_watchdog.Metrics.Http.{new_http}
use of_watchdog.Watchdog.Lock.{lock_file_present}
use of_watchdog.Watchdog.Lock.Laws.{IsUp}
use of_watchdog.Watchdog.Shutdown.{
  Settings, accepting, written, draining, State, Step, write_lock, lock_fails, accept, no_lock,
  stamp, return, receive, clear_flag, remove, remove_fails, tick, shutdown, close, server_fails,
  drained, expire, arrive, leave, hijack, hang_up, init, Reach, here, next, serving,
}

-- There is no lock file, and none is about to be written.
record NoLock (can_read : Bool) (s : State) : Type 0 where
  main : s.main ≢ written
  missing : s.world.lock_file ≡ false
  readable : s.world.readable ≡ can_read

module _ (c : Settings) (readable : Bool) (suppressed : c.suppress_lock ≡ true) where
  Step-NoLock : {s t : State} → Step c s t → NoLock readable s → NoLock readable t
  Step-NoLock (write_lock k at e) n = cc
  Step-NoLock (lock_fails k at e) n = cc
  Step-NoLock (accept at e) n = absurd (n.main at)
  Step-NoLock (no_lock k at e) n = ground arith
  Step-NoLock (stamp now at e) n = ground arith
  Step-NoLock (return at d e) n = ground arith
  Step-NoLock (receive at e) n = ground arith
  Step-NoLock (clear_flag at e) n = ground arith
  Step-NoLock (remove at e) n = ground arith
  Step-NoLock (remove_fails at e) n = ground arith
  Step-NoLock (tick k at e) n = ground arith
  Step-NoLock (shutdown at e) n = ground arith
  Step-NoLock (close at e) n = ground arith
  Step-NoLock (server_fails at e) n = ground arith
  Step-NoLock (drained at z e) n = ground arith
  Step-NoLock (expire at e) n = ground arith
  Step-NoLock (arrive at e) n = ground arith
  Step-NoLock (leave rest k e) n = ground arith
  Step-NoLock (hijack rest k e) n = ground arith
  Step-NoLock (hang_up rest k e) n = ground arith

  Reach-NoLock : {s : State} → Reach c (init false readable) s → NoLock readable s
  Reach-NoLock here = ground arith
  Reach-NoLock (next reach st alive) = Step-NoLock st (Reach-NoLock reach)

-- With suppress_lock set and no lock file there at the start, the service is up exactly when the flag
-- is set and the directory of the lock file cannot be searched, which is taken for a file that is
-- there. So where the directory can be searched, the service is never up.
pub suppressed-IsUp_iff :
    (c : Settings) (readable : Bool) (s : State)
    → c.suppress_lock ≡ true
    → Reach c (init false readable) s
    → IsUp s.world ↔ ((s.world.accepting_connections ≢ 0) × (readable ≡ false))
unfolding lock_file_present
suppressed-IsUp_iff c readable s suppressed reach =
    let n = Reach-NoLock c readable suppressed reach in ground (arith, n.missing, n.readable)

-- A signal that comes before the lock file is written can be forgotten: the goroutine of the
-- signal clears the flag and removes the file, and then the caller writes the file and sets the
-- flag, so that the service is up while the server is about to be shut down.
pub IsUp-while_draining :
    (c : Settings) (lock_file : Bool)
    → c.suppress_lock ≡ false
    → is_positive c.healthcheck_interval ≡ true
    → (s : State) × Reach c (init lock_file true) s × (s.signal ≡ draining) × IsUp s.world
unfolding lock_file_present
IsUp-while_draining c lock_file locks waits = (
  record {
    world = record { accepting_connections = 1; lock_file = true; readable = true };
    main = accepting;
    signal = draining;
    server = serving;
    closes = 0;
    early = true;
    metrics = new_http;
    active = 0;
    hijacked = 0;
    expired = false;
  },
  next
      (next
        (next
          (next
            (next (next here (receive refl refl) (omega arith)) (clear_flag refl refl)
              (omega arith))
            (remove refl refl) (omega arith))
          (tick waits refl refl) (omega arith))
        (write_lock locks refl refl) (omega arith))
      (accept refl refl) (omega arith),
  refl,
  (omega arith, refl),
)
