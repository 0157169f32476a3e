-- ===== src/Watchdog/Shutdown/Laws.antt =====
-- What holds in every reachable state of the shutdown.
use of_watchdog.Metrics.Http.{new_http}
use of_watchdog.Prelude.{Bool, Bool-cases, arith, false, inl, inr, true, ◌<◌, ◌≡◌, ◌≢◌}
use of_watchdog.Watchdog.Lock.Laws.{IsUp}
use of_watchdog.Watchdog.Shutdown.{
  Settings, returned, Signal, listening, signalled, State, is_ready, Step, write_lock, lock_fails,
  accept, no_lock, return, receive, clear_flag, remove, remove_fails, tick, shutdown, close,
  server_fails, drained, expire, arrive, leave, hijack, hang_up, init, Reach, here, next, stamp,
}

-- The goroutine has cleared the flag.
abbrev pub has_cleared : Signal → Bool
has_cleared listening = false
has_cleared signalled = false
has_cleared _ = true

abbrev pub has_received : Signal → Bool
has_received listening = false
has_received _ = true

record Inv (s : State) : Type 0 where
  ready : has_received s.signal ≡ true → s.early ≡ false → is_ready s.main ≡ true
  down : has_cleared s.signal ≡ true → s.early ≡ false → s.world.accepting_connections ≡ 0
  quiet : is_ready s.main ≡ false → s.world.accepting_connections ≡ 0
  unstamped : is_ready s.main ≡ false → s.metrics.watchdog_ready_timestamp ≡ 0
  ended : s.main ≡ returned → 0 < s.closes

Step-Inv : {c : Settings} {s t : State} → Step c s t → Inv s → Inv t
Step-Inv (write_lock k at e) i = ground arith
Step-Inv (lock_fails k at e) i = ground arith
Step-Inv (accept at e) i = ground arith
Step-Inv (no_lock k at e) i = ground arith
Step-Inv (stamp now at e) i = ground arith
Step-Inv (return at c e) i = ground arith
Step-Inv (receive at e) i = ground arith
Step-Inv (clear_flag at e) i = ground arith
Step-Inv (remove at e) i = ground arith
Step-Inv (remove_fails at e) i = ground arith
Step-Inv (tick k at e) i = ground arith
Step-Inv (shutdown at e) i = ground arith
Step-Inv (close at e) i = ground arith
Step-Inv (server_fails at e) i = ground arith
Step-Inv (drained at z e) i = ground arith
Step-Inv (expire at e) i = ground arith
Step-Inv (arrive at e) i = ground arith
Step-Inv (leave n k e) i = ground arith
Step-Inv (hijack n k e) i = ground arith
Step-Inv (hang_up n k e) i = ground arith

Reach-Inv : {c : Settings} (l r : Bool) {s : State} → Reach c (init l r) s → Inv s
unfolding new_http
Reach-Inv l r here = ground arith
Reach-Inv l r (next reach st alive) = Step-Inv st (Reach-Inv l r reach)

-- When the signal comes after the service was marked as ready, the service is not up from the
-- moment the flag is cleared, whether or not the lock file can be removed.
pub drained_is_down :
    (c : Settings) (lock_file readable : Bool) (s : State)
    → Reach c (init lock_file readable) s
    → has_cleared s.signal ≡ true
    → s.early ≡ false
    → ¬ IsUp s.world
drained_is_down c lock_file readable s reach cleared late (up, present) =
    up ((Reach-Inv lock_file readable reach).down cleared late)

-- The service is up only once the caller has marked it as ready.
pub ready_before_up :
    (c : Settings) (lock_file readable : Bool) (s : State)
    → Reach c (init lock_file readable) s
    → IsUp s.world
    → (is_ready s.main ≡ true)
ready_before_up c lock_file readable s reach (up, present) = elim (Bool-cases (is_ready s.main)) [
  | inl ready ↦ ready
  | inr early ↦ absurd (up ((Reach-Inv lock_file readable reach).quiet early))
]

-- The caller returns without an error only after the channel was closed.
pub returned_after_close :
    (c : Settings) (lock_file readable : Bool) (s : State)
    → Reach c (init lock_file readable) s
    → s.main ≡ returned
    → 0 < s.closes
returned_after_close c lock_file readable s reach done =
    (Reach-Inv lock_file readable reach).ended done

-- The time at which the service became ready is recorded only once the flag has been set.
pub ready_before_stamp :
    (c : Settings) (lock_file readable : Bool) (s : State)
    → Reach c (init lock_file readable) s
    → s.metrics.watchdog_ready_timestamp ≢ 0
    → (is_ready s.main ≡ true)
ready_before_stamp c lock_file readable s reach stamped = elim (Bool-cases (is_ready s.main)) [
  | inl ready ↦ ready
  | inr early ↦ absurd (stamped ((Reach-Inv lock_file readable reach).unstamped early))
]
