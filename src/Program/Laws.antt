-- ===== src/Program/Laws.antt =====
-- How the process ends.
use of_watchdog.Prelude.{
  List, Option, String, arith, false, inl, inr, none, refl, true, ℕ, ℤ, ◌↔◌, ◌≡◌, ◌≢◌, ◌⊎◌,
}
use of_watchdog.Config.Values.{Duration}
use of_watchdog.Config.New.{new}
use of_watchdog.Watchdog.Lock.{World, lock_file_present}
use of_watchdog.Watchdog.Handlers.{System}
use of_watchdog.Executor.HttpRunner.Start.{Started as ProcessStarted}
use of_watchdog.Watchdog.Start.{Middleware}
use of_watchdog.Program.{main, exit}

-- The health check exits with 0 exactly when the configuration is accepted and the lock file is
-- present.
pub main-healthcheck_iff :
    (parse_duration : String → Option Duration) (env : List String) (w : World) (sys : System)
    (mid : Middleware)
    → (main parse_duration false true env w sys mid ≡ exit 0)
      ↔ (((new parse_duration env).1 ≡ none) × (lock_file_present w ≡ true))
unfolding main
main-healthcheck_iff parse_duration env w sys mid = ground arith

pub sized : (o : ℤ ⊎ String) → ((size : ℤ) × (o ≡ inl size)) ⊎ ((val : String) × (o ≡ inr val))
sized (inl size) = inl (size, refl)
sized (inr val) = inr (val, refl)

abbrev HasNoHandler : ℕ → Type 0
HasNoHandler n = (n ≢ 1) × (n ≢ 2) × (n ≢ 4) × (n ≢ 5) × (n ≢ 6)

-- The name of a mode that has no handler: one of no mode, or afterburn.
abbrev pub IsUnserved : String → Type 0
IsUnserved m =
    (m ≢ "")
    × (m ≢ "streaming")
    × (m ≢ "serializing")
    × (m ≢ "http")
    × (m ≢ "static")
    × (m ≢ "inproc")
