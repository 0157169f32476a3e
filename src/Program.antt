-- ===== src/Program.antt =====
-- main.go and version.go: the entry point.
pub mod Ends
pub mod Laws
pub mod Serves
use of_watchdog.Prelude.{Bool, List, Option, String, if◌then◌else◌, none, nonempty, some, ℕ}
use of_watchdog.Config.Values.{Duration}
use of_watchdog.Config.New.{WatchdogConfig, ConfigError, new}
use of_watchdog.Watchdog.Lock.{World, lock_file_present}
use of_watchdog.Watchdog.Handlers.{System}
use of_watchdog.Watchdog.Start.{
  Middleware, Started, panics, exits, error, serving, start, new_watchdog, Serving,
}

-- `BuildVersion`, of the version that the build sets.
unfoldable pub build_version : String → String
build_version version = if nonempty version then version else "weew12 dev"

-- `printVersion`: the version and the commit that are printed.
unfoldable pub print_version : String → String → String × String
unfolding build_version
print_version version git_commit =
    (build_version version, if nonempty git_commit then git_commit else "unknown")

-- How the process goes on: it exits with a code, panics, or serves.
pub data Outcome : Type 0 where
  exit : ℕ → Outcome
  panic : Outcome
  serves : Serving → Outcome

abbrev pub of_started : Started → Outcome
of_started panics = panic
of_started (exits message) = exit 1
of_started (error e) = exit 1
of_started (serving r) = serves r

abbrev pub after_config :
    Bool → World → System → Middleware → WatchdogConfig × Option ConfigError → Outcome
after_config run_healthcheck w sys mid (c, some e) = exit 1
after_config run_healthcheck w sys mid (c, none) =
    if run_healthcheck
    then (if lock_file_present w then exit 0 else exit 1)
    else of_started (start sys mid (new_watchdog c))

-- `main`, of its two flags, the environment and the world.
unfoldable pub main :
    (String → Option Duration) → Bool → Bool → List String → World → System → Middleware → Outcome
unfolding start
main parse_duration version_flag run_healthcheck env w sys mid =
    if version_flag then exit 0 else after_config run_healthcheck w sys mid (new parse_duration env)
