-- ===== src/Program/Ends.antt =====
-- From the environment of the watchdog to how it can be shut down.
use of_watchdog.Prelude.{
  Bool, List, Option, Option-cases, String, arith, false, inl, inr, none, pos, refl, some, true,
  ◌∙◌, ◌≡◌, ◌≢◌, ◌⊎◌,
}
use of_watchdog.Config.Env.{EnvMap, lookup, map_env}
use of_watchdog.Config.Env.Laws.{last_value, lookup-map_env}
use of_watchdog.Config.Values.{Duration, parse_int_or_duration_value}
use of_watchdog.Config.Values.Laws.{parse_int_or_duration_value-seconds}
use of_watchdog.Config.New.{
  WatchdogConfig, read_log_buffer_size, read_healthcheck_interval, read_write_timeout,
  checked_config, initial_config, from_map, new,
}
use of_watchdog.Go.Http.{Error}
use of_watchdog.Go.Strconv.{atoi}
use of_watchdog.Executor.HttpRunner.Start.{Started as ProcessStarted}
use of_watchdog.Watchdog.Lock.{World}
use of_watchdog.Watchdog.Handlers.{System, Built, handler, fatal, panicked, build_request_handler}
use of_watchdog.Watchdog.Shutdown.{Settings, State, init, Reach, stopped, failed}
use of_watchdog.Watchdog.Shutdown.Stuck.{never_stopped}
use of_watchdog.Watchdog.Shutdown.Ends.{has_returned}
use of_watchdog.Watchdog.Shutdown.{gave_up}
use of_watchdog.Watchdog.Start.{
  Middleware, Routes, Serving, start, start_with, routes, serving_of, served_or_error,
}
use of_watchdog.Program.Laws.{sized}
use of_watchdog.Program.{main, serves, after_config, of_started}

-- What listenUntilShutdown is told, of a configuration.
abbrev pub settings_of : WatchdogConfig → Settings
settings_of cfg = record {
  suppress_lock = cfg.suppress_lock;
  healthcheck_interval = cfg.healthcheck_interval;
}

served-settings :
    (cfg : WatchdogConfig) (process : Option ProcessStarted) (m : Routes ⊎ Error) (v : Serving)
    → of_started (served_or_error cfg process m) ≡ serves v
    → v.settings ≡ settings_of cfg
unfolding serving_of
served-settings cfg process (inl r) v h = ground arith
served-settings cfg process (inr e) v h = cc

started-settings :
    (mid : Middleware) (cfg : WatchdogConfig) (b : Built) (v : Serving)
    → of_started (start_with mid cfg b) ≡ serves v
    → v.settings ≡ settings_of cfg
started-settings mid cfg panicked v h = cc
started-settings mid cfg (fatal message) v h = cc
started-settings mid cfg (handler base process) v h =
    served-settings cfg process (routes mid cfg base) v h

zero_is_number : atoi "0" ≡ (pos 0, true)
unfolding atoi
zero_is_number = refl

module _ (parse_duration : String → Option Duration) (env : List String) where
  main-settings :
      (w : World) (sys : System) (mid : Middleware) (v : Serving)
      → main parse_duration false false env w sys mid ≡ serves v
      → ((new parse_duration env).1 ≡ none) × (v.settings ≡ settings_of (new parse_duration env).0)
  unfolding main start
  main-settings w sys mid v h = elim (Option-cases (new parse_duration env).1) [
    | inl accepted ↦ (
      accepted,
      started-settings mid (new parse_duration env).0
          (build_request_handler sys (new parse_duration env).0) v
          (rw (accepted, main, after_config) at h),
    )
    | inr (e, refused) ↦ cc (rw (refused, main) at h)
  ]

  -- The healthcheck interval that an accepted environment gives, where it gives one.
  checked-interval :
      (m : EnvMap) (c : WatchdogConfig)
      → (checked_config m c).0.healthcheck_interval ≡ c.healthcheck_interval
  unfolding checked_config
  checked-interval m c = ground arith

  from_map-interval :
      (m : EnvMap) (val : String)
      → lookup "healthcheck_interval" m ≡ some val
      → (from_map parse_duration m).1 ≡ none
      → (from_map parse_duration m).0.healthcheck_interval
        ≡ parse_int_or_duration_value parse_duration val (read_write_timeout parse_duration m)
  unfolding from_map initial_config read_healthcheck_interval
  from_map-interval m val given h = elim (sized (read_log_buffer_size m)) [
    | inl (size, e) ↦
        rw (e, from_map)
          (checked-interval m (initial_config parse_duration m size)
            ∙ rw (given, read_healthcheck_interval) refl)
    | inr (bad, e) ↦ cc (rw (e, from_map) at h)
  ]

  zero_seconds :
      (fallback : Duration) → parse_int_or_duration_value parse_duration "0" fallback ≡ pos 0
  zero_seconds fallback =
      parse_int_or_duration_value-seconds parse_duration "0" fallback 0 zero_is_number (omega arith)

  -- A watchdog that serves with healthcheck_interval set to 0 is never shut down by the goroutines of
  -- listenUntilShutdown: in none of their interleavings does the server stop, whether or not the
  -- signal has come, and the caller returns only after the server has failed or when it gives up for
  -- an error of the lock file. Of the end of the function's process nothing is said here.
  pub main-never_stopped :
      (w : World) (sys : System) (mid : Middleware) (v : Serving) (lock_file readable : Bool)
      (s : State)
      → last_value "healthcheck_interval" env ≡ some "0"
      → main parse_duration false false env w sys mid ≡ serves v
      → Reach v.settings (init lock_file readable) s
      → (s.server ≢ stopped)
        × ((has_returned s.main ≡ false) ⊎ (s.main ≡ gave_up) ⊎ (s.server ≡ failed))
  unfolding new
  main-never_stopped w sys mid v lock_file readable s given serving reach =
      let (accepted, settings) = main-settings w sys mid v serving in
      let zero : (new parse_duration env).0.healthcheck_interval ≡ pos 0 =
        from_map-interval (map_env env).0 "0" (lookup-map_env "healthcheck_interval" env ∙ given)
          accepted
        ∙ zero_seconds _ in
      never_stopped v.settings lock_file readable s (rw (settings, zero) refl) reach
