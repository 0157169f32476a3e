-- ===== src/Config/New/Defaults.antt =====
-- The configuration of an environment that sets the function's command and nothing else.
use of_watchdog.Prelude.{
  List, Option, String, [], ap, arith, eq_iff, false, none, pos, refl, str_eq, true, ◌<>◌, ◌∙◌, ◌∷◌,
  ◌≡◌, ◌≢◌,
}
use of_watchdog.Config.Modes.{mode_streaming}
use of_watchdog.Config.Env.{insert, map_env}
use of_watchdog.Config.Env.Laws.{last_value, entry-print}
use of_watchdog.Config.Values.{Duration, get_bool, get_bools, get_duration, get_int}
use of_watchdog.Config.New.{
  WatchdogConfig, empty_config, from_map, new, either_value, initial_config,
  read_healthcheck_interval, read_log_buffer_size, read_log_call_id, read_mode, read_prefix_logs,
}
use of_watchdog.Config.New.Laws.{new-eq_of_last_value}

-- The configuration as the documentation gives it: streaming, port 8080, timeouts of 30 seconds,
-- octets as the content type, logs with a prefix, and everything else off.
abbrev pub default_config : String → WatchdogConfig
default_config command = record empty_config {
  tcp_port = pos 8080;
  http_read_timeout = pos 30_000_000_000;
  http_write_timeout = pos 30_000_000_000;
  exec_timeout = pos 30_000_000_000;
  healthcheck_interval = pos 30_000_000_000;
  function_process = command;
  content_type = "application/octet-stream";
  static_path = "/home/app/public";
  inject_cgi_headers = true;
  operational_mode = mode_streaming;
  metrics_port = pos 8081;
  prefix_logs = true;
  log_buffer_size = pos 65536;
}

module _ (parse_duration : String → Option Duration) (command : String) (given : command ≢ "") where
  map_env-command :
      (map_env (("fprocess" <> "=" <> command) ∷ [])).0 ≡ insert "fprocess" command (λ _. none)
  unfolding map_env
  map_env-command =
      rw (entry-print "fprocess" command (ground (arith, eq_iff "fprocess" "")) (omega arith)) refl

  from_map-default :
      from_map parse_duration (insert "fprocess" command (λ _. none))
      ≡ (default_config command, none)
  unfolding from_map read_mode read_prefix_logs read_log_call_id read_healthcheck_interval get_bool
      get_bools get_int read_log_buffer_size initial_config get_duration either_value
  from_map-default =
      let present : str_eq command "" ≡ false = ground (arith, eq_iff command "") in
      rw (present, from_map) refl

  -- An environment that gives a command that is not empty by fprocess, and no value to any other
  -- name, is accepted, with the default of every other setting.
  pub new-default_config :
      (env : List String)
      → ((k : String) → last_value k env ≡ last_value k (("fprocess" <> "=" <> command) ∷ []))
      → new parse_duration env ≡ (default_config command, none)
  unfolding new
  new-default_config env same =
      new-eq_of_last_value parse_duration env (("fprocess" <> "=" <> command) ∷ []) same
      ∙ ap (from_map parse_duration) map_env-command
      ∙ from_map-default
