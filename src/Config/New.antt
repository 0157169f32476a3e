-- ===== src/Config/New.antt =====
-- config/config.go: WatchdogConfig and New.
pub mod Defaults
pub mod Laws
use of_watchdog.Prelude.{
  Bool, List, Option, String, [], eq_ℤ, false, if◌then◌else◌, inl, inr, none, nonempty, not,
  or_else, pos, some, str_eq, true, ℕ, ℤ, ◌&&◌, ◌*◌, ◌==◌, ◌∷◌, ◌⊎◌,
}
use of_watchdog.Go.Http.{Request, Writer}
use of_watchdog.Go.Strconv.{atoi, parse_bool}
use of_watchdog.Config.Modes.{mode_streaming, mode_static, mode_inproc, watchdog_mode_const}
use of_watchdog.Config.Env.{EnvMap, lookup, value, map_env}
use of_watchdog.Config.Values.{
  Duration, second, parse_int_or_duration_value, get_duration, get_int, get_bool, get_bools,
}

-- `http.HandlerFunc`: what a handler leaves in the writer. Its first argument is the time after
-- which the context of the request ends, if it does; the context is no part of `Request` here.
abbrev pub HandlerFunc : Type 0
HandlerFunc = Option Duration → Writer → Request → Writer

-- `handler` is nothing where the source has the nil function.
pub record WatchdogConfig : Type 0 where
  pub tcp_port : ℤ
  pub http_read_timeout : Duration
  pub http_write_timeout : Duration
  pub exec_timeout : Duration
  pub healthcheck_interval : Duration
  pub function_process : String
  pub content_type : String
  pub inject_cgi_headers : Bool
  pub operational_mode : ℕ
  pub suppress_lock : Bool
  pub upstream_url : String
  pub static_path : String
  pub buffer_http_body : Bool
  pub metrics_port : ℤ
  pub max_inflight : ℤ
  pub prefix_logs : Bool
  pub log_buffer_size : ℤ
  pub ready_endpoint : String
  pub jwt_authentication : Bool
  pub jwt_auth_debug : Bool
  pub jwt_auth_local : Bool
  pub log_call_id : Bool
  pub handler : Option HandlerFunc

-- The errors of New.
pub data ConfigError : Type 0 where
  invalid_log_buffer_size : String → ConfigError
  write_timeout_zero : ConfigError
  missing_process : ConfigError

-- `WatchdogConfig{}`.
abbrev pub empty_config : WatchdogConfig
empty_config = record {
  tcp_port = pos 0;
  http_read_timeout = pos 0;
  http_write_timeout = pos 0;
  exec_timeout = pos 0;
  healthcheck_interval = pos 0;
  function_process = "";
  content_type = "";
  inject_cgi_headers = false;
  operational_mode = 0;
  suppress_lock = false;
  upstream_url = "";
  static_path = "";
  buffer_http_body = false;
  metrics_port = pos 0;
  max_inflight = pos 0;
  prefix_logs = false;
  log_buffer_size = pos 0;
  ready_endpoint = "";
  jwt_authentication = false;
  jwt_auth_debug = false;
  jwt_auth_local = false;
  log_call_id = false;
  handler = none;
}

unfoldable pub set_handler : WatchdogConfig → HandlerFunc → WatchdogConfig
set_handler w handler = record w { handler = some handler }

-- `bufio.MaxScanTokenSize`.
abbrev pub max_scan_token_size : ℤ
max_scan_token_size = pos 65536

-- A value, or that of a second name where the second is set, or the empty text.
unfoldable pub either_value : EnvMap → String → String → String
either_value env first second = or_else (lookup second env) (value env first)

unfoldable pub read_prefix_logs : EnvMap → Bool
read_prefix_logs env = elim (lookup "prefix_logs" env) [
  | some val ↦ or_else (parse_bool val) true
  | none ↦ true
]

unfoldable pub read_log_call_id : EnvMap → Bool
read_log_call_id env = elim (lookup "log_callid" env) [
  | some val ↦ if str_eq val "1" then true else or_else (parse_bool val) false
  | none ↦ false
]

-- The size of the log buffer, or the text that Atoi refused.
unfoldable pub read_log_buffer_size : EnvMap → ℤ ⊎ String
read_log_buffer_size env = elim (lookup "log_buffer_size" env) [
  | some val ↦ if (atoi val).1 then inl (atoi val).0 else inr val
  | none ↦ inl max_scan_token_size
]

unfoldable pub read_mode : EnvMap → ℕ
read_mode env =
    if nonempty (value env "mode") then watchdog_mode_const (value env "mode") else mode_streaming

abbrev needs_process : ℕ → Bool
needs_process mode = not (mode == mode_static) && not (mode == mode_inproc)

abbrev with_jwt : EnvMap → WatchdogConfig → WatchdogConfig
with_jwt env c = record c {
  jwt_authentication = get_bool env "jwt_auth";
  jwt_auth_debug = get_bool env "jwt_auth_debug";
  jwt_auth_local = get_bool env "jwt_auth_local";
}

unfoldable pub checked_config : EnvMap → WatchdogConfig → WatchdogConfig × Option ConfigError
checked_config env c =
    if eq_ℤ c.http_write_timeout (pos 0)
    then (c, some write_timeout_zero)
    else if not (nonempty c.function_process) && needs_process c.operational_mode
    then (c, some missing_process)
    else (with_jwt env c, none)

module _ (parse_duration : String → Option Duration) where
  abbrev default_timeout : Duration
  default_timeout = pos (30 * second)

  unfoldable pub read_write_timeout : EnvMap → Duration
  read_write_timeout env = get_duration parse_duration env "write_timeout" default_timeout

  unfoldable pub read_healthcheck_interval : EnvMap → Duration → Duration
  read_healthcheck_interval env write_timeout = elim (lookup "healthcheck_interval" env) [
    | some val ↦ parse_int_or_duration_value parse_duration val write_timeout
    | none ↦ write_timeout
  ]

  -- The configuration before the checks, and before the JWT settings are read.
  unfoldable pub initial_config : EnvMap → ℤ → WatchdogConfig
  unfolding read_write_timeout
  initial_config env log_buffer_size = record empty_config {
    tcp_port = get_int env "port" (pos 8080);
    http_read_timeout = get_duration parse_duration env "read_timeout" default_timeout;
    http_write_timeout = read_write_timeout env;
    healthcheck_interval = read_healthcheck_interval env (read_write_timeout env);
    function_process = either_value env "fprocess" "function_process";
    static_path = or_else (lookup "static_path" env) "/home/app/public";
    inject_cgi_headers = true;
    exec_timeout = get_duration parse_duration env "exec_timeout" default_timeout;
    operational_mode = read_mode env;
    content_type = or_else (lookup "content_type" env) "application/octet-stream";
    suppress_lock = get_bool env "suppress_lock";
    upstream_url = either_value env "upstream_url" "http_upstream_url";
    buffer_http_body = get_bools env ("buffer_http" ∷ "http_buffer_req_body" ∷ []);
    metrics_port = pos 8081;
    max_inflight = get_int env "max_inflight" (pos 0);
    prefix_logs = read_prefix_logs env;
    log_buffer_size = log_buffer_size;
    ready_endpoint = value env "ready_path";
    log_call_id = read_log_call_id env;
  }

  -- `New` after mapEnv.
  unfoldable pub from_map : EnvMap → WatchdogConfig × Option ConfigError
  unfolding checked_config
  from_map env = elim (read_log_buffer_size env) [
    | inr val ↦ (empty_config, some (invalid_log_buffer_size val))
    | inl size ↦ checked_config env (initial_config env size)
  ]

  -- `New`: the configuration, and the error if there is one.
  unfoldable pub new : List String → WatchdogConfig × Option ConfigError
  unfolding from_map
  new env = from_map (map_env env).0
