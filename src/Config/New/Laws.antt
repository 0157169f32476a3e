-- ===== src/Config/New/Laws.antt =====
-- When New succeeds, and what then holds of the configuration.
use of_watchdog.Prelude.{
  Bool-cases, List, Option, String, ap, arith, eq_iff, inl, inr, none, pos, refl, some, sym, true,
  ℤ, ◌↔◌, ◌∙◌, ◌≡◌, ◌≢◌, ◌≤◌, ◌⊎◌,
}
use mathlib.Core.Path.{fun_ext}
use of_watchdog.Go.Strconv.{atoi}
use of_watchdog.Config.Modes.{mode_static, mode_inproc}
use of_watchdog.Config.Modes.Laws.{watchdog_mode_const-le}
use of_watchdog.Config.Env.{EnvMap, map_env, value, lookup}
use of_watchdog.Config.Env.Laws.{last_value, lookup-map_env}
use of_watchdog.Config.Values.{Duration}
use of_watchdog.Config.New.{
  WatchdogConfig, read_log_buffer_size, read_write_timeout, read_mode, either_value, initial_config,
  max_scan_token_size, checked_config, from_map, new,
}

pub record IsUsable (c : WatchdogConfig) : Type 0 where
  pub timeout : c.http_write_timeout ≢ pos 0
  pub command :
      (c.function_process ≢ "")
      ⊎ (c.operational_mode ≡ mode_static)
      ⊎ (c.operational_mode ≡ mode_inproc)
  pub mode : c.operational_mode ≤ 6
  pub metrics : c.metrics_port ≡ pos 8081
  pub headers : c.inject_cgi_headers ≡ true
  pub no_handler : c.handler ≡ none

read_mode-le : (env : EnvMap) → read_mode env ≤ 6
unfolding read_mode
read_mode-le env = ground (arith, watchdog_mode_const-le (value env "mode"))

checked_config-IsUsable :
    (env : EnvMap) (c : WatchdogConfig)
    → c.operational_mode ≤ 6
    → c.metrics_port ≡ pos 8081
    → c.inject_cgi_headers ≡ true
    → c.handler ≡ none
    → (checked_config env c).1 ≡ none
    → IsUsable (checked_config env c).0
unfolding checked_config
checked_config-IsUsable env c mode metrics headers handler h =
    ground (arith, eq_iff c.function_process "")

module _ (parse_duration : String → Option Duration) where
  from_map-IsUsable :
      (env : EnvMap) (size : ℤ ⊎ String)
      → read_log_buffer_size env ≡ size
      → (from_map parse_duration env).1 ≡ none
      → IsUsable (from_map parse_duration env).0
  unfolding from_map initial_config
  from_map-IsUsable env (inr val) e h = cc (rw (e, from_map) at h)
  from_map-IsUsable env (inl size) e h =
      rw (e, from_map)
        (checked_config-IsUsable env (initial_config parse_duration env size) (read_mode-le env)
          refl refl refl (rw (e, from_map) at h))

  -- A configuration that New returns without an error has a write timeout other than 0, a command
  -- unless the mode is static or inproc, a mode of 0 to 6, the metrics port 8081, CGI headers on,
  -- and no handler.
  pub new-IsUsable :
      (env : List String) → (new parse_duration env).1 ≡ none → IsUsable (new parse_duration env).0
  unfolding new initial_config
  new-IsUsable env h = from_map-IsUsable (map_env env).0 _ refl h

  -- The configuration depends only on the last value that the environment gives to each name.
  pub new-eq_of_last_value :
      (env env' : List String)
      → ((k : String) → last_value k env ≡ last_value k env')
      → new parse_duration env ≡ new parse_duration env'
  unfolding new
  new-eq_of_last_value env env' h =
      ap (from_map parse_duration)
        (fun_ext λ k. lookup-map_env k env ∙ h k ∙ sym (lookup-map_env k env'))

abbrev pub IsNumber : Option String → Type 0
IsNumber none = Unit
IsNumber (some val) = (atoi val).1 ≡ true

checked_config_iff :
    (m : EnvMap) (c : WatchdogConfig)
    → ((checked_config m c).1 ≡ none) ↔ (
        (c.http_write_timeout ≢ pos 0)
        × ((c.function_process ≢ "")
            ⊎ (c.operational_mode ≡ mode_static)
            ⊎ (c.operational_mode ≡ mode_inproc)))
unfolding checked_config
checked_config_iff m c = ground (arith, eq_iff c.function_process "")

module _ (parse_duration : String → Option Duration) (m : EnvMap) where
  -- There is a command, or the mode needs none.
  abbrev pub HasProcess : Type 0
  HasProcess =
      (either_value m "fprocess" "function_process" ≢ "")
      ⊎ (read_mode m ≡ mode_static)
      ⊎ (read_mode m ≡ mode_inproc)

  from_map-eq-none_iff :
      (size : Option String)
      → lookup "log_buffer_size" m ≡ size
      → ((from_map parse_duration m).1 ≡ none)
        ↔ (IsNumber size × (read_write_timeout parse_duration m ≢ pos 0) × HasProcess)
  unfolding from_map initial_config read_log_buffer_size
  from_map-eq-none_iff none e =
      rw (e, from_map, read_log_buffer_size)
        (let c = initial_config parse_duration m max_scan_token_size in
          let (to, from) = checked_config_iff m c in
          (λ h. (tt, (to h).0, (to h).1), λ t. from (t.1, t.2)))
  from_map-eq-none_iff (some val) e = elim (Bool-cases (atoi val).1) [
    | inl good ↦
        rw (e, from_map, read_log_buffer_size)
          (rw good (
            let c = initial_config parse_duration m (atoi val).0 in
            let (to, from) = checked_config_iff m c in
            (λ h. (refl, (to h).0, (to h).1), λ t. from (t.1, t.2))))
    | inr bad ↦ rw (e, from_map, read_log_buffer_size) (rw bad ((λ h. cc), λ t. cc (t.0)))
  ]

module _ (parse_duration : String → Option Duration) (env : List String) where
  abbrev pub vars : EnvMap
  vars = (map_env env).0

  -- New succeeds exactly when log_buffer_size is absent or a number, the write timeout is not 0,
  -- and there is a command or the mode is static or inproc.
  pub new-eq-none_iff : ((new parse_duration env).1 ≡ none) ↔ (
      IsNumber (lookup "log_buffer_size" vars)
      × (read_write_timeout parse_duration vars ≢ pos 0)
      × HasProcess parse_duration vars)
  unfolding new
  new-eq-none_iff = from_map-eq-none_iff parse_duration vars _ refl
