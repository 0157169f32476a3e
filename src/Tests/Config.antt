-- ===== src/Tests/Config.antt =====
-- The package config on the environment of a small function.
use of_watchdog.Prelude.Int.{wrap64}
use of_watchdog.Prelude.{
  All, List, Option, String, [], arith, eq_iff, if◌then◌else◌, none, pos, refl, some, str_eq, ◌*◌,
  ◌↔◌, ◌∷◌, ◌≡◌, ◌≢◌,
}
use of_watchdog.Config.Env.{entry, lookup, map_env}
use of_watchdog.Config.Env.Laws.{lookup-map_env}
use of_watchdog.Config.Values.{Duration, second, parse_int_or_duration_value, process, get_duration}
use of_watchdog.Config.Values.Process.{join-process}
use of_watchdog.Config.New.{
  new, read_write_timeout, either_value, initial_config, read_log_buffer_size,
}
use of_watchdog.Config.New.Laws.{IsNumber, HasProcess, IsUsable, new-IsUsable, new-eq-none_iff}
use of_watchdog.Go.Strings.{join, cut, split}
use of_watchdog.Go.Strings.Laws.{IsFree}
use of_watchdog.Go.Strconv.{atoi}

abbrev pub parse_duration : String → Option Duration
parse_duration s = if str_eq s "2s" then some (pos (2 * second)) else none

abbrev pub environment : List String
environment =
    "mode=http" ∷ "fprocess=cat -n" ∷ "write_timeout=10" ∷ "nonsense" ∷ "mode=streaming" ∷ []

lookup-map_env_example : lookup "mode" (map_env environment).0 ≡ some "streaming"
unfolding entry cut
lookup-map_env_example = lookup-map_env "mode" environment

accepted : (new parse_duration environment).1 ≡ none
unfolding new read_log_buffer_size map_env entry cut initial_config get_duration
    parse_int_or_duration_value atoi wrap64 either_value
accepted = refl

new-IsUsable_example : IsUsable (new parse_duration environment).0
new-IsUsable_example = new-IsUsable parse_duration environment accepted

new-eq-none_iff_example : ((new parse_duration environment).1 ≡ none) ↔ (
    IsNumber (lookup "log_buffer_size" (map_env environment).0)
    × (read_write_timeout parse_duration (map_env environment).0 ≢ pos 0)
    × HasProcess parse_duration (map_env environment).0)
new-eq-none_iff_example = new-eq-none_iff parse_duration environment

join-process_example :
    (join " " ("cat" ∷ "-n" ∷ []) ≡ "cat -n") × All (IsFree b' ') ("cat" ∷ "-n" ∷ [])
unfolding process split
join-process_example = join-process "cat -n"

pub cat_given : ◌≢◌ {A = String} "cat" ""
cat_given = ground (arith, eq_iff "cat" "")
