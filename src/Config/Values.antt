-- ===== src/Config/Values.antt =====
-- config/config.go: one value of the environment as a duration, a number or a boolean, and the
-- command line of the function process.
pub mod Laws
pub mod Process
use of_watchdog.Prelude.{
  Bool, List, Option, String, [], false, if◌then◌else◌, is_nonneg, none, nonempty, or_else,
  pos_part, some, str_eq, true, ℕ, ℤ, ◌&&◌, ◌*◌, ◌||◌, ◌∷◌,
}
use of_watchdog.Prelude.Int.{wrap64}
use of_watchdog.Go.Strings.{split}
use of_watchdog.Go.Strconv.{atoi}
use of_watchdog.Config.Env.{EnvMap, lookup, value}

-- A time.Duration is a number of nanoseconds.
abbrev pub Duration : Type 0
Duration = ℤ

abbrev pub second : ℕ
second = 1_000_000_000

abbrev is_seconds : ℤ × Bool → Bool
is_seconds (n, ok) = ok && is_nonneg n

-- `time.ParseDuration` is a parameter here and in all that reads durations.
module _ (parse_duration : String → Option Duration) where
  unfoldable pub parse_int_or_duration_value : String → Duration → Duration
  parse_int_or_duration_value val fallback =
      if nonempty val && is_seconds (atoi val)
      then wrap64 (pos_part (atoi val).0 * second)
      else or_else (parse_duration val) fallback

  unfoldable pub get_duration : EnvMap → String → Duration → Duration
  get_duration env key default_value = elim (lookup key env) [
    | some val ↦ parse_int_or_duration_value val default_value
    | none ↦ default_value
  ]

unfoldable pub get_int : EnvMap → String → ℤ → ℤ
get_int env key default_value = elim (lookup key env) [
  | some val ↦ (atoi val).0
  | none ↦ default_value
]

unfoldable pub get_bool : EnvMap → String → Bool
get_bool env key = str_eq (value env key) "true" || str_eq (value env key) "1"

-- The loop stops at the first name whose value is true.
unfoldable pub get_bools : EnvMap → List String → Bool
get_bools env [] = false
get_bools env (k ∷ key) = if get_bool env k then true else get_bools env key

abbrev command_of : List String → String × List String
command_of [] = ("", [])
command_of (path ∷ args) = (path, args)

-- `Process`: the executable and its arguments.
unfoldable pub process : String → String × List String
process function_process = command_of (split b' ' function_process)
