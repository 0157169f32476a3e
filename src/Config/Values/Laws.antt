-- ===== src/Config/Values/Laws.antt =====
-- Values in range, out of range and malformed.
use of_watchdog.Prelude.{
  List, Option, String, [], arith, eq_iff, neg_part, pos, true, ℕ, ℤ, ◌*◌, ◌-◌, ◌<◌, ◌^◌, ◌↔◌, ◌∷◌,
  ◌≡◌, ◌≢◌, ◌≤◌, ◌⊎◌,
}
use of_watchdog.Prelude.Int.{wrap64, wrap64-eq_of_lt}
use of_watchdog.Go.Strconv.{atoi}
use of_watchdog.Config.Env.{EnvMap, value}
use of_watchdog.Config.Values.{Duration, second, parse_int_or_duration_value, get_bool, get_bools}

atoi_ok-ne-nil : (val : String) (n : ℤ) → atoi val ≡ (n, true) → val ≢ ""
unfolding atoi
atoi_ok-ne-nil val n h e = cc (rw e at h)

-- A value that Atoi reads as n ≥ 0 seconds, n at most 9223372036, is n seconds whatever the
-- fallback.
pub parse_int_or_duration_value-seconds :
    (parse_duration : String → Option Duration) (val : String) (fallback : Duration) (n : ℕ)
    → atoi val ≡ (pos n, true)
    → n ≤ 9223372036
    → parse_int_or_duration_value parse_duration val fallback ≡ pos (n * second)
unfolding parse_int_or_duration_value
parse_int_or_duration_value-seconds parse_duration val fallback n h k =
    rw h (ground (arith, eq_iff val "", atoi_ok-ne-nil val (pos n) h, wrap64-eq_of_lt (n * second)))

-- Above that bound, up to the next one, the number of nanoseconds wraps and the duration is negative.
pub parse_int_or_duration_value-wraps :
    (parse_duration : String → Option Duration) (val : String) (fallback : Duration) (n : ℕ)
    → atoi val ≡ (pos n, true)
    → 9223372036 < n
    → n ≤ 18446744073
    → neg_part (parse_int_or_duration_value parse_duration val fallback) ≡ 2 ^ 64 - n * second
unfolding parse_int_or_duration_value wrap64
parse_int_or_duration_value-wraps parse_duration val fallback n h k l =
    rw h (ground (arith, eq_iff val "", atoi_ok-ne-nil val (pos n) h))

abbrev AnyTrue : EnvMap → List String → Type 0
AnyTrue env [] = ⊥
AnyTrue env (k ∷ ks) = ((value env k ≡ "true") ⊎ (value env k ≡ "1")) ⊎ AnyTrue env ks

-- `getBools` is true exactly when one of the names has the value "true" or "1".
pub get_bools_iff :
    (env : EnvMap) (key : List String) → (get_bools env key ≡ true) ↔ AnyTrue env key
unfolding get_bools get_bool
get_bools_iff env [] = ((λ h. cc), λ h. absurd h)
get_bools_iff env (k ∷ key) =
    ground (arith, eq_iff (value env k) "true", eq_iff (value env k) "1", get_bools_iff env key)
