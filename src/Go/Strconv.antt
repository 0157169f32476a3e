-- ===== src/Go/Strconv.antt =====
-- Package strconv: Atoi and ParseBool.
use of_watchdog.Prelude.{
  Bool, Option, String, code, false, if◌then◌else◌, leb, ltb, negsuc, none, pos, some, str_eq, true,
  ℕ, ℤ, ◌&&◌, ◌*◌, ◌+◌, ◌-◌, ◌==◌, ◌^◌, ◌||◌,
}
use of_watchdog.Prelude.Int.{neg_ℕ}

-- What `strconv.ParseUint(s, 10, 64)` finds: a value, a value out of range, or no number.
pub data Parsed : Type 0 where
  value : ℕ → Parsed
  out_of_range : Parsed
  bad_syntax : Parsed

-- The loop over the digits; it stops at the first character that is no digit, and at the first
-- digit with which the number passes 2^64 - 1, whichever comes first.
digits_from : ℕ → String → Parsed
digits_from n String.[] = value n
digits_from n (String.◌∷◌ c s) =
    let rest = digits_from (n * 10 + (code c - 48)) s in
    if leb 48 (code c) && leb (code c) 57
    then if ltb (n * 10 + (code c - 48)) (2 ^ 64) then rest else out_of_range
    else bad_syntax

parse_uint : String → Parsed
unfolding digits_from
parse_uint String.[] = bad_syntax
parse_uint (String.◌∷◌ c s) = digits_from 0 (String.◌∷◌ c s)

-- The value and whether the error is nil. Out of range, the value is the nearest `int64`.
to_positive : Parsed → ℤ × Bool
to_positive (value n) = if ltb n (2 ^ 63) then (pos n, true) else (pos (2 ^ 63 - 1), false)
to_positive out_of_range = (pos (2 ^ 63 - 1), false)
to_positive bad_syntax = (pos 0, false)

to_negative : Parsed → ℤ × Bool
to_negative (value n) = if leb n (2 ^ 63) then (neg_ℕ n, true) else (negsuc (2 ^ 63 - 1), false)
to_negative out_of_range = (negsuc (2 ^ 63 - 1), false)
to_negative bad_syntax = (pos 0, false)

-- `strconv.Atoi(s)`: the value, and whether the error is nil.
unfoldable pub atoi : String → ℤ × Bool
unfolding parse_uint to_positive to_negative
atoi String.[] = (pos 0, false)
atoi (String.◌∷◌ c s) =
    if code c == b'-'
    then to_negative (parse_uint s)
    else if code c == b'+'
    then to_positive (parse_uint s)
    else to_positive (parse_uint (String.◌∷◌ c s))

-- `strconv.ParseBool(s)`: nothing stands for the syntax error.
unfoldable pub parse_bool : String → Option Bool
parse_bool s =
    if str_eq s "1"
      || (str_eq s "t"
          || (str_eq s "T" || (str_eq s "true" || (str_eq s "TRUE" || str_eq s "True"))))
    then some true
    else if str_eq s "0"
        || (str_eq s "f"
            || (str_eq s "F" || (str_eq s "false" || (str_eq s "FALSE" || str_eq s "False"))))
    then some false
    else none
