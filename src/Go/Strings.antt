-- ===== src/Go/Strings.antt =====
-- Package strings, on texts of code points: cutting and splitting at an ASCII byte, searching,
-- replacing, lower case.
pub mod Laws
pub mod Parts
use text.Mathlib.Text.{starts_with}
use mathlib.Core.Option
use Prim.Native.String.{char_at}
use of_watchdog.Prelude.{
  Bool, Char, List, Option, String, [], code, if◌then◌else◌, leb, none, some, ℕ, ◌&&◌, ◌-◌, ◌<>◌,
  ◌==◌, ◌||◌, ◌∷◌,
}

abbrev pub cons_first : Char → String × String → String × String
cons_first c (a, b) = (String.◌∷◌ c a, b)

-- `s[:i]` and `s[i+1:]` for `i = strings.Index(s, sep)`, or nothing when `sep` is not found.
unfoldable pub cut : ℕ → String → Option (String × String)
cut sep String.[] = none
cut sep (String.◌∷◌ c s) =
    if code c == sep then some ("", s) else Option.map (cons_first c) (cut sep s)

abbrev pub push_head : Char → List String → List String
push_head c [] = String.◌∷◌ c "" ∷ []
push_head c (x ∷ xs) = String.◌∷◌ c x ∷ xs

-- `strings.Split(s, sep)`: at least one part, and none of them holds the separator.
unfoldable pub split : ℕ → String → List String
split sep String.[] = "" ∷ []
split sep (String.◌∷◌ c s) = if code c == sep then "" ∷ split sep s else push_head c (split sep s)

-- `strings.Join(parts, sep)`.
unfoldable pub join : String → List String → String
join sep [] = ""
join sep (x ∷ []) = x
join sep (x ∷ y ∷ xs) = x <> sep <> join sep (y ∷ xs)

abbrev pub has_prefix : String → String → Bool
has_prefix s prefix = starts_with s prefix

-- `strings.Contains(s, part)`: some suffix of `s` starts with `part`.
unfoldable pub contains : String → String → Bool
contains String.[] part = starts_with "" part
contains (String.◌∷◌ c s) part = starts_with (String.◌∷◌ c s) part || contains s part

-- `strings.Replace(s, old, new, -1)` for single ASCII characters.
unfoldable pub replace_all : ℕ → Char → String → String
replace_all old new String.[] = ""
replace_all old new (String.◌∷◌ c s) =
    String.◌∷◌ (if code c == old then new else c) (replace_all old new s)

abbrev lower_letters : String
lower_letters = "abcdefghijklmnopqrstuvwxyz"

-- The two non-ASCII letters whose lower case is an ASCII letter are U+0130 and U+212A. No other
-- change of a non-ASCII letter can be seen by a search for ASCII text, so those are left alone.
lower_char : Char → Char
lower_char c =
    if leb 65 (code c) && leb (code c) 90
    then char_at lower_letters (code c - 65)
    else if code c == 0x130
    then "i"
    else if code c == 0x212a
    then "k"
    else c

-- `strings.ToLower(s)`, as far as a search for ASCII text can tell.
unfoldable pub to_lower : String → String
unfolding lower_char
to_lower String.[] = ""
to_lower (String.◌∷◌ c s) = String.◌∷◌ (lower_char c) (to_lower s)
