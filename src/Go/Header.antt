-- ===== src/Go/Header.antt =====
-- http.Header: a map from canonical keys to values. The order of an entry in the list is the
-- order in which a `range` over the map meets it.
pub mod Laws
use Prim.Native.String.{char_at}
use of_watchdog.Prelude.{
  Bool, Char, List, Option, String, [], code, false, if◌then◌else◌, leb, none, some, str_eq, true,
  ℕ, ◌&&◌, ◌++◌, ◌-◌, ◌==◌, ◌||◌, ◌∷◌,
}

abbrev pub Header : Type 0
Header = List (String × List String)

is_upper : ℕ → Bool
is_upper c = leb 65 c && leb c 90

is_lower : ℕ → Bool
is_lower c = leb 97 c && leb c 122

-- The bytes that a header's key may hold: letters, digits and !#$%&'*+-.^_`|~.
is_key_char : ℕ → Bool
unfolding is_upper is_lower
is_key_char c =
    is_upper c
    || (is_lower c
        || (leb 48 c && leb c 57
            || (c == 33
                || (leb 35 c && leb c 39
                    || (leb 42 c && leb c 43
                        || (leb 45 c && leb c 46
                            || (leb 94 c && leb c 96 || (c == 124 || c == 126))))))))

is_key : String → Bool
unfolding is_key_char
is_key String.[] = true
is_key (String.◌∷◌ c s) = is_key_char (code c) && is_key s

abbrev upper_letters : String
upper_letters = "ABCDEFGHIJKLMNOPQRSTUVWXYZ"

abbrev lower_letters : String
lower_letters = "abcdefghijklmnopqrstuvwxyz"

-- A letter that starts a word is made upper case, any other letter lower case.
canonical_char : Bool → Char → Char
unfolding is_upper is_lower
canonical_char true c = if is_lower (code c) then char_at upper_letters (code c - 97) else c
canonical_char false c = if is_upper (code c) then char_at lower_letters (code c - 65) else c

canonical_from : Bool → String → String
unfolding canonical_char
canonical_from start String.[] = ""
canonical_from start (String.◌∷◌ c s) =
    String.◌∷◌ (canonical_char start c) (canonical_from (code c == b'-') s)

-- `textproto.CanonicalMIMEHeaderKey`; a key with a byte that is not allowed is left alone.
unfoldable pub canonical_key : String → String
unfolding is_key canonical_from
canonical_key s = if is_key s then canonical_from true s else s

-- `h[k]`, the map's own access.
unfoldable pub find : Header → String → Option (List String)
find [] k = none
find ((j, vs) ∷ h) k = if str_eq j k then some vs else find h k

-- `h[k] = vs`, the map's own assignment.
unfoldable pub put : Header → String → List String → Header
put [] k vs = (k, vs) ∷ []
put ((j, ws) ∷ h) k vs = if str_eq j k then (j, vs) ∷ h else (j, ws) ∷ put h k vs

abbrev first : Option (List String) → String
first none = ""
first (some []) = ""
first (some (v ∷ vs)) = v

-- `h.Get(k)`.
unfoldable pub get : Header → String → String
unfolding find
get h k = first (find h (canonical_key k))

-- `h.Set(k, v)`.
unfoldable pub set : Header → String → String → Header
unfolding put
set h k v = put h (canonical_key k) (v ∷ [])

abbrev values : Option (List String) → List String
values none = []
values (some vs) = vs

-- `h.Add(k, v)`.
unfoldable pub add : Header → String → String → Header
unfolding find put
add h k v = put h (canonical_key k) (values (find h (canonical_key k)) ++ v ∷ [])
