-- ===== src/Config/Env.antt =====
-- config/config.go, mapEnv: the environment as a map from names to values.
pub mod Laws
use of_watchdog.Prelude.{
  List, Option, String, [], if◌then◌else◌, none, nonempty, or_else, some, str_eq, ◌++◌, ◌∷◌,
}
use of_watchdog.Go.Strings.{cut}

-- A Go map is what its access returns: the value of a key, or nothing.
abbrev pub EnvMap : Type 0
EnvMap = String → Option String

-- `val, exists := env[key]`.
abbrev pub lookup : String → EnvMap → Option String
lookup k m = m k

-- `mapped[key] = value`.
abbrev pub insert : String → String → EnvMap → EnvMap
insert k v m j = if str_eq k j then some v else m j

-- `env[key]` on a missing key is the empty text.
abbrev pub value : EnvMap → String → String
value m k = or_else (lookup k m) ""

-- An entry is a name that is not empty, "=" and a value.
unfoldable pub entry : String → Option (String × String)
entry val = elim (cut b'=' val) [
  | none ↦ none
  | some (key, v) ↦ if nonempty key then some (key, v) else none
]

-- One round of the loop: the map, and the entries that were logged as malformed.
abbrev add_entry : String → Option (String × String) → EnvMap × List String → EnvMap × List String
add_entry val none (m, bad) = (m, bad ++ val ∷ [])
add_entry val (some (k, v)) (m, bad) = (insert k v m, bad)

map_env_from : EnvMap × List String → List String → EnvMap × List String
map_env_from st [] = st
map_env_from st (val ∷ env) = map_env_from (add_entry val (entry val) st) env

unfoldable pub map_env : List String → EnvMap × List String
unfolding map_env_from
map_env env = map_env_from ((λ _. none), []) env
