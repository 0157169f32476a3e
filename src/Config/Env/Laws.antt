-- ===== src/Config/Env/Laws.antt =====
-- What a lookup in the map finds.
use mathlib.Core.List.{append-nil, append_assoc}
use of_watchdog.Prelude.{
  All, List, Option, String, [], arith, cons-<>, eq_iff, if◌then◌else◌, is_none, nil-<>, none, refl,
  some, str_eq, sym, ◌++◌, ◌<>◌, ◌∙◌, ◌∷◌, ◌≡◌, ◌≢◌,
}
use of_watchdog.Go.Strings.Laws.{IsFree, cut-append}
use of_watchdog.Config.Env.{EnvMap, lookup, entry, add_entry, map_env_from, map_env}

-- The value that one entry gives to a name.
abbrev pub gives : String → Option (String × String) → Option String
gives k none = none
gives k (some (j, v)) = if str_eq j k then some v else none

abbrev pub or_first : Option String → Option String → Option String
or_first none b = b
or_first (some a) b = some a

-- The last value that the environment gives to a name.
abbrev pub last_value : String → List String → Option String
last_value k [] = none
last_value k (val ∷ env) = or_first (last_value k env) (gives k (entry val))

lookup-add_entry :
    (k val : String) (e : Option (String × String)) (st : EnvMap × List String)
    → lookup k (add_entry val e st).0 ≡ or_first (gives k e) (lookup k st.0)
lookup-add_entry k val none st = refl
lookup-add_entry k val (some (j, v)) (m, bad) = ground arith

pub or_first_assoc : (a b c : Option String) → or_first a (or_first b c) ≡ or_first (or_first a b) c
or_first_assoc none b c = refl
or_first_assoc (some a) b c = refl

lookup-map_env_from :
    (k : String) (st : EnvMap × List String) (env : List String)
    → lookup k (map_env_from st env).0 ≡ or_first (last_value k env) (lookup k st.0)
unfolding map_env_from
lookup-map_env_from k st [] = refl
lookup-map_env_from k st (val ∷ env) = cc (
  lookup-map_env_from k (add_entry val (entry val) st) env,
  lookup-add_entry k val (entry val) st,
  or_first_assoc (last_value k env) (gives k (entry val)) (lookup k st.0),
)

or_first-none : (a : Option String) → or_first a none ≡ a
or_first-none none = refl
or_first-none (some a) = refl

-- A name has the value that the last well-formed entry of that name gives it, and no value when
-- there is no such entry.
pub lookup-map_env : (k : String) (env : List String) → lookup k (map_env env).0 ≡ last_value k env
unfolding map_env
lookup-map_env k env =
    lookup-map_env_from k ((λ _. none), []) env ∙ or_first-none (last_value k env)

-- An entry printed from a name without "=" is read as that name and its value.
pub entry-print : (k v : String) → k ≢ "" → IsFree b'=' k → entry (k <> "=" <> v) ≡ some (k, v)
unfolding entry
entry-print k v h f =
    rw (cons-<> "=" "" v, nil-<> v, cut-append "=" k v f, entry) (ground (arith, eq_iff k ""))

-- What is logged as malformed: the entries without "=", and those that start with it.
abbrev pub malformed : List String → List String
malformed [] = []
malformed (val ∷ env) = if is_none (entry val) then val ∷ malformed env else malformed env

add_entry-malformed :
    (val : String) (e : Option (String × String)) (st : EnvMap × List String) (rest : List String)
    → (add_entry val e st).1 ++ rest ≡ st.1 ++ (if is_none e then val ∷ rest else rest)
add_entry-malformed val none st rest = append_assoc st.1 (val ∷ []) rest
add_entry-malformed val (some (k, v)) st rest = refl

map_env_from-malformed :
    (st : EnvMap × List String) (env : List String)
    → (map_env_from st env).1 ≡ st.1 ++ malformed env
unfolding map_env_from
map_env_from-malformed st [] = sym (append-nil st.1)
map_env_from-malformed st (val ∷ env) =
    map_env_from-malformed (add_entry val (entry val) st) env
    ∙ add_entry-malformed val (entry val) st (malformed env)

-- The entries that are logged as malformed are those, in order, that have no "=" or start with it.
pub map_env-malformed : (env : List String) → (map_env env).1 ≡ malformed env
unfolding map_env
map_env-malformed env = map_env_from-malformed ((λ _. none), []) env

-- A list of names and values, printed as the entries of an environment.
abbrev pub print : List (String × String) → List String
print [] = []
print ((k, v) ∷ kvs) = (k <> "=" <> v) ∷ print kvs

-- The last value of a name in such a list.
abbrev pub last : String → List (String × String) → Option String
last j [] = none
last j ((k, v) ∷ kvs) = or_first (last j kvs) (if str_eq k j then some v else none)

abbrev pub IsName : String × String → Type 0
IsName (k, v) = (k ≢ "") × IsFree b'=' k

last_value-print :
    (j : String) (kvs : List (String × String))
    → All IsName kvs
    → last_value j (print kvs) ≡ last j kvs
last_value-print j [] h = refl
last_value-print j ((k, v) ∷ kvs) ((ne, free), h) =
    rw (entry-print k v ne free, last_value-print j kvs h)

-- Names that are not empty and hold no "=", printed with their values as entries, are read back:
-- each name has the last value of the list.
pub lookup-map_env-print :
    (j : String) (kvs : List (String × String))
    → All IsName kvs
    → lookup j (map_env (print kvs)).0 ≡ last j kvs
lookup-map_env-print j kvs h = lookup-map_env j (print kvs) ∙ last_value-print j kvs h
