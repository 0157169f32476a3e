-- ===== src/Watchdog/Environment/Headers.antt =====
-- The headers of a request in the environment of the function.
use of_watchdog.Prelude.{
  All, Bool, Bool-cases, List, Option-cases, String, [], arith, cons-<>, eq_iff, false,
  if◌then◌else◌, inl, inr, none, nonempty, or_else, refl, some, str_eq, subst, true, ◌++◌, ◌∙◌, ◌∷◌,
  ◌≡◌, ◌≢◌,
}
use of_watchdog.Go.Strings.{replace_all}
use of_watchdog.Go.Strings.Laws.{IsFree, IsFree-<>, IsFree-replace_all}
use of_watchdog.Go.Header.{Header, find}
use of_watchdog.Go.Http.{Request}
use of_watchdog.Config.Env.{entry}
use of_watchdog.Config.Env.Laws.{last_value, entry-print}
use of_watchdog.Watchdog.Environment.Laws.{
  last_value-append, last_value-split, entry-method, entry-query, entry-path, entry-encoding,
}
use of_watchdog.Watchdog.Environment.{
  variable, header_name, header_variable, header_variables, request_variables, get_environment,
  encoding, if_given,
}

-- No key holds "=", and no two keys have variables of one name.
abbrev pub IsDistinct : Header → Type 0
IsDistinct [] = Unit
IsDistinct ((k, vs) ∷ h) =
    IsFree b'=' k × All (λ e. header_name e.0 ≢ header_name k) h × IsDistinct h

header_name-ne : (k : String) → header_name k ≢ ""
header_name-ne k e = cc (rw (cons-<> "H" "ttp_" (replace_all b'-' "_" k)) at e)

entry-header :
    (k v : String) → IsFree b'=' k → entry (variable (header_name k) v) ≡ some (header_name k, v)
entry-header k v f = entry-print (header_name k) v (header_name-ne k) (
    IsFree-<> b'=' "Http_" (replace_all b'-' "_" k) (omega arith)
      (IsFree-replace_all b'=' b'-' "_" k (omega arith) f))

-- The variables of the rest of a header, in `header_variables`.
variables-cons :
    (k v : String) (vs : List String) (h : Header) (kvs : List String)
    → header_variables ((k, v ∷ vs) ∷ h) ≡ some kvs
    → (rest : List String) × (header_variables h ≡ some rest)
      × (kvs ≡ variable (header_name k) v ∷ rest)
unfolding header_variables header_variable
variables-cons k v vs h kvs e = elim (Option-cases (header_variables h)) [
  | inl missing ↦ cc (rw (missing, header_variables) at e)
  | inr (rest, found) ↦ (rest, found, cc (rw (found, header_variables) at e))
]

variables-empty :
    (k : String) (h : Header) (kvs : List String) → header_variables ((k, []) ∷ h) ≢ some kvs
unfolding header_variables header_variable
variables-empty k h kvs e = cc e

absent :
    (n : String) (h : Header) (kvs : List String)
    → All (λ e. header_name e.0 ≢ n) h
    → IsDistinct h
    → header_variables h ≡ some kvs
    → last_value n kvs ≡ none
unfolding header_variables
absent n [] kvs a d e = let none_left : kvs ≡ [] = cc e in rw none_left
absent n ((k, []) ∷ h) kvs a d e = absurd (variables-empty k h kvs e)
absent n ((k, v ∷ vs) ∷ h) kvs (other, a) (f, apart, d) e =
    let (rest, found, same) = variables-cons k v vs h kvs e in
    rw (same, absent n h rest a d found, entry-header k v f)
      (ground (arith, eq_iff (header_name k) n))

present :
    (j v : String) (vs : List String) (h : Header) (kvs : List String)
    → IsDistinct h
    → find h j ≡ some (v ∷ vs)
    → header_variables h ≡ some kvs
    → last_value (header_name j) kvs ≡ some v
unfolding find
present j v vs [] kvs d found e = cc
present j v vs ((k, []) ∷ h) kvs d found e = absurd (variables-empty k h kvs e)
present j v vs ((k, x ∷ xs) ∷ h) kvs (f, apart, d) found e =
    let (rest, more, same) = variables-cons k x xs h kvs e in
    elim (Bool-cases (str_eq k j)) [
      | inl here ↦
          let k_is_j : k ≡ j = (eq_iff k j).0 here in
          let first : some (x ∷ xs) ≡ some (v ∷ vs) = rw here at found in
          let x_is_v : x ≡ v = cc first in
          subst (λ i. last_value (header_name i) kvs ≡ some v) k_is_j
            (rw (same, absent (header_name k) h rest apart d more, entry-header k x f)
              (ground (arith, eq_iff (header_name k) (header_name k))))
      | inr there ↦ rw (same, present j v vs h rest d (rw there at found) more) refl
    ]

-- The names of the variables that follow those of the headers.
abbrev pub IsOther : String → Type 0
IsOther n =
    (n ≢ "Http_Method") × (n ≢ "Http_Query") × (n ≢ "Http_Path") × (n ≢ "Http_Transfer_Encoding")

single-absent :
    (n name v : String)
    → entry (variable name v) ≡ some (name, v)
    → n ≢ name
    → last_value n (variable name v ∷ []) ≡ none
single-absent n name v e h = rw e (ground (arith, eq_iff name n))

given-absent :
    (n name v : String) (b : Bool)
    → entry (variable name v) ≡ some (name, v)
    → n ≢ name
    → last_value n (if b then variable name v ∷ [] else []) ≡ none
given-absent n name v true e h = single-absent n name v e h
given-absent n name v false e h = refl

encoding-absent :
    (n : String) (es : List String)
    → n ≢ "Http_Transfer_Encoding"
    → last_value n (encoding es) ≡ none
encoding-absent n [] h = refl
encoding-absent n (e ∷ es) h = single-absent n _ e (entry-encoding e) h

request_variables-absent :
    (n : String) (r : Request) → IsOther n → last_value n (request_variables r) ≡ none
unfolding request_variables
request_variables-absent n r (m, q, p, t) =
    last_value-append n (variable "Http_Method" r.method ∷ []) (
      if_given "Http_Query" r.raw_query
      ++ (if_given "Http_Path" r.path ++ encoding r.transfer_encoding))
    ∙ rw
        (
          last_value-append n (if_given "Http_Query" r.raw_query)
              (if_given "Http_Path" r.path ++ encoding r.transfer_encoding),
          last_value-append n (if_given "Http_Path" r.path) (encoding r.transfer_encoding),
          encoding-absent n r.transfer_encoding t,
          given-absent n "Http_Path" r.path (nonempty r.path) (entry-path r.path) p,
          given-absent n "Http_Query" r.raw_query (nonempty r.raw_query) (entry-query r.raw_query)
              q,
          single-absent n "Http_Method" r.method (entry-method r.method) m,
        )
        refl

get_environment-missing :
    (environ : List String) (r : Request) (env : List String)
    → header_variables r.header ≡ none
    → get_environment environ r ≢ some env
unfolding get_environment
get_environment-missing environ r env missing h = cc (rw (missing, get_environment) at h)

-- Where no header's key holds "=" and no two headers have variables of one name, the first value of
-- each header is in the environment of the function, under the header's name with "_" for "-" and
-- after "Http_", whatever the watchdog's own variables are and in whatever order the header is
-- ranged over; unless that is the name of one of the four variables of the request itself.
pub get_environment-header :
    (environ : List String) (r : Request) (env : List String) (j v : String) (vs : List String)
    → get_environment environ r ≡ some env
    → IsDistinct r.header
    → find r.header j ≡ some (v ∷ vs)
    → IsOther (header_name j)
    → last_value (header_name j) env ≡ some v
get_environment-header environ r env j v vs h d found other =
    last_value-split environ r (header_name j) env h
    ∙ rw (request_variables-absent (header_name j) r other)
        (elim (Option-cases (header_variables r.header)) [
          | inl missing ↦ absurd (get_environment-missing environ r env missing h)
          | inr (kvs, given) ↦
              last_value-append (header_name j) environ (or_else (header_variables r.header) [])
              ∙ rw given (rw (present j v vs r.header kvs d found given) refl)
        ])
