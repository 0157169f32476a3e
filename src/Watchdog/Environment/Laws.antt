-- ===== src/Watchdog/Environment/Laws.antt =====
-- What the function's process finds in its environment, where the last of two variables of one
-- name counts.
use of_watchdog.Prelude.{
  Bool, List, Option, Option-cases, String, [], ap, arith, eq_iff, false, if◌then◌else◌, inl, inr,
  none, nonempty, or_else, some, sym, true, ◌++◌, ◌∙◌, ◌∷◌, ◌≡◌, ◌≢◌,
}
use mathlib.Core.List.{append_assoc}
use of_watchdog.Go.Strings.Laws.{IsFree}
use of_watchdog.Go.Http.{Request}
use of_watchdog.Config.Env.{entry}
use of_watchdog.Config.Env.Laws.{last_value, or_first, gives, entry-print, or_first_assoc}
use of_watchdog.Watchdog.Environment.{
  variable, header_variables, encoding, request_variables, get_environment,
}

pub last_value-append :
    (k : String) (xs ys : List String)
    → last_value k (xs ++ ys) ≡ or_first (last_value k ys) (last_value k xs)
last_value-append k [] ys = ground arith
last_value-append k (x ∷ xs) ys = cc (
  last_value-append k xs ys,
  or_first_assoc (last_value k ys) (last_value k xs) (gives k (entry x)),
)

entry-variable :
    (name value : String)
    → name ≢ ""
    → IsFree b'=' name
    → entry (variable name value) ≡ some (name, value)
entry-variable name value h f = entry-print name value h f

pub entry-method : (v : String) → entry (variable "Http_Method" v) ≡ some ("Http_Method", v)
entry-method v =
    entry-variable "Http_Method" v (ground (arith, eq_iff "Http_Method" "")) (omega arith)

pub entry-query : (v : String) → entry (variable "Http_Query" v) ≡ some ("Http_Query", v)
entry-query v = entry-variable "Http_Query" v (ground (arith, eq_iff "Http_Query" "")) (omega arith)

pub entry-path : (v : String) → entry (variable "Http_Path" v) ≡ some ("Http_Path", v)
entry-path v = entry-variable "Http_Path" v (ground (arith, eq_iff "Http_Path" "")) (omega arith)

pub entry-encoding :
    (v : String) → entry (variable "Http_Transfer_Encoding" v) ≡ some ("Http_Transfer_Encoding", v)
entry-encoding v =
    entry-variable "Http_Transfer_Encoding" v (ground (arith, eq_iff "Http_Transfer_Encoding" ""))
      (omega arith)

ruleset entries = (entry-method, entry-query, entry-path, entry-encoding)

-- The variables of a request, by whether it has a query and a path.
abbrev request_list : String → String → String → Bool → Bool → List String → List String
request_list m q p has_query has_path es =
    variable "Http_Method" m
    ∷ ((if has_query then variable "Http_Query" q ∷ [] else [])
        ++ ((if has_path then variable "Http_Path" p ∷ [] else []) ++ encoding es))

request_list-values :
    (m q p : String) (has_query has_path : Bool) (es : List String)
    → (last_value "Http_Method" (request_list m q p has_query has_path es) ≡ some m)
      × (last_value "Http_Query" (request_list m q p has_query has_path es)
          ≡ (if has_query then some q else none))
      × (last_value "Http_Path" (request_list m q p has_query has_path es)
          ≡ (if has_path then some p else none))
request_list-values m q p true true [] = (simp entries, simp entries, simp entries)
request_list-values m q p true true (e ∷ es) = (simp entries, simp entries, simp entries)
request_list-values m q p true false [] = (simp entries, simp entries, simp entries)
request_list-values m q p true false (e ∷ es) = (simp entries, simp entries, simp entries)
request_list-values m q p false true [] = (simp entries, simp entries, simp entries)
request_list-values m q p false true (e ∷ es) = (simp entries, simp entries, simp entries)
request_list-values m q p false false [] = (simp entries, simp entries, simp entries)
request_list-values m q p false false (e ∷ es) = (simp entries, simp entries, simp entries)

module _ (environ : List String) (r : Request) where
  -- The variables that come before those of the request itself.
  abbrev pub before : List String
  before = environ ++ or_else (header_variables r.header) []

  get_environment-split :
      (env : List String)
      → get_environment environ r ≡ some env
      → env ≡ before ++ request_variables r
  unfolding get_environment
  get_environment-split env h = elim (Option-cases (header_variables r.header)) [
    | inl missing ↦ cc (rw (missing, get_environment) at h)
    | inr (kvs, found) ↦
        let e : ◌≡◌ {A = Option (List String)} (some (environ ++ (kvs ++ request_variables r)))
            (some env) =
          rw (found, get_environment) at h in
        let same : env ≡ environ ++ (kvs ++ request_variables r) = cc e in
        same ∙ rw found (sym (append_assoc environ kvs (request_variables r)))
  ]

  pub last_value-split :
      (k : String) (env : List String)
      → get_environment environ r ≡ some env
      → last_value k env ≡ or_first (last_value k (request_variables r)) (last_value k before)
  last_value-split k env h =
      ap (last_value k) (get_environment-split env h)
      ∙ last_value-append k before (request_variables r)

  -- In the environment of a function the method is that of its request, and so are the query and
  -- the path where the request has them, whatever the watchdog's own variables and the client's
  -- headers are. A query or path that the request does not have is taken from those.
  pub get_environment-values :
      (env : List String)
      → get_environment environ r ≡ some env
      → (last_value "Http_Method" env ≡ some r.method)
        × (last_value "Http_Query" env
            ≡ or_first
                (if nonempty r.raw_query then some r.raw_query else none)
                (last_value "Http_Query" before))
        × (last_value "Http_Path" env
            ≡ or_first
                (if nonempty r.path then some r.path else none)
                (last_value "Http_Path" before))
  unfolding request_variables
  get_environment-values env h =
      let (m, q, p) =
        request_list-values r.method r.raw_query r.path (nonempty r.raw_query) (nonempty r.path)
          r.transfer_encoding in
      (
        last_value-split "Http_Method" env h
            ∙ ap (λ v. or_first v (last_value "Http_Method" before)) m,
        last_value-split "Http_Query" env h
            ∙ ap (λ v. or_first v (last_value "Http_Query" before)) q,
        last_value-split "Http_Path" env h ∙ ap (λ v. or_first v (last_value "Http_Path" before)) p,
      )
