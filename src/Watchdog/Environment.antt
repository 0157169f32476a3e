-- ===== src/Watchdog/Environment.antt =====
-- pkg/watchdog.go: getEnvironment, getFnName, getFnNamespace.
pub mod Headers
pub mod Laws
use of_watchdog.Prelude.{
  List, Option, String, [], if◌then◌else◌, inl, inr, none, nonempty, some, ◌++◌, ◌<>◌, ◌∷◌, ◌⊎◌,
}
use mathlib.Core.Option
use of_watchdog.Go.Strings.{replace_all}
use of_watchdog.Go.Header.{Header}
use of_watchdog.Go.Http.{Error, Request}

-- One variable, `name=value`.
abbrev pub variable : String → String → String
variable name value = name <> "=" <> value

-- The name of the variable of a header.
abbrev pub header_name : String → String
header_name k = "Http_" <> replace_all b'-' "_" k

-- The variable of a header, whose first value it has. Nothing stands for the panic of a key with
-- no value.
unfoldable pub header_variable : String → List String → Option String
header_variable k [] = none
header_variable k (v ∷ vs) = some (variable (header_name k) v)

-- The loop over the header, in the order in which the map is ranged over.
unfoldable pub header_variables : Header → Option (List String)
header_variables [] = some []
header_variables ((k, vs) ∷ h) = elim (header_variable k vs) [
  | none ↦ none
  | some kv ↦ Option.map (λ kvs. kv ∷ kvs) (header_variables h)
]

abbrev if_given : String → String → List String
if_given name value = if nonempty value then variable name value ∷ [] else []

abbrev encoding : List String → List String
encoding [] = []
encoding (e ∷ es) = variable "Http_Transfer_Encoding" e ∷ []

-- The variables that follow those of the headers.
unfoldable pub request_variables : Request → List String
request_variables r =
    variable "Http_Method" r.method
    ∷ (if_given "Http_Query" r.raw_query
        ++ (if_given "Http_Path" r.path ++ encoding r.transfer_encoding))

-- `getEnvironment`: `environ` is the watchdog's own environment.
unfoldable pub get_environment : List String → Request → Option (List String)
unfolding header_variables request_variables
get_environment environ r =
    Option.map (λ kvs. environ ++ (kvs ++ request_variables r)) (header_variables r.header)

-- `getFnName`, of the value of OPENFAAS_NAME.
unfoldable pub get_fn_name : Option String → String ⊎ Error
get_fn_name none = inr "env variable 'OPENFAAS_NAME' not set"
get_fn_name (some name) =
    if nonempty name then inl name else inr "env variable 'OPENFAAS_NAME' not set"

-- `getFnNamespace`, of the value of OPENFAAS_NAMESPACE and of reading the service account's file.
unfoldable pub get_fn_namespace : Option String → String ⊎ Error → String ⊎ Error
get_fn_namespace (some namespace) file = inl namespace
get_fn_namespace none file = file
