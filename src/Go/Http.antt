-- ===== src/Go/Http.antt =====
-- net/http: a request as the handlers read it, and the response writer of the server.
use of_watchdog.Prelude.{
  Bool, List, Option, String, [], code, if◌then◌else◌, is_some, none, some, ℕ, ℤ, ◌++◌,
}
use of_watchdog.Go.Header.{Header}
use of_watchdog.Go.Header

-- A failed call is an error with its message.
abbrev pub Error : Type 0
Error = String

-- `http.Request`. The body is what reading it to the end yields: its bytes, and the error that
-- ended the reading if it was not the end of the body. `has_body` is `r.Body != nil`.
pub record Request : Type 0 where
  pub method : String
  pub request_uri : String
  pub scheme : String
  pub url_host : String
  pub path : String
  pub raw_query : String
  pub host : String
  pub header : Header
  pub transfer_encoding : List String
  pub content_length : ℤ
  pub has_body : Bool
  pub body : List ℕ
  pub body_error : Option Error

-- `r.UserAgent()`.
abbrev pub user_agent : Request → String
user_agent r = Header.get r.header "User-Agent"

-- `http.ResponseWriter`: the header map that handlers change, what was sent as the status line
-- with the headers as they stood then, and the bytes of the body that were sent.
pub record Writer : Type 0 where
  pub header : Header
  pub sent : Option (ℕ × Header)
  pub body : List ℕ

abbrev pub fresh : Writer
fresh = record { header = []; sent = none; body = [] }

-- `w.WriteHeader(code)`: only the first call counts.
unfoldable pub write_header : Writer → ℕ → Writer
write_header w code = if is_some w.sent then w else record w { sent = some (code, w.header) }

-- `w.Write(bytes)`: the first write sends status 200.
unfoldable pub write : Writer → List ℕ → Writer
unfolding write_header
write w bytes = let w' = write_header w 200 in record w' { body = w'.body ++ bytes }

-- `w.Header().Set(k, v)` and `w.Header().Add(k, v)`.
abbrev pub set_header : Writer → String → String → Writer
set_header w k v = record w { header = Header.set w.header k v }

abbrev pub add_header : Writer → String → String → Writer
add_header w k v = record w { header = Header.add w.header k v }

abbrev status_of : Option (ℕ × Header) → Option ℕ
status_of none = none
status_of (some (code, _)) = some code

-- The status that the client sees when the handler has returned.
abbrev pub status : Writer → Option ℕ
status w = status_of w.sent
