-- ===== src/Executor/HttpRunner/Run.antt =====
-- executor/http_runner.go, Run: one request forwarded to the function.
pub mod Laws
pub mod Routing
use of_watchdog.Prelude.{
  Bool, List, Option, String, [], if◌then◌else◌, is_none, is_some, none, not, pos, some, ℕ, ℤ, ◌&&◌,
  ◌++◌, ◌<>◌, ◌∷◌,
}
use of_watchdog.Go.Header
use of_watchdog.Go.Header.{Header}
use of_watchdog.Go.Http.{
  Error, Request, Writer, user_agent, write, write_header, set_header, add_header,
}
use of_watchdog.Config.Values.{Duration}
use of_watchdog.Executor.Base.{
  LogLine, access, upstream, upstream_call, note, log_unless_probe, deadline,
}
use of_watchdog.Executor.Inproc.{call_id}
use of_watchdog.Executor.HttpRunner.Headers.{copy_headers, forwarded_header, requires_stdlib_proxy}
use of_watchdog.Executor.HttpRunner.Timeout.{get_timeout}

-- `HTTPFunctionRunner`, as far as Run reads it. `upstream_url` is the text of the URL.
pub record HttpFunctionRunner : Type 0 where
  pub exec_timeout : Duration
  pub process : String
  pub process_args : List String
  pub upstream_url : String
  pub buffer_http_body : Bool
  pub log_prefix : Bool
  pub log_buffer_size : ℤ
  pub log_call_id : Bool

-- The request that is sent to the function; `body_error` is the error that reading its body ends
-- with, which `io.ReadAll` has dropped where the body was buffered.
pub record Outgoing : Type 0 where
  pub method : String
  pub url : String
  pub body : List ℕ
  pub body_error : Option Error
  pub header : Header
  pub host : String
  pub limit : Option Duration

-- `http.Response`; `copied` is the error of copying the body, whose bytes are those that came.
pub record Response : Type 0 where
  pub status_code : ℕ
  pub status : String
  pub header : Header
  pub content_length : ℤ
  pub body : Option (List ℕ)
  pub copied : Option Error

-- What `Client.Do` returns: a response, or an error and what `reqCtx.Err()` is then.
pub data Reply : Type 0 where
  replied : Response → Reply
  failed : Error → Option Error → Reply

-- What Run calls: `time.ParseDuration`, the check that `http.NewRequest` makes of the method and
-- the URL, the HTTP client, the reverse proxy, the status and byte count of an interceptor that
-- nothing is written to, and the error of a context once it has ended.
pub record Network : Type 0 where
  pub parse_duration : String → Option Duration
  pub new_request_error : String → String → Option Error
  pub client_do : Outgoing → Reply
  pub proxy : Request → Writer → Writer
  pub idle : ℕ × ℕ
  pub ended : Error

-- The writer, the lines that were logged and the error that is returned.
abbrev pub Served : Type 0
Served = Writer × List LogLine × Option Error

-- The headers of a response that the watchdog makes itself.
abbrev internal : String → Writer → Writer
internal seconds w =
    add_header (set_header w "X-Duration-Seconds" seconds) "X-OpenFaaS-Internal" "of-watchdog"

-- `io.Copy` of the response's body.
abbrev optional_write : Writer → Option (List ℕ) → Writer
optional_write w none = w
optional_write w (some bytes) = write w bytes

abbrev copy_notes : Option (List ℕ) → Option Error → List LogLine
copy_notes none copied = []
copy_notes (some bytes) none = []
copy_notes (some bytes) (some e) = note "Error copying response body" e ∷ []

module _ (net : Network) (f : HttpFunctionRunner) where
  abbrev upstream_line : Request → Response → LogLine
  upstream_line r res =
      if f.log_call_id
      then upstream_call r.method r.request_uri res.status res.content_length (call_id r)
      else upstream r.method r.request_uri res.status res.content_length

  -- The branch of a response.
  unfoldable pub relay : String → Request → Writer → Response → Served
  relay seconds r w res =
      let w₁ = record w { header = copy_headers w.header res.header } in
      let w₂ = write_header (set_header w₁ "X-Duration-Seconds" seconds) res.status_code in
      (
        optional_write w₂ res.body,
        copy_notes res.body res.copied ++ log_unless_probe (user_agent r) (upstream_line r res),
        none,
      )

  -- After `<-reqCtx.Done()` the context has ended, and its error is not nil.
  abbrev await : Option Error → Option Error
  await none = some net.ended
  await (some e) = some e

  -- The branch of an error of the client.
  unfoldable pub client_failed : String → Writer → Error → Option Error → Served
  client_failed seconds w err ctx_err =
      let failure = note "Upstream HTTP request error" err in
      let w' = internal seconds w in
      if is_none ctx_err
      then (write_header w' 500, failure ∷ [], none)
      else if is_some (await ctx_err)
      then (
        write_header w' 504,
        failure ∷ note "Upstream HTTP killed due to exec_timeout" "" ∷ [],
        none,
      )
      else (write_header w' 500, failure ∷ [], some err)

  unfoldable pub finish : String → Request → Writer → Reply → Served
  unfolding relay client_failed
  finish seconds r w (replied res) = relay seconds r w res
  finish seconds r w (failed err ctx_err) = client_failed seconds w err ctx_err

  abbrev pub url_of : Request → String
  url_of r = f.upstream_url <> r.request_uri

  -- The request as it is sent on.
  unfoldable pub outgoing : Request → Outgoing
  outgoing r = record {
    method = r.method;
    url = url_of r;
    body = r.body;
    body_error = if f.buffer_http_body then none else r.body_error;
    header = forwarded_header r.header;
    host = r.host;
    limit = deadline (get_timeout net.parse_duration r.header f.exec_timeout);
  }

  -- Once the body has been read into memory, nothing of it is left to read.
  unfoldable pub drained : Request → Request
  drained r = if f.buffer_http_body then record r { body = []; body_error = none } else r

  -- The branch of the reverse proxy, which is handed the request itself and not the copy. The line
  -- that is logged is read off an interceptor that the proxy does not write to.
  unfoldable pub proxied : Request → Writer → Served
  unfolding drained
  proxied r w = (
    net.proxy (drained r) w,
    access r.method r.request_uri net.idle.0 (pos net.idle.1) ∷ [],
    none,
  )

  abbrev forward : String → Request → Writer → Served
  forward seconds r w =
      if requires_stdlib_proxy r.header
      then proxied r w
      else finish seconds r w (net.client_do (outgoing r))

  -- `Run`. Nothing stands for the panic of reading a body that is nil. `seconds` is the elapsed
  -- time as the header shows it.
  unfoldable pub run : String → Request → Writer → Option Served
  unfolding proxied finish outgoing
  run seconds r w =
      if f.buffer_http_body && not r.has_body
      then none
      else some (elim (net.new_request_error r.method (url_of r)) [
        | some e ↦ (w, [], some e)
        | none ↦ forward seconds r w
      ])
