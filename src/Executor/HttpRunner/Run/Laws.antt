-- ===== src/Executor/HttpRunner/Run/Laws.antt =====
-- What a forwarded request is answered with.
use mathlib.Core.List.{append-nil}
use of_watchdog.Prelude.{
  Bool-cases, List, Option, Option-cases, String, [], ap, arith, code, false, if◌then◌else◌, inl,
  inr, is_some, none, not, or_else, refl, some, sym, true, ℕ, ◌&&◌, ◌++◌, ◌∙◌, ◌≡◌,
}
use of_watchdog.Go.Header
use of_watchdog.Go.Header.{Header}
use of_watchdog.Go.Http.{Error, Request, Writer, write_header, write, status}
use of_watchdog.Executor.HttpRunner.Headers.{copy_headers, requires_stdlib_proxy}
use of_watchdog.Executor.HttpRunner.Run.{
  HttpFunctionRunner, Response, Reply, replied, failed, Network, Served, relay, client_failed,
  finish, outgoing, proxied, run, url_of, LogLine, forward,
}

module _ (net : Network) (f : HttpFunctionRunner) (seconds : String) (r : Request) (w : Writer)
    (readable : (f.buffer_http_body && not r.has_body) ≡ false) where
  pub run-invalid :
      (e : Error)
      → net.new_request_error r.method (url_of net f r) ≡ some e
      → run net f seconds r w ≡ some (w, [], some e)
  unfolding run
  run-invalid e invalid = ground arith

  run-plain :
      net.new_request_error r.method (url_of net f r) ≡ none
      → requires_stdlib_proxy r.header ≡ false
      → run net f seconds r w ≡ some (finish net f seconds r w (net.client_do (outgoing net f r)))
  unfolding run
  run-plain valid plain = ground arith

  relay-written :
      (res : Response)
      → w.sent ≡ none
      → ((relay net f seconds r w res).0.sent
          ≡ some (
            res.status_code,
            Header.set (copy_headers w.header res.header) "X-Duration-Seconds" seconds,
          ))
        × ((relay net f seconds r w res).0.body ≡ w.body ++ or_else res.body [])
  unfolding relay write_header write
  relay-written res unsent = elim (Option-cases res.body) [
    | inl empty ↦ rw (unsent, empty) (refl, sym (append-nil w.body))
    | inr (bytes, body) ↦ rw (unsent, body) (refl, refl)
  ]

  -- A response of the function to a request that does not go through the reverse proxy is handed
  -- on, if nothing was sent yet: its status, its body, and its headers with the elapsed time; Run
  -- returns no error.
  pub run-replied :
      (res : Response)
      → w.sent ≡ none
      → net.new_request_error r.method (url_of net f r) ≡ none
      → requires_stdlib_proxy r.header ≡ false
      → net.client_do (outgoing net f r) ≡ replied res
      → (w' : Writer) × (lines : List LogLine) × (run net f seconds r w ≡ some (w', lines, none))
        × (w'.sent
            ≡ some (
              res.status_code,
              Header.set (copy_headers w.header res.header) "X-Duration-Seconds" seconds,
            ))
        × (w'.body ≡ w.body ++ or_else res.body [])
  unfolding relay finish
  run-replied res unsent valid plain reply =
      let (sent, body) = relay-written res unsent in
      (
        (relay net f seconds r w res).0,
        (relay net f seconds r w res).1,
        run-plain valid plain ∙ rw reply,
        sent,
        body,
      )

  client_failed-written :
      (err : Error) (ctx_err : Option Error)
      → w.sent ≡ none
      → (status (client_failed net f seconds w err ctx_err).0
          ≡ some (if is_some ctx_err then 504 else 500))
        × ((client_failed net f seconds w err ctx_err).0.body ≡ w.body)
        × ((client_failed net f seconds w err ctx_err).2 ≡ none)
  unfolding client_failed write_header
  client_failed-written err none unsent = rw unsent (refl, refl, refl)
  client_failed-written err (some e) unsent = rw unsent (refl, refl, refl)

  -- Where the client fails on a plain request the response has status 504 if the request's context
  -- has ended, by its timeout or by the caller, and status 500 if not; the body is left alone and
  -- Run returns no error.
  pub run-failed :
      (err : Error) (ctx_err : Option Error)
      → w.sent ≡ none
      → net.new_request_error r.method (url_of net f r) ≡ none
      → requires_stdlib_proxy r.header ≡ false
      → net.client_do (outgoing net f r) ≡ failed err ctx_err
      → (w' : Writer) × (lines : List LogLine) × (run net f seconds r w ≡ some (w', lines, none))
        × (status w' ≡ some (if is_some ctx_err then 504 else 500))
        × (w'.body ≡ w.body)
  unfolding client_failed finish write_header
  run-failed err ctx_err unsent valid plain reply =
      let c = client_failed net f seconds w err ctx_err in
      let (code, body, quiet) = client_failed-written err ctx_err unsent in
      (
        c.0,
        c.1,
        run-plain valid plain
            ∙ ap (λ x. some (finish net f seconds r w x)) reply
            ∙ ap (λ e. some (c.0, c.1, e)) quiet,
        code,
        body,
      )

  client_failed-quiet :
      (err : Error) (ctx_err : Option Error) → (client_failed net f seconds w err ctx_err).2 ≡ none
  unfolding client_failed
  client_failed-quiet err none = refl
  client_failed-quiet err (some e) = refl

  finish-quiet : (reply : Reply) → (finish net f seconds r w reply).2 ≡ none
  unfolding finish relay
  finish-quiet (replied res) = refl
  finish-quiet (failed err ctx_err) = client_failed-quiet err ctx_err

  forward-quiet : (forward net f seconds r w).2 ≡ none
  unfolding proxied
  forward-quiet = elim (Bool-cases (requires_stdlib_proxy r.header)) [
    | inl proxy ↦ rw proxy
    | inr plain ↦ rw plain (finish-quiet (net.client_do (outgoing net f r)))
  ]

  -- Where the body can be read, Run returns, and its error is that of making the forwarded request
  -- of the method and the URL; a failing function, a timeout or the proxy give none.
  pub run-error :
      (served : Served) × (run net f seconds r w ≡ some served)
      × (served.2 ≡ net.new_request_error r.method (url_of net f r))
  unfolding run
  run-error = elim (Option-cases (net.new_request_error r.method (url_of net f r))) [
    | inl valid ↦
        (forward net f seconds r w, rw (readable, run) (rw valid), forward-quiet ∙ sym valid)
    | inr (e, invalid) ↦ ((w, [], some e), run-invalid e invalid, sym invalid)
  ]

-- A request that goes through the reverse proxy while bodies are buffered is answered as if its
-- body were empty: the same response for every body.
pub run-drained :
    (net : Network) (f : HttpFunctionRunner) (seconds : String) (r : Request) (w : Writer)
    (body : List ℕ)
    → f.buffer_http_body ≡ true
    → requires_stdlib_proxy r.header ≡ true
    → run net f seconds (record r { body = body }) w
      ≡ run net f seconds (record r { body = []; body_error = none }) w
unfolding run
run-drained net f seconds r w body buffered proxy = ground arith
