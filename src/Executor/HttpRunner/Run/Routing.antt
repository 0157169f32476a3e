-- ===== src/Executor/HttpRunner/Run/Routing.antt =====
-- Which requests the reverse proxy answers.
use of_watchdog.Prelude.{
  Bool-cases, List, String, false, inl, inr, none, not, some, true, ◌&&◌, ◌≡◌, ◌⊎◌,
}
use of_watchdog.Go.Http.{Request, Writer}
use of_watchdog.Executor.Base.{LogLine}
use of_watchdog.Executor.HttpRunner.Headers.{requires_stdlib_proxy}
use of_watchdog.Executor.HttpRunner.Headers.Proxy.{IsStreamed, requires_stdlib_proxy_iff}
use of_watchdog.Executor.HttpRunner.Run.{HttpFunctionRunner, Network, drained, proxied, run, url_of}

module _ (net : Network) (f : HttpFunctionRunner) (seconds : String) (r : Request) (w : Writer)
    (readable : (f.buffer_http_body && not r.has_body) ≡ false)
    (valid : net.new_request_error r.method (url_of net f r) ≡ none) where
  -- The reverse proxy has written the whole response to the client, and Run returns no error.
  abbrev pub IsProxied : Type 0
  IsProxied =
      (lines : List LogLine) × (run net f seconds r w
        ≡ some (net.proxy (drained net f r) w, lines, none))

  streamed-IsProxied : requires_stdlib_proxy r.header ≡ true → IsProxied
  unfolding run
  streamed-IsProxied h = ((proxied net f r w).1, rw (readable, run) (rw (valid, h)))

  unproxied :
      (proxy : Request → Writer → Writer)
      → requires_stdlib_proxy r.header ≡ false
      → run (record net { proxy = proxy }) f seconds r w ≡ run net f seconds r w
  unfolding run
  unproxied proxy h = rw (readable, run) (rw (valid, h))

  -- A request whose body is there if bodies are buffered, and of which the forwarded request can be
  -- made, is answered by the reverse proxy if its Accept header, in lower case, holds
  -- "text/event-stream" or "application/x-ndjson" somewhere or its Upgrade header is "websocket";
  -- otherwise its answer is the same whatever the reverse proxy would do.
  pub run-routed :
      (proxy : Request → Writer → Writer)
      → (IsStreamed r.header × IsProxied)
        ⊎ ((¬ IsStreamed r.header)
            × (run (record net { proxy = proxy }) f seconds r w ≡ run net f seconds r w))
  run-routed proxy =
      let (to, from) = requires_stdlib_proxy_iff r.header in
      elim (Bool-cases (requires_stdlib_proxy r.header)) [
        | inl streamed ↦ inl (to streamed, streamed-IsProxied streamed)
        | inr plain ↦ inr ((λ h. let on = from h in cc (on, plain)), unproxied proxy plain)
      ]
