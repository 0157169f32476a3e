-- ===== src/Watchdog/Handlers/Asked.antt =====
-- The function of the HTTP mode, asked by the readiness endpoint.
use of_watchdog.Prelude.{
  Bool, Option, String, arith, false, inl, none, or_else, true, ◌∙◌, ◌≡◌, ◌≢◌, ◌⊎◌,
}
use of_watchdog.Go.Http.{Error, Request, Writer}
use of_watchdog.Config.New.{WatchdogConfig}
use of_watchdog.Executor.HttpRunner.Run
use of_watchdog.Watchdog.Lock.{World}
use of_watchdog.Watchdog.Lock.Laws.{IsUp}
use of_watchdog.Watchdog.Readiness.{Readiness, limit_met, ready_request, serve_http}
use of_watchdog.Watchdog.Readiness.Laws.{serve_http-asks}
use of_watchdog.Watchdog.Handlers.{System, http_handler}

module _ (sys : System) (cfg : WatchdogConfig) (url : String) where
  http_handler_without_body :
      (w : Writer) (r : Request)
      → cfg.buffer_http_body ≡ true
      → r.has_body ≡ false
      → http_handler sys cfg url w r ≡ none
  unfolding http_handler Run.run
  http_handler_without_body w r buffers missing = ground arith

  -- Where request bodies are buffered and readiness has an endpoint, a readiness request panics
  -- whenever the service is up and below its limit: the request that the function is asked with has
  -- a nil body, which the HTTP runner reads.
  pub ready_panics :
      (new_request : String → String → String → Request ⊎ Error) (s : World) (limiter : Option Bool)
      (endpoint : String) (w : Writer) (req made : Request)
      → cfg.buffer_http_body ≡ true
      → endpoint ≢ ""
      → new_request req.scheme req.url_host endpoint ≡ inl made
      → made.has_body ≡ false
      → req.method ≡ "GET"
      → IsUp s
      → or_else limiter false ≡ false
      → serve_http new_request s
          (record {
            function_handler = http_handler sys cfg url;
            endpoint = endpoint;
            limiter = limiter;
          })
          w
          req
        ≡ none
  unfolding ready_request limit_met
  ready_panics new_request s limiter endpoint w req made buffers given new missing get up below =
      let asked : Readiness = record {
        function_handler = http_handler sys cfg url;
        endpoint = endpoint;
        limiter = limiter;
      } in
      serve_http-asks new_request s asked w req made get up below given new
      ∙ http_handler_without_body w (ready_request new_request asked req made) buffers missing
