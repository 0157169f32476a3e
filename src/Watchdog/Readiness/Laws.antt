-- ===== src/Watchdog/Readiness/Laws.antt =====
-- The answer of the readiness endpoint.
use of_watchdog.Prelude.{String, arith, eq_iff, false, inl, none, some, true, ◌↔◌, ◌≡◌, ◌≢◌, ◌⊎◌}
use of_watchdog.Go.Http.{Error, Request, Writer, write_header}
use of_watchdog.Executor.Base.{handled_status}
use of_watchdog.Watchdog.Lock.{World}
use of_watchdog.Watchdog.Lock.Laws.{IsUp}
use of_watchdog.Watchdog.Readiness.{Readiness, limit_met, ready_request, serve_http}

module _ (new_request : String → String → String → Request ⊎ Error) (s : World) (r : Readiness)
    (w : Writer) (req : Request) where
  -- Without an endpoint of the function the status is that of the watchdog alone: 200 exactly for
  -- a GET of a service that is up and below its limit, 429 for one that is up and at its limit,
  -- 503 for one that is not up, and 405 for another method.
  pub serve_http-status :
      w.sent ≡ none
      → r.endpoint ≡ ""
      → ((handled_status (serve_http new_request s r w req) ≡ some 200)
          ↔ ((req.method ≡ "GET") × IsUp s × (limit_met r ≡ false)))
        × ((handled_status (serve_http new_request s r w req) ≡ some 429)
            ↔ ((req.method ≡ "GET") × IsUp s × (limit_met r ≡ true)))
        × ((handled_status (serve_http new_request s r w req) ≡ some 503)
            ↔ ((req.method ≡ "GET") × (¬ IsUp s)))
        × ((handled_status (serve_http new_request s r w req) ≡ some 405) ↔ (req.method ≢ "GET"))
  unfolding serve_http write_header
  serve_http-status unsent plain = ground (arith, eq_iff req.method "GET", eq_iff r.endpoint "")

  -- A GET of a service that is up and below its limit, with an endpoint of the function for which a
  -- request can be made, is answered by the function's handler, asked with that request.
  pub serve_http-asks :
      (made : Request)
      → req.method ≡ "GET"
      → IsUp s
      → limit_met r ≡ false
      → r.endpoint ≢ ""
      → new_request req.scheme req.url_host r.endpoint ≡ inl made
      → serve_http new_request s r w req
        ≡ r.function_handler w (ready_request new_request r req made)
  unfolding serve_http
  serve_http-asks made get up below given new =
      ground (arith, eq_iff req.method "GET", eq_iff r.endpoint "")
