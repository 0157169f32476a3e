-- ===== src/Watchdog/Readiness.antt =====
-- pkg/readiness.go: GET /_/ready.
pub mod Laws
use of_watchdog.Prelude.{
  Bool, Option, String, [], false, if◌then◌else◌, inl, inr, nonempty, or_else, some, str_eq, ◌∷◌,
  ◌⊎◌,
}
use of_watchdog.Go.Http.{Error, Request, Writer, write_header}
use of_watchdog.Executor.Base.{Handled, Handler, note}
use of_watchdog.Watchdog.Lock.{World}
use of_watchdog.Watchdog.Health.{unavailable}

-- `limiter` is what `Met()` of the concurrency limiter says, or nothing where there is none.
pub record Readiness : Type 0 where
  pub function_handler : Handler
  pub endpoint : String
  pub limiter : Option Bool

unfoldable pub limit_met : Readiness → Bool
limit_met r = or_else r.limiter false

-- `new_request` is `http.NewRequestWithContext` of a GET without a body, of the scheme and the host
-- of the request and the path.
module _ (new_request : String → String → String → Request ⊎ Error) where
  -- The request that the function is asked with.
  unfoldable pub ready_request : Readiness → Request → Request → Request
  ready_request r req made = record made { request_uri = r.endpoint; header = req.header }

  unfoldable pub ask_function : Readiness → Writer → Request → Handled
  unfolding ready_request
  ask_function r w req = elim (new_request req.scheme req.url_host r.endpoint) [
    | inr e ↦ some (write_header w 500, note "Error creating readiness request" e ∷ [])
    | inl made ↦ r.function_handler w (ready_request r req made)
  ]

  -- `ServeHTTP`.
  unfoldable pub serve_http : World → Readiness → Writer → Request → Handled
  unfolding ask_function limit_met
  serve_http s r w req =
      if str_eq req.method "GET"
      then (if unavailable s
          then some (write_header w 503, [])
          else if limit_met r
          then some (write_header w 429, [])
          else if nonempty r.endpoint
          then ask_function r w req
          else some (write_header w 200, []))
      else some (write_header w 405, [])
