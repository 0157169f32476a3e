-- ===== src/Program/Serves.antt =====
-- From an environment that gives only the function's command to the answer to a request.
use of_watchdog.Prelude.{
  Bool, List, Option, String, [], false, none, refl, some, ◌++◌, ◌<>◌, ◌∙◌, ◌∷◌, ◌≡◌, ◌≢◌, ◌⊎◌,
}
use of_watchdog.Go.Http.{Error, Request, Writer}
use of_watchdog.Config.Env.Laws.{last_value}
use of_watchdog.Config.Values.{Duration}
use of_watchdog.Config.New.{WatchdogConfig}
use of_watchdog.Config.New.Defaults.{default_config, new-default_config}
use of_watchdog.Executor.Base.{Handler, LogLine}
use of_watchdog.Executor.Streaming.Laws.{concat}
use of_watchdog.Metrics.Wrapping.{Promhttp, instrument_handler}
use of_watchdog.Watchdog.Lock.{World}
use of_watchdog.Watchdog.Handlers.{System, injected, streaming_handler, build_request_handler}
use of_watchdog.Watchdog.Handlers.Laws.{child, streaming_handler-response}
use of_watchdog.Watchdog.Start.{Middleware, Serving, endpoint, function, serve_request, serving_of}
use of_watchdog.Program.{main, serves}

-- The wrappers of promhttp only observe: the response is that of the handler inside.
abbrev pub IsObserver : Promhttp → Type 0
IsObserver p =
    (h : Handler) (w : Writer) (r : Request)
    → (p.handler_counter h w r ≡ h w r) × (p.handler_duration h w r ≡ h w r)

module _ (parse_duration : String → Option Duration) (command : String) (given : command ≢ "")
    (sys : System) (mid : Middleware) where
  abbrev config : WatchdogConfig
  config = default_config command

  -- What the watchdog serves: the streaming handler, without authentication and without a limiter.
  abbrev pub default_serving : Serving
  default_serving = serving_of config none (record {
    root = instrument_handler mid.promhttp (streaming_handler sys config);
    readiness_handler = streaming_handler sys config;
    has_limiter = false;
  })

  main-default_serving :
      (env : List String) (world : World)
      → ((k : String) → last_value k env ≡ last_value k (("fprocess" <> "=" <> command) ∷ []))
      → main parse_duration false false env world sys mid ≡ serves default_serving
  unfolding main build_request_handler
  main-default_serving env world same =
      rw (new-default_config parse_duration command given env same, main) refl

  serve_request-default :
      (new_request : String → String → String → Request ⊎ Error) (s : World) (met : Bool)
      (w : Writer) (r : Request)
      → IsObserver mid.promhttp
      → endpoint r.path ≡ function
      → serve_request new_request default_serving s met w r ≡ streaming_handler sys config w r
  unfolding serve_request serving_of instrument_handler
  serve_request-default new_request s met w r observes elsewhere =
      rw (elsewhere, serve_request)
        ((observes _ w r).0 ∙ (observes (streaming_handler sys config) w r).1)

  -- Where the wrappers of promhttp only observe, a watchdog whose environment gives a command that
  -- is not empty by fprocess, and nothing else, serves, and answers a request of any path but those
  -- of the two endpoints, if its environment can be made, with all that the process of that command
  -- prints, in order; when the process cannot be started it sends neither a status nor a body.
  pub main-response :
      (env vars : List String) (world s : World)
      (new_request : String → String → String → Request ⊎ Error) (met : Bool) (w : Writer)
      (r : Request)
      → ((k : String) → last_value k env ≡ last_value k (("fprocess" <> "=" <> command) ∷ []))
      → IsObserver mid.promhttp
      → endpoint r.path ≡ function
      → injected sys config r ≡ some vars
      → (v : Serving) × (w' : Writer) × (lines : List LogLine) × (main parse_duration false false
            env world sys mid
          ≡ serves v)
        × (serve_request new_request v s met w r ≡ some (w', lines))
        × ((((child sys config w r vars).start_error ≡ none)
              × (w'.body ≡ w.body ++ concat (child sys config w r vars).chunks))
            ⊎ (((child sys config w r vars).start_error ≢ none)
                × (w'.sent ≡ w.sent)
                × (w'.body ≡ w.body)))
  main-response env vars world s new_request met w r same observes elsewhere environment =
      let (w', lines, served, answered) =
        streaming_handler-response sys config w r vars environment in
      (
        default_serving,
        w',
        lines,
        main-default_serving env world same,
        serve_request-default new_request s met w r observes elsewhere ∙ served,
        answered,
      )
