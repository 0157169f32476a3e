-- ===== src/Tests/Handlers.antt =====
-- The handlers of the modes.
use of_watchdog.Go.Header.{canonical_key, get}
use of_watchdog.Executor.HttpRunner.Headers.{requires_stdlib_proxy}
use of_watchdog.Executor.Serializing.{read_input}
use of_watchdog.Go.Strings.{contains, to_lower}
use of_watchdog.Prelude.{
  List, String, [], arith, eq_iff, false, inl, none, refl, some, true, ◌∷◌, ◌≡◌, ◌≢◌, ◌⊎◌,
}
use of_watchdog.Go.Http.{Error, Request, Writer, status, user_agent, write}
use of_watchdog.Config.New.{WatchdogConfig, HandlerFunc}
use of_watchdog.Executor.Base.{LogLine, is_probe}
use of_watchdog.Watchdog.Handlers.{serializing_handler, streaming_handler}
use of_watchdog.Watchdog.Handlers.Responses.{process_of, serializing_handler-response}
use of_watchdog.Executor.Serializing.Laws.{first_error}
use of_watchdog.Watchdog.Readiness.{serve_http}
use of_watchdog.Program.{main, serves}
use of_watchdog.Program.Serves.{main-response}
use of_watchdog.Config.New.Defaults.{default_config}
use of_watchdog.Go.Strings.{replace_all}
use of_watchdog.Watchdog.Environment.{get_environment, header_variable}
use of_watchdog.Watchdog.Start.{Serving, serve_request, endpoint}
use of_watchdog.Tests.Config.{parse_duration, cat_given}
use of_watchdog.Tests.System.{middleware, new_request}
use of_watchdog.Tests.Requests.{request, writer}
use of_watchdog.Tests.System.{up, up-IsUp, system, config}
use of_watchdog.Watchdog.Handlers.{http_handler, inproc_handler}
use of_watchdog.Watchdog.Handlers.InProcess.{IsLogged, inproc_handler-response}
use of_watchdog.Watchdog.Handlers.Laws.{child, streaming_handler-response}
use of_watchdog.Watchdog.Handlers.Forwarded.{http_handler-IsAnswered}
use of_watchdog.Watchdog.Handlers.Asked.{ready_panics}

serializing_handler-response_example :
    (w' : Writer) × (lines : List LogLine) × (serializing_handler
        (system none)
        config
        writer
        request
      ≡ some (w', lines))
    × (((first_error (process_of (system none) config writer request [] (104 ∷ 105 ∷ [])) ≡ none)
          × (status w' ≡ some 200)
          × (w'.body ≡ 104 ∷ 105 ∷ []))
        ⊎ ((e : Error) × (first_error
                (process_of (system none) config writer request [] (104 ∷ 105 ∷ []))
              ≡ some e)
            × (status w' ≡ some 500)
            × (w'.body ≡ [])))
unfolding read_input
serializing_handler-response_example =
    serializing_handler-response (system none) config writer request [] (104 ∷ 105 ∷ []) refl refl
      refl

ready_given : ◌≢◌ {A = String} "/ready" ""
ready_given = ground (arith, eq_iff "/ready" "")

streaming_handler-response_example :
    (w' : Writer) × (lines : List LogLine) × (streaming_handler
        (system (some "no such file"))
        config
        writer
        request
      ≡ some (w', lines))
    × (((child (system (some "no such file")) config writer request []).start_error ≡ none)
          × (w'.body ≡ 104 ∷ 105 ∷ [])
        ⊎ ((child (system (some "no such file")) config writer request []).start_error ≢ none)
          × (w'.sent ≡ none)
          × (w'.body ≡ []))
streaming_handler-response_example =
    streaming_handler-response (system (some "no such file")) config writer request [] refl

http_handler-IsAnswered_example :
    (w' : Writer) × (lines : List LogLine) × (http_handler
        (system none)
        config
        "http://127.0.0.1:3000"
        writer
        request
      ≡ some (w', lines))
    × (status w' ≡ some 500)
    × (w'.body ≡ [])
unfolding requires_stdlib_proxy contains to_lower get canonical_key
http_handler-IsAnswered_example =
    http_handler-IsAnswered (system none) config "http://127.0.0.1:3000" writer request refl refl
      refl

abbrev buffering : WatchdogConfig
buffering = record config { buffer_http_body = true }

abbrev without_body : String → String → String → Request ⊎ Error
without_body scheme url_host path = inl (record request { has_body = false; body = [] })

ready_panics_example :
    serve_http without_body up
      (record {
        function_handler = http_handler (system none) buffering "http://127.0.0.1:3000";
        endpoint = "/ready";
        limiter = none;
      })
      writer
      request
    ≡ none
ready_panics_example =
    ready_panics (system none) buffering "http://127.0.0.1:3000" without_body up none "/ready"
      writer request (record request { has_body = false; body = [] }) refl ready_given refl refl
      refl up-IsUp refl

-- A function in the watchdog's own process, which answers with one byte.
abbrev letter : HandlerFunc
letter limit w r = write w (104 ∷ [])

abbrev with_letter : WatchdogConfig
with_letter = record config { handler = some letter; log_call_id = true }

inproc_handler-response_example :
    ((with_letter.handler ≡ none)
      × (inproc_handler (system none) with_letter writer request ≡ none))
    ⊎ ((f : HandlerFunc) × (lines : List LogLine) × (with_letter.handler ≡ some f)
        × (inproc_handler (system none) with_letter writer request
            ≡ some (f (some with_letter.exec_timeout) writer request, lines))
        × IsLogged
            (system none)
            with_letter
            writer
            request
            (is_probe (user_agent request))
            true
            200
            0
            lines)
inproc_handler-response_example =
    inproc_handler-response (system none) with_letter writer request (λ f w r. refl)

abbrev cat_only : List String
cat_only = "fprocess=cat" ∷ []

abbrev cat_variables : List String
cat_variables =
    "Http_Accept=text/plain" ∷ "Http_X_Timeout=2s" ∷ "Http_Method=GET" ∷ "Http_Query=id=1"
    ∷ "Http_Path=/items" ∷ []

main-response_example :
    (v : Serving) × (w' : Writer) × (lines : List LogLine) × (main parse_duration false false
        cat_only up
        (system none)
        middleware
      ≡ serves v)
    × (serve_request new_request v up false writer request ≡ some (w', lines))
    × (((child (system none) (default_config "cat") writer request cat_variables).start_error
            ≡ none)
          × (w'.body ≡ 104 ∷ 105 ∷ [])
        ⊎ ((child (system none) (default_config "cat") writer request cat_variables).start_error
            ≢ none)
          × (w'.sent ≡ none)
          × (w'.body ≡ []))
unfolding endpoint get_environment header_variable replace_all
main-response_example =
    main-response parse_duration "cat" cat_given (system none) middleware cat_only cat_variables up
      up new_request false writer request (λ k. refl) (λ h w r. (refl, refl)) refl refl
