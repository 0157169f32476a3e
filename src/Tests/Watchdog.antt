-- ===== src/Tests/Watchdog.antt =====
-- The endpoints, the environment of the function, and the start of the watchdog.
use of_watchdog.Go.Header.{find}
use of_watchdog.Config.Values.{get_bool, get_duration, get_int}
use of_watchdog.Config.Env.{entry, map_env}
use of_watchdog.Go.Strings.{replace_all, cut}
use of_watchdog.Prelude.{
  List, String, [], arith, eq_iff, false, inl, none, refl, some, true, ◌↔◌, ◌∷◌, ◌≡◌, ◌≢◌, ◌⊎◌,
}
use of_watchdog.Go.Http.{status, write_header}
use of_watchdog.Config.Env.Laws.{last_value}
use of_watchdog.Config.New.{
  WatchdogConfig, new, either_value, initial_config, read_log_buffer_size, read_mode,
}
use of_watchdog.Executor.Base.{Handler, handled_status}
use of_watchdog.Watchdog.Environment.{
  get_environment, get_fn_name, get_fn_namespace, header_variable,
}
use of_watchdog.Watchdog.Environment.Laws.{get_environment-values}
use of_watchdog.Watchdog.Handlers.{streaming_handler, build_request_handler}
use of_watchdog.Watchdog.Health.{health_handler}
use of_watchdog.Watchdog.Health.Laws.{health_handler-status}
use of_watchdog.Watchdog.Lock.Laws.{IsUp}
use of_watchdog.Watchdog.Readiness.{Readiness, limit_met, serve_http}
use of_watchdog.Watchdog.Readiness.Laws.{serve_http-status}
use of_watchdog.Watchdog.Shutdown.{init, here}
use of_watchdog.Watchdog.Start.{Routes, routes, options}
use of_watchdog.Watchdog.Start.Laws.{limit, routes-authenticated}
use of_watchdog.Metrics.Wrapping.{instrument_handler}
use of_watchdog.Program.{main}
use of_watchdog.Tests.Config.{parse_duration}
use of_watchdog.Tests.Requests.{request, writer}
use of_watchdog.Tests.System.{up, no_content, new_request, system, config, middleware}
use of_watchdog.Watchdog.Environment.Headers.{IsDistinct, IsOther, get_environment-header}
use of_watchdog.Watchdog.Start.{Serving, serving_of}
use of_watchdog.Watchdog.Shutdown.{stopped}
use of_watchdog.Watchdog.Shutdown.{failed as failed_server}
use of_watchdog.Program.{serves}
use of_watchdog.Program.Ends.{main-never_stopped}
use of_watchdog.Watchdog.Shutdown.Ends.{has_returned}
use of_watchdog.Watchdog.Shutdown.{gave_up}

health_handler-status_example :
    ((status (health_handler up writer request) ≡ some 200) ↔ ((request.method ≡ "GET") × IsUp up))
    × ((status (health_handler up writer request) ≡ some 503)
        ↔ ((request.method ≡ "GET") × (¬ IsUp up)))
    × ((status (health_handler up writer request) ≡ some 405) ↔ (request.method ≢ "GET"))
health_handler-status_example = health_handler-status up writer request refl

abbrev readiness : String → Readiness
readiness endpoint = record { function_handler = no_content; endpoint = endpoint; limiter = none }

serve_http-status_example :
    ((handled_status (serve_http new_request up (readiness "") writer request) ≡ some 200)
      ↔ ((request.method ≡ "GET") × IsUp up × (limit_met (readiness "") ≡ false)))
    × ((handled_status (serve_http new_request up (readiness "") writer request) ≡ some 429)
        ↔ ((request.method ≡ "GET") × IsUp up × (limit_met (readiness "") ≡ true)))
    × ((handled_status (serve_http new_request up (readiness "") writer request) ≡ some 503)
        ↔ ((request.method ≡ "GET") × (¬ IsUp up)))
    × ((handled_status (serve_http new_request up (readiness "") writer request) ≡ some 405)
        ↔ (request.method ≢ "GET"))
serve_http-status_example = serve_http-status new_request up (readiness "") writer request refl refl

abbrev variables : List String
variables =
    "Http_Query=old" ∷ "Http_Accept=text/plain" ∷ "Http_X_Timeout=2s" ∷ "Http_Method=GET"
    ∷ "Http_Query=id=1" ∷ "Http_Path=/items" ∷ []

get_environment-values_example :
    (last_value "Http_Method" variables ≡ some "GET")
    × (last_value "Http_Query" variables ≡ some "id=1")
    × (last_value "Http_Path" variables ≡ some "/items")
unfolding get_environment header_variable replace_all
get_environment-values_example =
    get_environment-values ("Http_Query=old" ∷ []) request variables refl

abbrev guarded_config : WatchdogConfig
guarded_config = record config { jwt_authentication = true }

abbrev guarded_routes : Routes
guarded_routes = record {
  root = λ w r. some (write_header w 401, []);
  readiness_handler = no_content;
  has_limiter = false;
}

routes-authenticated_example :
    (namespace : String) × (name : String) × (guarded : Handler) × (name ≢ "")
    × (get_fn_namespace middleware.openfaas_namespace middleware.namespace_file ≡ inl namespace)
    × (middleware.openfaas_name ≡ some name)
    × (middleware.new_jwt_auth (options guarded_config namespace name) no_content ≡ inl guarded)
    × (guarded_routes.root
        ≡ instrument_handler middleware.promhttp
            (limit middleware guarded_config no_content guarded))
    × (guarded_routes.readiness_handler ≡ no_content)
unfolding routes get_fn_namespace get_fn_name instrument_handler
routes-authenticated_example =
    routes-authenticated middleware guarded_config no_content guarded_routes refl refl

-- A mode that config knows by its name and that has no handler.
abbrev afterburn : List String
afterburn = "fprocess=cat" ∷ "mode=afterburn" ∷ []

header-IsDistinct : IsDistinct request.header
unfolding replace_all
header-IsDistinct = (
  omega arith,
  ((ground (arith, eq_iff "Http_X_Timeout" "Http_Accept")), tt),
  (omega arith, tt, tt),
)

x_timeout-IsOther : IsOther "Http_X_Timeout"
x_timeout-IsOther = (
  ground (arith, eq_iff "Http_X_Timeout" "Http_Method"),
  ground (arith, eq_iff "Http_X_Timeout" "Http_Query"),
  ground (arith, eq_iff "Http_X_Timeout" "Http_Path"),
  ground (arith, eq_iff "Http_X_Timeout" "Http_Transfer_Encoding"),
)

get_environment-header_example : last_value "Http_X_Timeout" variables ≡ some "2s"
unfolding get_environment header_variable replace_all find
get_environment-header_example =
    get_environment-header ("Http_Query=old" ∷ []) request variables "X-Timeout" "2s" [] refl
      header-IsDistinct refl x_timeout-IsOther

abbrev zero_interval : List String
zero_interval = "fprocess=cat" ∷ "healthcheck_interval=0" ∷ []

abbrev plain_serving : Serving
plain_serving =
    let cfg = (new parse_duration zero_interval).0 in
    serving_of cfg none (record {
      root = streaming_handler (system none) cfg;
      readiness_handler = streaming_handler (system none) cfg;
      has_limiter = false;
    })

plain_main :
    main parse_duration false false zero_interval up (system none) middleware ≡ serves plain_serving
unfolding main new read_log_buffer_size map_env entry cut initial_config get_duration either_value
    build_request_handler read_mode get_bool streaming_handler get_int instrument_handler
plain_main = refl

main-never_stopped_example :
    ((init false true).server ≢ stopped)
    × ((has_returned (init false true).main ≡ false)
        ⊎ ((init false true).main ≡ gave_up)
        ⊎ ((init false true).server ≡ failed_server))
unfolding entry cut
main-never_stopped_example =
    main-never_stopped parse_duration zero_interval up (system none) middleware plain_serving false
      true (init false true) refl plain_main here
