-- ===== src/Watchdog/Start.antt =====
-- pkg/watchdog.go, NewWatchdog and Start: the chain of handlers and the routes.
pub mod Draining
pub mod Laws
use of_watchdog.Prelude.{
  Bool, Option, String, [], if◌then◌else◌, inl, inr, is_positive, none, some, str_eq, ℕ, ℤ, ◌<>◌,
  ◌^◌, ◌⊎◌,
}
use of_watchdog.Go.Http.{Error, Request}
use of_watchdog.Config.New.{WatchdogConfig}
use of_watchdog.Watchdog.Environment.{get_fn_name, get_fn_namespace}
use of_watchdog.Config.Values.{Duration}
use of_watchdog.Executor.Base.{Handler}
use of_watchdog.Executor.HttpRunner.Start.{Started as ProcessStarted}
use of_watchdog.Metrics.Server.{MetricsServer, register}
use of_watchdog.Metrics.Wrapping.{Promhttp, instrument_handler}
use of_watchdog.Watchdog.Lock.{World}
use of_watchdog.Watchdog.Health.{health_handler}
use of_watchdog.Watchdog.Readiness.{Readiness, serve_http}
use of_watchdog.Watchdog.Shutdown.{Settings}
use of_watchdog.Watchdog.Handlers.{System, Built, handler, fatal, panicked, build_request_handler}

pub record Watchdog : Type 0 where
  pub config : WatchdogConfig

abbrev pub new_watchdog : WatchdogConfig → Watchdog
new_watchdog config = record { config = config }

-- `auth.JWTAuthOptions`.
pub record JwtAuthOptions : Type 0 where
  pub name : String
  pub namespace : String
  pub local_authority : Bool
  pub debug : Bool

-- What Start calls that is not of the program: the two variables of the environment, the service
-- account's file, the JWT middleware, the concurrency limiter and the wrappers of promhttp.
pub record Middleware : Type 0 where
  pub openfaas_name : Option String
  pub openfaas_namespace : Option String
  pub namespace_file : String ⊎ Error
  pub new_jwt_auth : JwtAuthOptions → Handler → Handler ⊎ Error
  pub limited : ℤ → Handler → Handler
  pub promhttp : Promhttp

abbrev pub options : WatchdogConfig → String → String → JwtAuthOptions
options cfg namespace name = record {
  name = name;
  namespace = namespace;
  local_authority = cfg.jwt_auth_local;
  debug = cfg.jwt_auth_debug;
}

infixl 5 ◌>>=◌
abbrev ◌>>=◌ : {A B : Type 0} → A ⊎ Error → (A → B ⊎ Error) → B ⊎ Error
inl a >>= f = f a
inr e >>= f = inr e

-- The error of a step, behind the text that the source wraps it in.
abbrev wrapped : {A : Type 0} → String → A ⊎ Error → A ⊎ Error
wrapped text (inl a) = inl a
wrapped text (inr e) = inr (text <> e)

-- `makeJWTAuthHandler`.
unfoldable pub make_jwt_auth_handler : Middleware → WatchdogConfig → Handler → Handler ⊎ Error
make_jwt_auth_handler mid cfg next = do
  namespace ←
      wrapped "failed to get function namespace: "
        (get_fn_namespace mid.openfaas_namespace mid.namespace_file)
  name ← wrapped "failed to get function name: " (get_fn_name mid.openfaas_name)
  mid.new_jwt_auth (options cfg namespace name) next

-- The handlers of the server: of every path, and the one that readiness asks; and whether there is
-- a limiter.
pub record Routes : Type 0 where
  pub root : Handler
  pub readiness_handler : Handler
  pub has_limiter : Bool

abbrev authenticated : Middleware → WatchdogConfig → Handler → Handler ⊎ Error
authenticated mid cfg base =
    if cfg.jwt_authentication
    then wrapped "error creating JWTAuthMiddleware: " (make_jwt_auth_handler mid cfg base)
    else inl base

-- The routes for a function's handler, or the error of Start.
unfoldable pub routes : Middleware → WatchdogConfig → Handler → Routes ⊎ Error
unfolding make_jwt_auth_handler
routes mid cfg base = do
  request_handler ← authenticated mid cfg base
  let limits = is_positive cfg.max_inflight
  let outer = if limits then mid.limited cfg.max_inflight request_handler else request_handler
  inl (record {
    root = instrument_handler mid.promhttp outer;
    readiness_handler = base;
    has_limiter = limits;
  })

-- The settings of the main `http.Server`, whose handler is the default mux.
pub record HttpServer : Type 0 where
  pub port : ℤ
  pub read_timeout : Duration
  pub write_timeout : Duration
  pub max_header_bytes : ℕ

-- What Start has set up when it calls listenUntilShutdown: the routes, the two servers, the path
-- that readiness asks, what listenUntilShutdown is told, and the function's process if there is one.
pub record Serving : Type 0 where
  pub routes : Routes
  pub server : HttpServer
  pub metrics_server : MetricsServer
  pub ready_endpoint : String
  pub settings : Settings
  pub process : Option ProcessStarted

unfoldable pub serving_of : WatchdogConfig → Option ProcessStarted → Routes → Serving
serving_of cfg process r = record {
  routes = r;
  server = record {
    port = cfg.tcp_port;
    read_timeout = cfg.http_read_timeout;
    write_timeout = cfg.http_write_timeout;
    max_header_bytes = 2 ^ 20;
  };
  metrics_server = register cfg.metrics_port;
  ready_endpoint = cfg.ready_endpoint;
  settings = record {
    suppress_lock = cfg.suppress_lock;
    healthcheck_interval = cfg.healthcheck_interval;
  };
  process = process;
}

-- How Start ends or goes on: a panic, the end of the process, an error that is returned, or
-- serving, after which it returns nil whatever listenUntilShutdown returns.
pub data Started : Type 0 where
  panics : Started
  exits : String → Started
  error : Error → Started
  serving : Serving → Started

abbrev pub served_or_error : WatchdogConfig → Option ProcessStarted → Routes ⊎ Error → Started
served_or_error cfg process (inl r) = serving (serving_of cfg process r)
served_or_error cfg process (inr e) = error e

abbrev pub start_with : Middleware → WatchdogConfig → Built → Started
start_with mid cfg panicked = panics
start_with mid cfg (fatal message) = exits message
start_with mid cfg (handler base process) = served_or_error cfg process (routes mid cfg base)

unfoldable pub start : System → Middleware → Watchdog → Started
unfolding routes
start sys mid w = start_with mid w.config (build_request_handler sys w.config)

-- The paths of the server's routes, which are matched whole but for "/", which takes the rest. (A
-- path that is not clean is redirected by net/http before it comes here.)
pub data Endpoint : Type 0 where
  health : Endpoint
  ready : Endpoint
  function : Endpoint

unfoldable pub endpoint : String → Endpoint
endpoint path =
    if str_eq path "/_/health" then health else if str_eq path "/_/ready" then ready else function

-- The readiness handler that Start registers; `met` is what the limiter's `Met()` says, if there is
-- a limiter.
unfoldable pub readiness_of : Serving → Bool → Readiness
readiness_of v met = record {
  function_handler = v.routes.readiness_handler;
  endpoint = v.ready_endpoint;
  limiter = if v.routes.has_limiter then some met else none;
}

-- A request to the main server, by its path.
module _ (new_request : String → String → String → Request ⊎ Error) where
  unfoldable pub serve_request : Serving → World → Bool → Handler
  unfolding endpoint readiness_of
  serve_request v s met w r = elim (endpoint r.path) [
    | health ↦ some (health_handler s w r, [])
    | ready ↦ serve_http new_request s (readiness_of v met) w r
    | function ↦ v.routes.root w r
  ]
