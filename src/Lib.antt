-- ===== src/Lib.antt =====
-- A verification of the of-watchdog: a server that stands before a function, starts the function's
-- process for each request or once, and answers requests with what the process does. The program
-- reads its settings from the environment (config), builds the handler of its mode (pkg/watchdog.go)
-- on one of the runners (executor), wraps it in the JWT middleware, the limiter and the metrics, and
-- serves it beside the endpoints of health and readiness until a signal comes.
--
-- Prelude: the shared helpers, and the program's Go `int` and durations as integers over the native
--   numbers. A duration is a number of nanoseconds; arithmetic that can overflow is wrapped to 64
--   bits where it is done (Config.Values, Go.Strconv).
-- Go: what the program uses of Go's library: strings (cut, split, replace, contains), strconv (Atoi
--   and ParseBool), http.Header as a map with canonical keys, and requests and response writers. The
--   first status that is written to a writer counts. Texts are native strings, bodies lists of bytes.
-- Config (config/config.go, config/config_modes.go): the modes; mapEnv (`map_env`); the getters
--   (getDuration, parseIntOrDurationValue, getInt, getBool, getBools, Process); New (`new`), in parts
--   that read one variable or a few each. time.ParseDuration is a parameter, `parse_duration`.
-- Executor (executor/): Base has FunctionRequest and the lines that are logged; Logging has
--   bindLoggingPipe and its two loops (logging.go); Serializing and Pipe have
--   serializing_fork_runner.go, where Pipe has the goroutines of pipeToProcess as a step relation
--   over what their calls return, Pipe.Blocking has them with bounded pipes and any process that
--   exits once its reads are answered, and Serializing takes what they return as a part of what a
--   process does; Streaming, Inproc and HttpRunner have the other runners, HttpRunner in parts for
--   the headers, the timeout, Run and Start. The operating system is a parameter: what a process
--   does that is started with a command and an input. So are the HTTP client, the reverse proxy,
--   http.NewRequest and the interceptor.
-- Metrics (metrics/): Http has the collectors and the mark of the first request; Instrument has
--   InstrumentHandler for any number of requests at the same time, and Wrapping as a wrapper around a
--   handler; Server has the metrics server.
-- Watchdog (pkg/watchdog.go, pkg/readiness.go): Lock has the lock file and the flag
--   acceptingConnections; Health and Readiness have the two endpoints; Shutdown has
--   listenUntilShutdown as a step relation, with the requests in progress that Shutdown waits for,
--   whose settings are suppress_lock and healthcheck_interval (write_timeout, the time limit of
--   Shutdown, may run out at any time); Child has the process of the HTTP mode beside it, with the
--   two goroutines of HTTPFunctionRunner.Start (executor/http_runner.go) that forward SIGTERM and
--   wait for its end; Environment has getEnvironment, getFnName and getFnNamespace; Counter has
--   WriterCounter; Handlers has the handlers of the modes and buildRequestHandler, which in HTTP
--   mode starts the process; Start has NewWatchdog, makeJWTAuthHandler and Start, whose result is
--   what is served (`Serving`), and `serve_request`, the routes of the server with the endpoints
--   behind them. The JWT middleware, the limiter and the file server are parameters.
-- Program (main.go, version.go): main, its two flags, and the version.
-- Tests: runs on concrete inputs.
--
-- A panic is a result (`none` for a handler, `panicked` and `panic` for the start). Every function is
-- by recursion on its data, so no fuel is used.
--
-- Not modelled: log texts beyond what a line says of its request and response, elapsed times (the
-- text that a header shows is a parameter), closing of bodies, connections below net/http, the
-- error of Shutdown, which is only logged, the context of listenUntilShutdown (main does not cancel
-- it while it serves, and the source treats its end as the signal), the count of the requests in
-- flight that it logs, vendor/, and the tests of the program. A process or a client that never
-- answers is not in the model of a runner: what it does is a value. In Executor.Pipe the calls on
-- the pipes return at some time; in Executor.Pipe.Blocking they wait for the process, which is any
-- that stops once its reads are answered, reading stdout does not fail, and the deadline that would
-- kill the process is left out. In Watchdog.Child the process of the HTTP mode may end at any time
-- in any way. Connections that are hijacked, as those of WebSockets are, are counted apart, since
-- Shutdown does not wait for them.
pub mod Prelude
pub mod Go
pub mod Config
pub mod Executor
pub mod Metrics
pub mod Watchdog
pub mod Program
pub mod Tests
