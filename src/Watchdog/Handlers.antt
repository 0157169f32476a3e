-- ===== src/Watchdog/Handlers.antt =====
-- pkg/watchdog.go: the request handlers of the modes, and buildRequestHandler.
pub mod Laws
pub mod Asked
pub mod Forwarded
pub mod InProcess
pub mod Responses
use of_watchdog.Prelude.{
  List, Option, String, [], if◌then◌else◌, inl, inr, length, none, nonempty, pos, some, str_eq, ℕ,
  ℤ, ◌++◌, ◌<>◌, ◌==◌, ◌∷◌, ◌⊎◌,
}
use mathlib.Core.Option
use of_watchdog.Go.Http.{Error, Request, Writer, set_header, user_agent, write, write_header}
use of_watchdog.Config.Modes.{mode_streaming, mode_serializing, mode_http, mode_static, mode_inproc}
use of_watchdog.Config.Values.{process}
use of_watchdog.Config.New.{WatchdogConfig}
use of_watchdog.Executor.Base.{
  Handler, Input, FunctionRequest, LogLine, access, is_probe, note, Command,
}
use of_watchdog.Executor.Serializing
use of_watchdog.Executor.Serializing.{SerializingForkFunctionRunner}
use of_watchdog.Executor.Streaming
use of_watchdog.Executor.Streaming.{StreamingFunctionRunner, IoWriter}
use of_watchdog.Executor.Inproc
use of_watchdog.Executor.Inproc.{Intercept, new_inproc_runner}
use of_watchdog.Executor.HttpRunner.Run
use of_watchdog.Executor.HttpRunner.Start
use of_watchdog.Executor.HttpRunner.Run.{HttpFunctionRunner, Network}
use of_watchdog.Watchdog.Counter
use of_watchdog.Watchdog.Counter.{set_writer}
use of_watchdog.Watchdog.Environment.{get_environment}

-- What becomes of building a handler: the handler, with the function's process where the mode starts
-- it at once; the end of the watchdog with a message; or a panic.
pub data Built : Type 0 where
  handler : Handler → Option Start.Started → Built
  fatal : String → Built
  panicked : Built

-- The world of the handlers: the environment of the watchdog, the processes, the network, what the
-- system does for a process that is started once, what the standard logger puts before a line, the
-- interceptor, the file server, the bytes of a message, the elapsed time as the header shows it,
-- and the parser of URLs with the text of the URL that it finds.
pub record System : Type 0 where
  pub environ : List String
  pub exec_serializing : Command → List ℕ → Serializing.Process
  pub exec_streaming : Command → Option Input → Streaming.Process
  pub network : Network
  pub os : Start.Os
  pub flags : List ℕ
  pub intercept : Intercept
  pub file_server : String → Writer → Request → Writer
  pub encode : Error → List ℕ
  pub seconds : String
  pub parse_url : String → String ⊎ Error

-- `r.Body`, which is nil for a request without a body.
abbrev pub body_of : Request → Option Input
body_of r = if r.has_body then some (record { bytes = r.body; error = r.body_error }) else none

-- The environment that is injected; a panic where a header has no value.
abbrev pub injected : System → WatchdogConfig → Request → Option (List String)
injected sys cfg r = if cfg.inject_cgi_headers then get_environment sys.environ r else some []

-- The request that a process is run with; the serializing mode passes the content length on.
abbrev function_request : WatchdogConfig → Request → Option ℤ → List String → FunctionRequest
function_request cfg r content_length environment =
    let (command_name, arguments) = process cfg.function_process in
    record {
      request_uri = r.request_uri;
      method = r.method;
      user_agent = user_agent r;
      process = command_name;
      process_args = arguments;
      environment = environment;
      input_reader = body_of r;
      content_length = content_length;
    }

abbrev pub error_notes : String → Option Error → List LogLine
error_notes text none = []
error_notes text (some e) = note text e ∷ []

-- The response writer as an `io.Writer`, where the client takes all that is written.
abbrev pub response_writer : IoWriter Writer
response_writer w p = (write w p, length p, none)

abbrev streaming_lines : FunctionRequest → ℕ → Option Error → List LogLine
streaming_lines req bytes none =
    if is_probe req.user_agent then [] else access req.method req.request_uri 200 (pos bytes) ∷ []
streaming_lines req bytes (some e) =
    note "StreamingFunctionRunner error" e
    ∷ (if is_probe req.user_agent
        then []
        else access req.method req.request_uri 500 (pos bytes) ∷ [])

module _ (sys : System) (cfg : WatchdogConfig) where
  abbrev pub serializing_runner : SerializingForkFunctionRunner
  serializing_runner = record {
    exec_timeout = cfg.exec_timeout;
    log_prefix = cfg.prefix_logs;
    log_buffer_size = cfg.log_buffer_size;
  }

  -- `makeSerializingForkRequestHandler`.
  unfoldable pub serializing_handler : Handler
  serializing_handler w r = elim (injected sys cfg r) [
    | none ↦ none
    | some environment ↦
        let req = function_request cfg r (some r.content_length) environment in
        let w' = set_header w "Content-Type" cfg.content_type in
        let (w'', lines, err) =
          Serializing.run sys.exec_serializing serializing_runner sys.encode sys.seconds req w' in
        some (w'', lines ++ error_notes "SerializingForkFunctionRunner error" err)
  ]

  abbrev streaming_runner : StreamingFunctionRunner
  streaming_runner = record {
    exec_timeout = cfg.exec_timeout;
    log_prefix = cfg.prefix_logs;
    log_buffer_size = cfg.log_buffer_size;
  }

  -- `makeStreamingRequestHandler`.
  unfoldable pub streaming_handler : Handler
  streaming_handler w r = elim (injected sys cfg r) [
    | none ↦ none
    | some environment ↦
        let req = function_request cfg r none environment in
        let ww = set_writer (set_header w "Content-Type" cfg.content_type) in
        let (ww', err) =
          Streaming.run (Counter.write response_writer) sys.exec_streaming streaming_runner req
            ww in
        some (ww'.w, streaming_lines req ww'.bytes err)
  ]

  -- `makeInprocRequestHandler`; calling a handler that is nil is a panic.
  unfoldable pub inproc_handler : Handler
  inproc_handler w r = elim cfg.handler [
    | none ↦ none
    | some function ↦
        let runner =
          new_inproc_runner function cfg.prefix_logs cfg.log_buffer_size cfg.log_call_id
            cfg.exec_timeout in
        let (w', lines, err) = Inproc.run sys.intercept runner w r in some (w', lines)
  ]

  abbrev http_runner : String → HttpFunctionRunner
  http_runner upstream_url =
      let (command_name, arguments) = process cfg.function_process in
      record {
        exec_timeout = cfg.exec_timeout;
        process = command_name;
        process_args = arguments;
        upstream_url = upstream_url;
        buffer_http_body = cfg.buffer_http_body;
        log_prefix = cfg.prefix_logs;
        log_buffer_size = cfg.log_buffer_size;
        log_call_id = cfg.log_call_id;
      }

  -- The answer to an error of Run: status 500 and the message.
  abbrev answer_error : Writer × List LogLine × Option Error → Writer × List LogLine
  answer_error (w, lines, none) = (w, lines)
  answer_error (w, lines, some e) = (
    write (write_header w 500) (sys.encode ("HTTPFunctionRunner error: " <> e)),
    lines ++ note "HTTPFunctionRunner error" e ∷ [],
  )

  -- The handler that `makeHTTPRequestHandler` returns, for the URL that it has parsed.
  unfoldable pub http_handler : String → Handler
  http_handler upstream_url w r =
      Option.map answer_error (Run.run sys.network (http_runner upstream_url) sys.seconds r w)

  -- `makeStaticRequestHandler`.
  unfoldable pub static_handler : Handler
  static_handler w r = some (sys.file_server cfg.static_path w r, [])

  unfoldable pub make_http_handler : Built
  make_http_handler =
      if nonempty cfg.upstream_url
      then elim (sys.parse_url cfg.upstream_url) [
        | inl url ↦
            handler (http_handler url) (some (Start.start sys.flags (http_runner url) sys.os))
        | inr e ↦ fatal (
            "For \"mode=http\" you must specify a valid URL for \"http_upstream_url\", error: "
            <> e)
      ]
      else fatal "For \"mode=http\" you must specify a valid URL for \"http_upstream_url\""

  unfoldable pub make_static_handler : Built
  make_static_handler =
      if str_eq cfg.static_path ""
      then fatal "For mode=static you must specify the \"static_path\" to serve"
      else handler static_handler none

  -- `buildRequestHandler`.
  unfoldable pub build_request_handler : Built
  unfolding make_http_handler make_static_handler
  build_request_handler =
      if cfg.operational_mode == mode_streaming
      then handler streaming_handler none
      else if cfg.operational_mode == mode_serializing
      then handler serializing_handler none
      else if cfg.operational_mode == mode_http
      then make_http_handler
      else if cfg.operational_mode == mode_static
      then make_static_handler
      else if cfg.operational_mode == mode_inproc
      then handler inproc_handler none
      else panicked
