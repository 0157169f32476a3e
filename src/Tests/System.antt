-- ===== src/Tests/System.antt =====
-- A small system: processes that print two bytes or what they read, a network that refuses, and a
-- middleware that lets nobody in.
use of_watchdog.Prelude.{
  List, Option, String, [], arith, false, inl, none, pos, refl, some, true, ℕ, ◌∷◌, ◌⊎◌,
}
use of_watchdog.Go.Http.{Error, Request, write_header}
use of_watchdog.Config.New.{WatchdogConfig, empty_config}
use of_watchdog.Executor.Base.{Handler}
use of_watchdog.Executor.HttpRunner.Run.{failed}
use of_watchdog.Executor.Streaming
use of_watchdog.Watchdog.Handlers.{System}
use of_watchdog.Watchdog.Lock.{World, lock_file_present}
use of_watchdog.Watchdog.Lock.Laws.{IsUp}
use of_watchdog.Watchdog.Shutdown.{Settings}
use of_watchdog.Watchdog.Start.{Middleware}
use of_watchdog.Tests.Config.{parse_duration}
use of_watchdog.Tests.Requests.{request}

abbrev pub up : World
up = record { accepting_connections = 1; lock_file = true; readable = true }

pub up-IsUp : IsUp up
unfolding lock_file_present
up-IsUp = (omega arith, refl)

-- A function that answers 204.
abbrev pub no_content : Handler
no_content w r = some (write_header w 204, [])

abbrev pub new_request : String → String → String → Request ⊎ Error
new_request scheme url_host path = inl request

abbrev pub chunks : List (List ℕ)
chunks = (104 ∷ []) ∷ (105 ∷ []) ∷ []

abbrev pub process : Option Error → Streaming.Process
process start_error = record {
  start_error = start_error;
  chunks = chunks;
  stderr_pipe = record { bytes = []; failure = none };
  exit_error = none;
}

abbrev pub system : Option Error → System
system start_error = record {
  environ = [];
  exec_serializing = λ c bytes. record {
    start_error = none;
    function_result = bytes;
    errors = [];
    stderr_pipe = record { bytes = []; failure = none };
    wait_error = none;
  };
  exec_streaming = λ c input. process start_error;
  network = record {
    parse_duration = parse_duration;
    new_request_error = λ method url. none;
    client_do = λ out. failed "refused" none;
    proxy = λ r w. w;
    idle = (0, 0);
    ended = "context canceled";
  };
  os = record {
    stdin_error = none;
    stdout_error = none;
    start_error = none;
    wait_error = none;
    stderr_pipe = record { bytes = []; failure = none };
    stdout_pipe = record { bytes = []; failure = none };
  };
  flags = [];
  intercept = λ h w r. (h w r, 200, 0);
  file_server = λ path w r. w;
  encode = λ e. [];
  seconds = "0.1";
  parse_url = λ url. inl url;
}

abbrev pub config : WatchdogConfig
config = record empty_config { function_process = "cat"; operational_mode = 1 }

-- A middleware that refuses all requests with 401.
abbrev pub middleware : Middleware
middleware = record {
  openfaas_name = some "items";
  openfaas_namespace = none;
  namespace_file = inl "openfaas-fn";
  new_jwt_auth = λ o next. inl (λ w r. some (write_header w 401, []));
  limited = λ n h. h;
  promhttp = record { handler_counter = λ h. h; handler_duration = λ h. h };
}

abbrev pub settings : Settings
settings = record { suppress_lock = false; healthcheck_interval = pos 5_000_000_000 }
