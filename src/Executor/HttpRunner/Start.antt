-- ===== src/Executor/HttpRunner/Start.antt =====
-- executor/http_runner.go, Start and makeProxyClient: the process that serves the function.
use of_watchdog.Prelude.{Bool, List, Option, [], arith, false, none, pos, some, ℕ, ◌*◌, ◌↔◌, ◌≡◌}
use of_watchdog.Go.Http.{Error}
use of_watchdog.Config.Values.{Duration, second}
use of_watchdog.Executor.Base.{or_error, stderr, stdout}
use of_watchdog.Executor.Logging.{Stream, bind_logging_pipe}
use of_watchdog.Executor.HttpRunner.Run.{HttpFunctionRunner}

-- What the operating system does: the errors of making the pipes, of starting the process and of
-- waiting for its end, and what the process prints.
pub record Os : Type 0 where
  pub stdin_error : Option Error
  pub stdout_error : Option Error
  pub start_error : Option Error
  pub wait_error : Option Error
  pub stderr_pipe : Stream
  pub stdout_pipe : Stream

-- The settings of the HTTP client that the source sets; durations in nanoseconds.
pub record ProxyClient : Type 0 where
  pub dial_timeout : Duration
  pub keep_alive : Duration
  pub max_idle_conns : ℕ
  pub max_idle_conns_per_host : ℕ
  pub disable_keep_alives : Bool
  pub idle_conn_timeout : Duration
  pub expect_continue_timeout : Duration
  pub follows_redirects : Bool

unfoldable pub make_proxy_client : Duration → ProxyClient
make_proxy_client dial_timeout = record {
  dial_timeout = dial_timeout;
  keep_alive = pos (10 * second);
  max_idle_conns = 100;
  max_idle_conns_per_host = 100;
  disable_keep_alives = false;
  idle_conn_timeout = pos 500_000_000;
  expect_continue_timeout = pos 1_500_000_000;
  follows_redirects = false;
}

-- What Start leaves: the error that it returns, the client, the function's output as it is logged,
-- and the error with which the goroutine that waits for the process ends the watchdog.
pub record Started : Type 0 where
  pub error : Option Error
  pub client : Option ProxyClient
  pub logged_stderr : List ℕ
  pub logged_stdout : List ℕ
  pub fatal : Option Error

abbrev refused : Error → Started
refused e = record {
  error = some e;
  client = none;
  logged_stderr = [];
  logged_stdout = [];
  fatal = none;
}

-- Waiting for a process that was not started is an error too.
abbrev not_started : Option Error → Option Error
not_started none = none
not_started (some e) = some "exec: not started"

unfoldable pub start : List ℕ → HttpFunctionRunner → Os → Started
unfolding make_proxy_client bind_logging_pipe
start flags f os = elim (or_error os.stdin_error os.stdout_error) [
  | some e ↦ refused e
  | none ↦ record {
    error = os.start_error;
    client = some (make_proxy_client f.exec_timeout);
    logged_stderr =
        (bind_logging_pipe flags stderr f.log_prefix f.log_buffer_size os.stderr_pipe).out;
    logged_stdout =
        (bind_logging_pipe flags stdout f.log_prefix f.log_buffer_size os.stdout_pipe).out;
    fatal = or_error (not_started os.start_error) os.wait_error;
  }
]

-- A process that the system refuses to start ends the watchdog, although Start's error is dropped
-- by its caller; so does one that ends with an error. One that ends without an error does not.
pub start-fatal_iff :
    (flags : List ℕ) (f : HttpFunctionRunner) (os : Os)
    → or_error os.stdin_error os.stdout_error ≡ none
    → ((start flags f os).fatal ≡ none) ↔ ((os.start_error ≡ none) × (os.wait_error ≡ none))
unfolding start
start-fatal_iff flags f os pipes = ground arith
