-- ===== src/Executor/Base.antt =====
-- executor/function_runner.go, and what the runners share: access log lines, the contexts with a
-- deadline, and what a started process does.
use of_watchdog.Prelude.{
  Bool, List, Option, String, [], if◌then◌else◌, is_positive, none, some, ℕ, ℤ, ◌∷◌,
}
use of_watchdog.Go.Strings.{has_prefix}
use of_watchdog.Go.Http.{Error, Request, Writer, status}
use of_watchdog.Config.Values.{Duration}

-- A request's body as reading it shows it: the bytes, and the error after them if one comes
-- before the end.
pub record Input : Type 0 where
  pub bytes : List ℕ
  pub error : Option Error

-- `FunctionRequest`. The output writer is the writer that a runner is given.
pub record FunctionRequest : Type 0 where
  pub request_uri : String
  pub method : String
  pub user_agent : String
  pub process : String
  pub process_args : List String
  pub environment : List String
  pub input_reader : Option Input
  pub content_length : Option ℤ

-- A line that a runner logs. Of an access line it keeps what depends on the request and the
-- response; the elapsed time is left out.
pub data LogLine : Type 0 where
  access : String → String → ℕ → ℤ → LogLine
  access_call : String → String → ℕ → ℤ → String → LogLine
  upstream : String → String → String → ℤ → LogLine
  upstream_call : String → String → String → ℤ → String → LogLine
  note : String → Error → LogLine

-- What an `http.Handler` leaves: the writer and the lines that were logged; nothing for a panic.
abbrev pub Handled : Type 0
Handled = Option (Writer × List LogLine)

abbrev pub Handler : Type 0
Handler = Writer → Request → Handled

-- The status that was sent by the time the handler has returned.
abbrev pub handled_status : Handled → Option ℕ
handled_status none = none
handled_status (some (w, lines)) = status w

-- `strings.HasPrefix(req.UserAgent, "kube-probe")`.
abbrev pub is_probe : String → Bool
is_probe agent = has_prefix agent "kube-probe"

-- Requests of the kubelet are not logged.
abbrev pub log_unless_probe : String → LogLine → List LogLine
log_unless_probe agent line = if is_probe agent then [] else line ∷ []

-- The deadline of `context.WithTimeout`, set only where the timeout is more than 0.
abbrev pub deadline : Duration → Option Duration
deadline timeout = if is_positive timeout then some timeout else none

-- What `exec.CommandContext` is given.
pub record Command : Type 0 where
  pub path : String
  pub args : List String
  pub env : List String
  pub limit : Option Duration

-- "stderr" and "stdout" as the bytes of the name that a log line may start with.
abbrev pub stderr : List ℕ
stderr = 115 ∷ 116 ∷ 100 ∷ 101 ∷ 114 ∷ 114 ∷ []

abbrev pub stdout : List ℕ
stdout = 115 ∷ 116 ∷ 100 ∷ 111 ∷ 117 ∷ 116 ∷ []

abbrev pub or_error : Option Error → Option Error → Option Error
or_error none e = e
or_error (some e) _ = some e
