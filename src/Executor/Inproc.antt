-- ===== src/Executor/Inproc.antt =====
-- executor/inproc_runner.go: the function as a handler in the watchdog's own process.
use of_watchdog.Prelude.{Bool, List, Option, String, if◌then◌else◌, none, pos, some, str_eq, ℕ, ℤ}
use of_watchdog.Go.Header
use of_watchdog.Go.Http.{Error, Request, Writer, user_agent}
use of_watchdog.Config.Values.{Duration}
use of_watchdog.Config.New.{HandlerFunc}
use of_watchdog.Executor.Base.{LogLine, access, access_call, log_unless_probe}

pub record InprocRunner : Type 0 where
  pub handler : HandlerFunc
  pub prefix_logs : Bool
  pub log_buffer_size : ℤ
  pub exec_timeout : Duration
  pub log_call_id : Bool

abbrev pub new_inproc_runner : HandlerFunc → Bool → ℤ → Bool → Duration → InprocRunner
new_inproc_runner handler prefix_logs log_buffer_size log_call_id exec_timeout = record {
  handler = handler;
  prefix_logs = prefix_logs;
  log_buffer_size = log_buffer_size;
  exec_timeout = exec_timeout;
  log_call_id = log_call_id;
}

unfoldable pub start : InprocRunner → Option Error
start inpr = none

-- `r.Header.Get("X-Call-Id")`, or "none".
unfoldable pub call_id : Request → String
call_id r = let id = Header.get r.header "X-Call-Id" in if str_eq id "" then "none" else id

-- What the vendored `HttpWriteInterceptor` shows of a handler: the writer that it leaves, and the
-- status and number of bytes that it saw.
abbrev pub Intercept : Type 0
Intercept = (Writer → Request → Writer) → Writer → Request → Writer × ℕ × ℕ

module _ (intercept : Intercept) (inpr : InprocRunner) where
  abbrev line : Request → ℕ → ℕ → LogLine
  line r status bytes =
      if inpr.log_call_id
      then access_call r.method r.request_uri status (pos bytes) (call_id r)
      else access r.method r.request_uri status (pos bytes)

  -- `Run`: the response and the lines that are logged; its error is always nil. The context that
  -- the handler is given ends after `execTimeout`, whatever its sign.
  unfoldable pub run : Writer → Request → Writer × List LogLine × Option Error
  run w r =
      let (w', status, bytes) = intercept (inpr.handler (some inpr.exec_timeout)) w r in
      (w', log_unless_probe (user_agent r) (line r status bytes), none)
