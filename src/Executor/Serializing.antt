-- ===== src/Executor/Serializing.antt =====
-- executor/serializing_fork_runner.go: a process for each request, whose whole output is the
-- response.
pub mod Laws
pub mod Piped
use of_watchdog.Prelude.{
  Bool, List, Option, String, [], if◌then◌else◌, inl, inr, leb, length, ltb, negsuc, none, pos,
  some, take, ℕ, ℤ, ◌∷◌, ◌⊎◌,
}
use of_watchdog.Go.Http.{Error, Writer, write, write_header, set_header}
use of_watchdog.Config.Values.{Duration}
use of_watchdog.Executor.Base.{
  Input, FunctionRequest, LogLine, access, log_unless_probe, deadline, Command, stderr,
}
use of_watchdog.Executor.Logging.{Stream, bind_logging_pipe}

pub record SerializingForkFunctionRunner : Type 0 where
  pub exec_timeout : Duration
  pub log_prefix : Bool
  pub log_buffer_size : ℤ

-- What a started process does: the body and the errors that pipeToProcess returns (Pipe.antt says
-- which it can return), what it writes to stderr, and the error of `cmd.Wait()`.
pub record Process : Type 0 where
  pub start_error : Option Error
  pub function_result : List ℕ
  pub errors : List Error
  pub stderr_pipe : Stream
  pub wait_error : Option Error

-- `io.LimitReader`: after `n` bytes there is nothing more to read, and so no error.
limit_reader : ℕ → Input → Input
limit_reader n i =
    if leb n (length i.bytes) then record { bytes = take n i.bytes; error = none } else i

limit : Option ℤ → Input → Input
unfolding limit_reader
limit none i = i
limit (some (pos n)) i = if ltb 0 n then limit_reader n i else i
limit (some (negsuc n)) i = i

-- The data that is written to the process, or the error of reading the request's body.
unfoldable pub read_input : Option ℤ → Option Input → List ℕ ⊎ Error
unfolding limit
read_input content_length none = inl []
read_input content_length (some i) = elim (limit content_length i).error [
  | none ↦ inl (limit content_length i).bytes
  | some e ↦ inr e
]

-- What `serializeFunction` returns: the body or nothing, and the error.
abbrev pub Serialized : Type 0
Serialized = Option (List ℕ) × Option Error

abbrev after_pipes : Process → List Error → Serialized
after_pipes p [] = (some p.function_result, p.wait_error)
after_pipes p (e ∷ es) = (none, some e)

abbrev after_start : Process → Option Error → Serialized
after_start p none = after_pipes p p.errors
after_start p (some e) = (none, some e)

-- `exec` is the operating system: what a process does that is started with a command and data.
module _ (exec : Command → List ℕ → Process) (f : SerializingForkFunctionRunner) where
  abbrev pub command : FunctionRequest → Command
  command req = record {
    path = req.process;
    args = req.process_args;
    env = req.environment;
    limit = deadline f.exec_timeout;
  }

  unfoldable pub serialize_function : FunctionRequest → Serialized
  unfolding read_input
  serialize_function req = elim (read_input req.content_length req.input_reader) [
    | inr e ↦ (none, some e)
    | inl bytes ↦ let p = exec (command req) bytes in after_start p p.start_error
  ]

  abbrev log_stderr : List ℕ → Process → Option Error → List ℕ
  log_stderr flags p none =
      (bind_logging_pipe flags stderr f.log_prefix f.log_buffer_size p.stderr_pipe).out
  log_stderr flags p (some e) = []

  -- What goes to the watchdog's stderr of the function's stderr: nothing unless it was started.
  unfoldable pub function_log : List ℕ → FunctionRequest → List ℕ
  unfolding read_input bind_logging_pipe
  function_log flags req = elim (read_input req.content_length req.input_reader) [
    | inr e ↦ []
    | inl bytes ↦ let p = exec (command req) bytes in log_stderr flags p p.start_error
  ]

  abbrev optional_write : Writer → Option (List ℕ) → Writer
  optional_write w none = w
  optional_write w (some body) = write w body

  abbrev body_length : Option (List ℕ) → ℕ
  body_length none = 0
  body_length (some body) = length body

  -- `Run`, after serializeFunction. `seconds` is the elapsed time as the header shows it, and
  -- `encode` gives the bytes of an error's message.
  abbrev respond :
      (Error → List ℕ)
      → String
      → FunctionRequest
      → Writer
      → Serialized
      → Writer × List LogLine × Option Error
  respond encode seconds req w (body, some e) = (
    write (write_header (set_header w "X-Duration-Seconds" seconds) 500) (encode e),
    log_unless_probe req.user_agent
        (access req.method req.request_uri 200 (pos (length (encode e)))),
    some e,
  )
  respond encode seconds req w (body, none) = (
    optional_write (write_header (set_header w "X-Duration-Seconds" seconds) 200) body,
    log_unless_probe req.user_agent
        (access req.method req.request_uri 200 (pos (body_length body))),
    none,
  )

  -- `Run`: the response, the lines that are logged, and the error. A write to the client is taken
  -- to succeed.
  unfoldable pub run :
      (Error → List ℕ) → String → FunctionRequest → Writer → Writer × List LogLine × Option Error
  unfolding serialize_function
  run encode seconds req w = respond encode seconds req w (serialize_function req)
