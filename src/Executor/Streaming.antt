-- ===== src/Executor/Streaming.antt =====
-- executor/streaming_runner.go: a process for each request, whose output goes to the client as it
-- comes.
pub mod Laws
use of_watchdog.Prelude.{Bool, List, Option, [], if◌then◌else◌, length, none, some, ℕ, ℤ, ◌==◌, ◌∷◌}
use of_watchdog.Go.Http.{Error}
use of_watchdog.Config.Values.{Duration}
use of_watchdog.Executor.Base.{Input, FunctionRequest, deadline, Command, stderr, or_error}
use of_watchdog.Executor.Logging.{Stream, bind_logging_pipe}

pub record StreamingFunctionRunner : Type 0 where
  pub exec_timeout : Duration
  pub log_prefix : Bool
  pub log_buffer_size : ℤ

-- What a process does: the chunks that it prints, and the error with which it ends, or with which
-- copying the request's body to it ends.
pub record Process : Type 0 where
  pub start_error : Option Error
  pub chunks : List (List ℕ)
  pub stderr_pipe : Stream
  pub exit_error : Option Error

-- `io.Writer`: the new state, the number of bytes written, and the error.
abbrev pub IoWriter : Type 0 → Type 0
IoWriter S = S → List ℕ → S × ℕ × Option Error

abbrev short_write : Error
short_write = "short write"

-- One round of `io.Copy`: it goes on only after a write of the whole chunk without an error.
abbrev pub proceed :
    {S : Type 0} → ℕ → (S → S × Option Error) → S × ℕ × Option Error → S × Option Error
proceed size rest (s, n, some e) = (s, some e)
proceed size rest (s, n, none) = if n == size then rest s else (s, some short_write)

module _ {S : Type 0} (write : IoWriter S) where
  -- `io.Copy` to the output writer.
  unfoldable pub copy : S → List (List ℕ) → S × Option Error
  copy s [] = (s, none)
  copy s (p ∷ ps) = proceed (length p) (λ s'. copy s' ps) (write s p)

  module _ (exec : Command → Option Input → Process) (f : StreamingFunctionRunner) where
    abbrev pub command : FunctionRequest → Command
    command req = record {
      path = req.process;
      args = req.process_args;
      env = req.environment;
      limit = deadline f.exec_timeout;
    }

    -- The output writer's state, and the error of starting the process or of `cmd.Wait()`, which
    -- returns the process's own error before one of copying.
    unfoldable pub run : FunctionRequest → S → S × Option Error
    unfolding copy
    run req s =
        let p = exec (command req) req.input_reader in
        elim p.start_error [
          | some e ↦ (s, some e)
          | none ↦ let (s', copied) = copy s p.chunks in (s', or_error p.exit_error copied)
        ]

    -- What goes to the watchdog's stderr of the function's stderr.
    unfoldable pub function_log : List ℕ → FunctionRequest → List ℕ
    unfolding bind_logging_pipe
    function_log flags req =
        let p = exec (command req) req.input_reader in
        (bind_logging_pipe flags stderr f.log_prefix f.log_buffer_size p.stderr_pipe).out
