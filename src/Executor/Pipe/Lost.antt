-- ===== src/Executor/Pipe/Lost.antt =====
-- An error that is lost: the caller may read the list of errors after the last `wg.Done()` and
-- before the collector has appended what it received.
use of_watchdog.Prelude.{List, [], none, refl, some, ℕ, ◌≡◌}
use of_watchdog.Go.Http.{Error}
use of_watchdog.Executor.Pipe.{
  finished, Pipes, State, write_stdin, close_stdin, read_stdout, writer_sends, writer_done,
  reader_done, return, Reach, here, next,
}

-- Writing stdin fails with `e`, and reading stdout does not.
abbrev pub failing : Error → List ℕ → Pipes
failing e stdout = record { stdin_error = some e; stdout = stdout; stdout_error = none }

-- For every error of writing stdin there is an interleaving in which pipeToProcess returns the
-- whole output and no error, so the caller goes on as if nothing had failed.
pub error_lost :
    (e : Error) (stdout : List ℕ)
    → (s : State) × Reach (failing e stdout) s × (s.returned ≡ some (some stdout, []))
error_lost e stdout = (
  record {
    writer = finished;
    reader = finished;
    held = some e;
    errors = [];
    function_result = some stdout;
    returned = some (some stdout, []);
  },
  next
      (next
        (next
          (next
            (next (next (next here (write_stdin refl refl)) (close_stdin (some e) refl refl))
              (writer_sends e refl refl refl))
            (writer_done refl refl))
          (read_stdout refl refl))
        (reader_done refl refl))
      (return refl refl refl refl),
  refl,
)
