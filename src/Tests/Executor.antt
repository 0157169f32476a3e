-- ===== src/Tests/Executor.antt =====
-- The runners that start a process for each request, and the logging of their output.
use of_watchdog.Prelude.{
  All, List, Option, String, [], arith, false, if◌then◌else◌, inl, negsuc, none, pos, refl, some,
  str_eq, true, ℕ, ◌++◌, ◌∷◌, ◌≡◌, ◌⊎◌,
}
use of_watchdog.Go.Http.{Error, status}
use of_watchdog.Executor.Base.{FunctionRequest, Command, access}
use of_watchdog.Executor.Logging.{
  Stream, bind_logging_pipe, lines, newline, tokens, failures, too_long,
}
use of_watchdog.Executor.Logging.Scanning.{
  logged_lines, bind_logging_pipe-short, bind_logging_pipe-too_long,
}
use of_watchdog.Executor.Logging.Laws.{bind_logging_pipe-unbuffered, HasNone}
use of_watchdog.Executor.Pipe.{Pipes, State, Reach}
use of_watchdog.Executor.Pipe.Laws.{IsPipeError, Reach-returned}
use of_watchdog.Executor.Pipe.Blocking
use of_watchdog.Executor.Pipe.Blocking.{Program, exits, reads, prints, writing}
use of_watchdog.Executor.Pipe.Blocking.Ends.{Returns, returns}
use of_watchdog.Executor.Pipe.Lost.{failing, error_lost}
use of_watchdog.Executor.Serializing.{
  SerializingForkFunctionRunner, Process, read_input, run, command,
}
use of_watchdog.Executor.Serializing.Piped.{IsPiped, run-IsPiped}
use of_watchdog.Executor.Serializing.Laws.{run_failed}
use of_watchdog.Tests.Requests.{writer}

abbrev hi : List ℕ
hi = 104 ∷ 105 ∷ []

abbrev quiet : Stream
quiet = record { bytes = []; failure = none }

-- A process that prints what it reads; one whose path is "false" fails.
abbrev echo : Command → List ℕ → Process
echo c bytes = record {
  start_error = none;
  function_result = bytes;
  errors = [];
  stderr_pipe = quiet;
  wait_error = if str_eq c.path "false" then some "exit status 1" else none;
}

abbrev runner : SerializingForkFunctionRunner
runner = record { exec_timeout = pos 0; log_prefix = true; log_buffer_size = pos 64 }

abbrev function_request : String → FunctionRequest
function_request path = record {
  request_uri = "/";
  method = "POST";
  user_agent = "curl";
  process = path;
  process_args = [];
  environment = [];
  input_reader = some (record { bytes = hi; error = none });
  content_length = some (pos 2);
}

abbrev encode : Error → List ℕ
encode e = 33 ∷ []

read_hi :
    (path : String)
    → read_input (function_request path).content_length (function_request path).input_reader
      ≡ inl hi
unfolding read_input
read_hi path = refl

run_failed_example :
    (status (run echo runner encode "0.1" (function_request "false") writer).0 ≡ some 500)
    × ((run echo runner encode "0.1" (function_request "false") writer).0.body ≡ 33 ∷ [])
    × ((run echo runner encode "0.1" (function_request "false") writer).2 ≡ some "exit status 1")
    × ((run echo runner encode "0.1" (function_request "false") writer).1
        ≡ access "POST" "/" 200 (pos 1) ∷ [])
run_failed_example =
    run_failed echo runner encode "0.1" (function_request "false") writer refl hi "exit status 1"
      (read_hi "false") refl

abbrev broken : Pipes
broken = failing "broken pipe" hi

error_lost_example : (s : State) × Reach broken s × (s.returned ≡ some (some hi, []))
error_lost_example = error_lost "broken pipe" hi

abbrev lost : (s : State) × Reach broken s × (s.returned ≡ some (some hi, []))
lost = error_lost "broken pipe" hi

Reach-returned_example : (some hi ≡ some hi) × All (IsPipeError broken) []
Reach-returned_example = Reach-returned {p = broken} {s = lost.0} (some hi) [] (lost.1) (lost.2)

-- A process that prints a byte that it reads, and reads on to the end of its input.
abbrev print_first : Option ℕ → Program
print_first none = exits
print_first (some b) = prints b (reads (λ o. exits))

-- One byte is in the pipe of stdin.
abbrev begun : Blocking.State
begun = record (Blocking.start (reads print_first) hi) {
  writer = writing (105 ∷ []);
  stdin = 104 ∷ [];
}

returns_example : Returns 3 (104 ∷ []) begun
returns_example =
    returns 3 (reads print_first) hi begun
      (Blocking.next Blocking.here (Blocking.write 104 (105 ∷ []) refl refl (omega arith) refl))

-- Two lines, the second without its newline.
abbrev unfinished : Stream
unfinished = record { bytes = 97 ∷ 10 ∷ 98 ∷ []; failure = none }

bind_logging_pipe-unbuffered_example :
    ((bind_logging_pipe [] [] false (negsuc 0) unfinished).out ++ 98 ∷ [] ≡ 97 ∷ 10 ∷ 98 ∷ [])
    × HasNone newline (98 ∷ [])
unfolding lines
bind_logging_pipe-unbuffered_example = bind_logging_pipe-unbuffered [] [] 0 unfinished

echo-IsPiped : IsPiped broken (echo (command echo runner (function_request "cat")) hi)
echo-IsPiped = error_lost "broken pipe" hi

run-IsPiped_example :
    ((status (run echo runner encode "0.1" (function_request "cat") writer).0 ≡ some 200)
      × ((run echo runner encode "0.1" (function_request "cat") writer).0.body ≡ [] ++ hi))
    ⊎ ((e : Error) × IsPipeError broken e
        × (status (run echo runner encode "0.1" (function_request "cat") writer).0 ≡ some 500)
        × ((run echo runner encode "0.1" (function_request "cat") writer).0.body ≡ [] ++ encode e))
run-IsPiped_example =
    run-IsPiped echo runner encode "0.1" (function_request "cat") writer broken hi refl
      (read_hi "cat") refl refl echo-IsPiped

abbrev name : List ℕ
name = 115 ∷ []

bind_logging_pipe-short_example :
    ((bind_logging_pipe [] name true (pos 4) unfinished).out
      ≡ logged_lines [] name true (tokens (lines unfinished.bytes)))
    × ((bind_logging_pipe [] name true (pos 4) unfinished).errors ≡ failures none)
unfolding lines
bind_logging_pipe-short_example =
    bind_logging_pipe-short [] name true 3 unfinished (omega arith) (omega arith)

-- A line of one byte, then one of three.
abbrev growing : Stream
growing = record { bytes = 97 ∷ 10 ∷ 98 ∷ 98 ∷ 98 ∷ 10 ∷ 97 ∷ []; failure = none }

bind_logging_pipe-too_long_example :
    ((bind_logging_pipe [] name true (pos 2) growing).out
      ≡ logged_lines [] name true ((97 ∷ []) ∷ []))
    × ((bind_logging_pipe [] name true (pos 2) growing).errors ≡ too_long ∷ [])
unfolding lines
bind_logging_pipe-too_long_example =
    bind_logging_pipe-too_long [] name true 1 growing (omega arith) ((97 ∷ []) ∷ [])
      (98 ∷ 98 ∷ 98 ∷ []) ((97 ∷ []) ∷ []) refl (omega arith) (omega arith)
