-- ===== src/Executor/Serializing/Piped.antt =====
-- The serializing runner on the goroutines of pipeToProcess: what a response can be, whatever the
-- interleaving.
use of_watchdog.Prelude.{
  All, List, Option, String, [], ap, code, inl, inr, none, refl, some, ℕ, ◌++◌, ◌∙◌, ◌∷◌, ◌≡◌, ◌⊎◌,
}
use of_watchdog.Go.Http.{Error, Writer, status}
use of_watchdog.Executor.Base.{FunctionRequest, Command, LogLine}
use of_watchdog.Executor.Pipe.{Pipes, State, Reach}
use of_watchdog.Executor.Pipe.Laws.{IsPipeError, Reach-returned}
use of_watchdog.Executor.Serializing.{
  SerializingForkFunctionRunner, Process, read_input, run, command,
}
use of_watchdog.Executor.Serializing.Laws.{first_error, run_ok, run_failed}

-- What the process hands on is what some interleaving of the goroutines returns.
abbrev pub IsPiped : Pipes → Process → Type 0
IsPiped p q = (s : State) × Reach p s × (s.returned ≡ some (some q.function_result, q.errors))

module _ (exec : Command → List ℕ → Process) (f : SerializingForkFunctionRunner)
    (encode : Error → List ℕ) (seconds : String) (req : FunctionRequest) (w : Writer) where
  abbrev out : Writer × List LogLine × Option Error
  out = run exec f encode seconds req w

  piped-cases :
      (p : Pipes) (bytes : List ℕ) (errors : List Error)
      → w.sent ≡ none
      → read_input req.content_length req.input_reader ≡ inl bytes
      → (exec (command exec f req) bytes).start_error ≡ none
      → (exec (command exec f req) bytes).wait_error ≡ none
      → (exec (command exec f req) bytes).errors ≡ errors
      → some (exec (command exec f req) bytes).function_result ≡ some p.stdout
      → All (IsPipeError p) errors
      → ((status out.0 ≡ some 200) × (out.0.body ≡ w.body ++ p.stdout))
        ⊎ ((e : Error) × IsPipeError p e
            × (status out.0 ≡ some 500)
            × (out.0.body ≡ w.body ++ encode e))
  piped-cases p bytes [] unsent given started waited none_of result all =
      let fine : first_error (exec (command exec f req) bytes) ≡ none =
        rw (started, none_of) waited in
      let (code, body, err, logged) = run_ok exec f encode seconds req w unsent bytes given fine in
      let same : (exec (command exec f req) bytes).function_result ≡ p.stdout = cc result in
      inl (code, body ∙ ap (λ b. w.body ++ b) same)
  piped-cases p bytes (e ∷ es) unsent given started waited some_of result (bad, all) =
      let failed : first_error (exec (command exec f req) bytes) ≡ some e = rw (started, some_of) in
      let (code, body, err, logged) =
        run_failed exec f encode seconds req w unsent bytes e given failed in
      inr (e, bad, code, body)

  -- Whatever the interleaving of the goroutines, when the input is read, the process starts and
  -- ends without an error, and nothing was sent yet, the response is either 200 with all of the
  -- process's output, or 500 with the message of an error of one of its two pipes.
  pub run-IsPiped :
      (p : Pipes) (bytes : List ℕ)
      → w.sent ≡ none
      → read_input req.content_length req.input_reader ≡ inl bytes
      → (exec (command exec f req) bytes).start_error ≡ none
      → (exec (command exec f req) bytes).wait_error ≡ none
      → IsPiped p (exec (command exec f req) bytes)
      → ((status out.0 ≡ some 200) × (out.0.body ≡ w.body ++ p.stdout))
        ⊎ ((e : Error) × IsPipeError p e
            × (status out.0 ≡ some 500)
            × (out.0.body ≡ w.body ++ encode e))
  run-IsPiped p bytes unsent given started waited (s, reach, returned) =
      let (result, all) = Reach-returned _ _ reach returned in
      piped-cases p bytes _ unsent given started waited refl result all
