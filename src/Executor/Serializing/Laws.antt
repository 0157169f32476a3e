-- ===== src/Executor/Serializing/Laws.antt =====
-- Responses of the serializing mode.
use of_watchdog.Prelude.{
  List, Option, String, [], arith, if◌then◌else◌, inl, length, none, pos, some, take, ℕ, ◌++◌, ◌<◌,
  ◌∷◌, ◌≡◌, ◌≤◌,
}
use of_watchdog.Go.Http.{Error, Writer, write, write_header, status}
use of_watchdog.Executor.Base.{Input, FunctionRequest, LogLine, access, Command, or_error, is_probe}
use of_watchdog.Executor.Serializing.{
  SerializingForkFunctionRunner, Process, serialize_function, read_input, run, command, after_start,
  limit_reader,
}

-- What is logged of a request that a body of `bytes` bytes answers: one line, with status 200, and
-- none for a probe of the kubelet.
abbrev pub logged_200 : FunctionRequest → ℕ → List LogLine
logged_200 req bytes =
    if is_probe req.user_agent then [] else access req.method req.request_uri 200 (pos bytes) ∷ []

abbrev head_error : List Error → Option Error
head_error [] = none
head_error (e ∷ es) = some e

-- The first error of a process: of starting it, of its pipes, of waiting for it.
abbrev pub first_error : Process → Option Error
first_error p = or_error p.start_error (or_error (head_error p.errors) p.wait_error)

after_start-ok :
    (p : Process)
    → first_error p ≡ none
    → after_start p p.start_error ≡ (some p.function_result, none)
after_start-ok p h = ground arith

after_start-failed :
    (p : Process) (e : Error)
    → first_error p ≡ some e
    → (body : Option (List ℕ)) × (after_start p p.start_error ≡ (body, some e))
after_start-failed p e h = ((after_start p p.start_error).0, ground arith)

module _ (exec : Command → List ℕ → Process) (f : SerializingForkFunctionRunner)
    (encode : Error → List ℕ) (seconds : String) (req : FunctionRequest) (w : Writer)
    (unsent : w.sent ≡ none) where
  abbrev out : Writer × List LogLine × Option Error
  out = run exec f encode seconds req w

  respond-failure :
      (body : Option (List ℕ)) (e : Error)
      → serialize_function exec f req ≡ (body, some e)
      → (status out.0 ≡ some 500)
        × (out.0.body ≡ w.body ++ encode e)
        × (out.2 ≡ some e)
        × (out.1 ≡ logged_200 req (length (encode e)))
  unfolding run write_header write
  respond-failure body e h = rw (h, run) (ground arith)

  respond-success :
      (body : List ℕ)
      → serialize_function exec f req ≡ (some body, none)
      → (status out.0 ≡ some 200)
        × (out.0.body ≡ w.body ++ body)
        × (out.2 ≡ none)
        × (out.1 ≡ logged_200 req (length body))
  unfolding run write_header write
  respond-success body h = rw (h, run) (ground arith)

  -- When the request's body is read and the process starts, and neither its pipes nor waiting for
  -- it fails, the response has status 200 and the process's output as its body, and Run returns no
  -- error.
  pub run_ok :
      (bytes : List ℕ)
      → read_input req.content_length req.input_reader ≡ inl bytes
      → first_error (exec (command exec f req) bytes) ≡ none
      → (status out.0 ≡ some 200)
        × (out.0.body ≡ w.body ++ (exec (command exec f req) bytes).function_result)
        × (out.2 ≡ none)
        × (out.1 ≡ logged_200 req (length (exec (command exec f req) bytes).function_result))
  unfolding serialize_function
  run_ok bytes r h =
      respond-success _
        (rw (r, serialize_function) (after_start-ok (exec (command exec f req) bytes) h))

  -- When the input is read, nothing was sent yet, and the start of the process, a pipe or the end
  -- of the process fails, the response has status 500 and the first error's message as its body,
  -- whatever the process printed, and Run returns that error; but the access line that is logged,
  -- if the request is no probe of the kubelet, says 200.
  pub run_failed :
      (bytes : List ℕ) (e : Error)
      → read_input req.content_length req.input_reader ≡ inl bytes
      → first_error (exec (command exec f req) bytes) ≡ some e
      → (status out.0 ≡ some 500)
        × (out.0.body ≡ w.body ++ encode e)
        × (out.2 ≡ some e)
        × (out.1 ≡ logged_200 req (length (encode e)))
  unfolding serialize_function
  run_failed bytes e r h =
      let (body, p) = after_start-failed (exec (command exec f req) bytes) e h in
      respond-failure body e (rw (r, serialize_function) p)

-- A request with a positive content length that its body reaches is given that many bytes of it,
-- even where reading on would fail.
pub read_input-take :
    (n : ℕ) (i : Input)
    → 0 < n
    → n ≤ length i.bytes
    → read_input (some (pos n)) (some i) ≡ inl (take n i.bytes)
unfolding read_input limit_reader
read_input-take n i h k = ground arith
