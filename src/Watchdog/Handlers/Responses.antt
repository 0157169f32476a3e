-- ===== src/Watchdog/Handlers/Responses.antt =====
-- The responses of the serializing mode, from the request of the client to the process and back.
use of_watchdog.Prelude.{
  List, Option, Option-cases, String, code, inl, inr, none, refl, some, ℕ, ◌++◌, ◌≡◌, ◌⊎◌,
}
use of_watchdog.Go.Http.{Error, Request, Writer, status, set_header}
use of_watchdog.Executor.Base.{FunctionRequest, LogLine}
use of_watchdog.Executor.Serializing
use of_watchdog.Executor.Serializing.{read_input}
use of_watchdog.Executor.Serializing.Laws.{first_error, run_ok, run_failed}
use of_watchdog.Config.New.{WatchdogConfig}
use of_watchdog.Watchdog.Handlers.{
  System, serializing_handler, serializing_runner, function_request, injected, error_notes, body_of,
}

module _ (sys : System) (cfg : WatchdogConfig) (w : Writer) (r : Request) (env : List String) where
  -- The request that the serializing mode runs its process with.
  abbrev sent_request : FunctionRequest
  sent_request = function_request cfg r (some r.content_length) env

  -- What the process does that the serializing mode starts on the data.
  abbrev pub process_of : List ℕ → Serializing.Process
  process_of bytes =
      sys.exec_serializing
        (Serializing.command sys.exec_serializing (serializing_runner sys cfg) sent_request) bytes

  abbrev served : Writer × List LogLine × Option Error
  served =
      Serializing.run sys.exec_serializing (serializing_runner sys cfg) sys.encode sys.seconds
        sent_request (set_header w "Content-Type" cfg.content_type)

  serializing_handler-served :
      injected sys cfg r ≡ some env
      → serializing_handler sys cfg w r
        ≡ some (served.0, served.1 ++ error_notes "SerializingForkFunctionRunner error" served.2)
  unfolding serializing_handler
  serializing_handler-served environment = rw (environment, serializing_handler) refl

  -- In the serializing mode a request whose body is read, whose environment can be made, and to
  -- which nothing was sent yet, is answered with status 200 and all that the process printed, if
  -- the process is started and ends without an error, and otherwise with status 500 and the message
  -- of the first error.
  pub serializing_handler-response :
      (bytes : List ℕ)
      → w.sent ≡ none
      → injected sys cfg r ≡ some env
      → read_input (some r.content_length) (body_of r) ≡ inl bytes
      → (w' : Writer) × (lines : List LogLine) × (serializing_handler sys cfg w r
          ≡ some (w', lines))
        × (((first_error (process_of bytes) ≡ none)
              × (status w' ≡ some 200)
              × (w'.body ≡ w.body ++ (process_of bytes).function_result))
            ⊎ ((e : Error) × (first_error (process_of bytes) ≡ some e)
                × (status w' ≡ some 500)
                × (w'.body ≡ w.body ++ sys.encode e)))
  serializing_handler-response bytes unsent environment given = (
    served.0,
    served.1 ++ error_notes "SerializingForkFunctionRunner error" served.2,
    serializing_handler-served environment,
    elim (Option-cases (first_error (process_of bytes))) [
      | inl fine ↦
          let (code, body, err, logged) =
            run_ok sys.exec_serializing (serializing_runner sys cfg) sys.encode sys.seconds
              sent_request (set_header w "Content-Type" cfg.content_type) unsent bytes given fine in
          inl (fine, code, body)
      | inr (e, failed) ↦
          let (code, body, err, logged) =
            run_failed sys.exec_serializing (serializing_runner sys cfg) sys.encode sys.seconds
              sent_request (set_header w "Content-Type" cfg.content_type) unsent bytes e given
              failed in
          inr (e, failed, code, body)
    ],
  )
