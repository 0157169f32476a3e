-- ===== src/Watchdog/Handlers/Laws.antt =====
-- Which modes have a handler, and what the handlers answer.
use of_watchdog.Prelude.{
  List, Option-cases, String, arith, inl, inr, none, refl, some, ℕ, ◌++◌, ◌↔◌, ◌≡◌, ◌≢◌, ◌⊎◌,
}
use of_watchdog.Go.Http.{Request, Writer, write, write_header, set_header}
use of_watchdog.Go.Http.{Error}
use of_watchdog.Executor.Base.{FunctionRequest, LogLine}
use of_watchdog.Executor.Streaming
use of_watchdog.Executor.Streaming.Laws.{TakesAll, concat, run_all}
use of_watchdog.Watchdog.Counter
use of_watchdog.Watchdog.Counter.{set_writer}
use of_watchdog.Config.New.{WatchdogConfig}
use of_watchdog.Watchdog.Handlers.{
  panicked, System, build_request_handler, function_request, streaming_handler, response_writer,
  streaming_runner, injected, streaming_lines,
}

-- Building the handler panics exactly when the mode is none of the five that have one; among the
-- modes with a name that is afterburn.
pub build_request_handler-panics_iff :
    (sys : System) (cfg : WatchdogConfig)
    → (build_request_handler sys cfg ≡ panicked) ↔ (
        (cfg.operational_mode ≢ 1)
        × (cfg.operational_mode ≢ 2)
        × (cfg.operational_mode ≢ 4)
        × (cfg.operational_mode ≢ 5)
        × (cfg.operational_mode ≢ 6))
unfolding build_request_handler
build_request_handler-panics_iff sys cfg = ground arith

write-body : (w : Writer) (p : List ℕ) → (write w p).body ≡ w.body ++ p
unfolding write write_header
write-body w p = ground arith

pub TakesAll-response_writer : TakesAll response_writer (λ w. w.body)
TakesAll-response_writer w p = (write-body w p, refl, refl)

module _ (sys : System) (cfg : WatchdogConfig) (w : Writer) (r : Request) (env : List String) where
  -- The request that the streaming mode runs its process with.
  abbrev pub request : FunctionRequest
  request = function_request cfg r none env

  -- What the process does that the streaming mode starts.
  abbrev pub child : Streaming.Process
  child =
      sys.exec_streaming
        (Streaming.command (Counter.write response_writer) sys.exec_streaming
          (streaming_runner sys cfg) request)
        request.input_reader

  TakesAll-counter : TakesAll (Counter.write response_writer) (λ ww. ww.w.body)
  unfolding Counter.write
  TakesAll-counter ww p = (write-body ww.w p, refl, refl)

  -- A streaming request whose process starts sends the client all that the process prints, in
  -- order.
  pub streaming_handler-body :
      injected sys cfg r ≡ some env
      → child.start_error ≡ none
      → (w' : Writer) × (lines : List LogLine) × (streaming_handler sys cfg w r ≡ some (w', lines))
        × (w'.body ≡ w.body ++ concat child.chunks)
  unfolding streaming_handler
  streaming_handler-body environment started =
      let ww = set_writer (set_header w "Content-Type" cfg.content_type) in
      let out =
        Streaming.run (Counter.write response_writer) sys.exec_streaming (streaming_runner sys cfg)
          request ww in
      (
        out.0.w,
        streaming_lines request out.0.bytes out.1,
        rw (environment, streaming_handler),
        (run_all (Counter.write response_writer) (λ ww. ww.w.body) TakesAll-counter
            sys.exec_streaming (streaming_runner sys cfg) request ww started).0,
      )

  -- A streaming request whose process cannot be started sends no status and no body, which the
  -- server makes a response with status 200 and no body.
  pub streaming_handler-unstarted :
      (e : Error)
      → injected sys cfg r ≡ some env
      → child.start_error ≡ some e
      → (w' : Writer) × (lines : List LogLine) × (streaming_handler sys cfg w r ≡ some (w', lines))
        × (w'.sent ≡ w.sent)
        × (w'.body ≡ w.body)
  unfolding streaming_handler Streaming.run
  streaming_handler-unstarted e environment failed = (
    set_header w "Content-Type" cfg.content_type,
    streaming_lines request 0 (some e),
    rw (environment, streaming_handler) (rw (failed, Streaming.run)),
    refl,
    refl,
  )

  -- A streaming request whose environment can be made is answered with all that its process prints,
  -- in order; when the process cannot be started nothing is sent, no status and no body, which the
  -- server makes a response with status 200 and no body.
  pub streaming_handler-response :
      injected sys cfg r ≡ some env
      → (w' : Writer) × (lines : List LogLine) × (streaming_handler sys cfg w r ≡ some (w', lines))
        × (((child.start_error ≡ none) × (w'.body ≡ w.body ++ concat child.chunks))
            ⊎ ((child.start_error ≢ none) × (w'.sent ≡ w.sent) × (w'.body ≡ w.body)))
  streaming_handler-response environment = elim (Option-cases child.start_error) [
    | inl started ↦
        let (w', lines, served, body) = streaming_handler-body environment started in
        (w', lines, served, inl (started, body))
    | inr (e, failed) ↦
        let (w', lines, served, sent, body) = streaming_handler-unstarted e environment failed in
        (w', lines, served, inr (λ h. cc, sent, body))
  ]
