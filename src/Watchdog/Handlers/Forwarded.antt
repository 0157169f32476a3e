-- ===== src/Watchdog/Handlers/Forwarded.antt =====
-- The responses of the HTTP mode, from the request of the client to the function and back.
use of_watchdog.Prelude.{
  List, Option, String, [], arith, code, false, none, not, or_else, refl, some, subst, sym, ℕ, ◌&&◌,
  ◌++◌, ◌<>◌, ◌∙◌, ◌≡◌,
}
use mathlib.Core.List.{append-nil}
use of_watchdog.Go.Http.{Error, Request, Writer, status, write, write_header}
use of_watchdog.Executor.Base.{LogLine}
use of_watchdog.Executor.HttpRunner.Headers.{requires_stdlib_proxy}
use of_watchdog.Executor.HttpRunner.Run
use of_watchdog.Executor.HttpRunner.Run.{Reply, replied, failed, Served, outgoing, url_of, Response}
use of_watchdog.Executor.HttpRunner.Run.Laws.{run-invalid, run-replied, run-failed}
use of_watchdog.Config.New.{WatchdogConfig}
use of_watchdog.Watchdog.Handlers.{System, http_handler, http_runner, answer_error}

-- What the client is meant to be answered: the status, and the bytes of the body, of the error of
-- making the forwarded request, if there is one, and of what the function replies.
abbrev pub meant : (Error → List ℕ) → Option Error → Reply → ℕ × List ℕ
meant encode (some e) reply = (500, encode ("HTTPFunctionRunner error: " <> e))
meant encode none (replied res) = (res.status_code, or_else res.body [])
meant encode none (failed err none) = (500, [])
meant encode none (failed err (some e)) = (504, [])

module _ (sys : System) (cfg : WatchdogConfig) (url : String) (w : Writer) (r : Request)
    (unsent : w.sent ≡ none) (plain : requires_stdlib_proxy r.header ≡ false)
    (readable : (cfg.buffer_http_body && not r.has_body) ≡ false) where
  -- The error of making the forwarded request, and what the function replies to it.
  abbrev pub invalid : Option Error
  invalid = sys.network.new_request_error r.method (url_of sys.network (http_runner sys cfg url) r)

  abbrev pub reply : Reply
  reply = sys.network.client_do (outgoing sys.network (http_runner sys cfg url) r)

  -- The response is the one that is meant.
  abbrev pub IsAnswered : Option Error → Reply → Type 0
  IsAnswered e answer =
      (w' : Writer) × (lines : List LogLine) × (http_handler sys cfg url w r ≡ some (w', lines))
      × (status w' ≡ some (meant sys.encode e answer).0)
      × (w'.body ≡ w.body ++ (meant sys.encode e answer).1)

  handled :
      {served : Served}
      → Run.run sys.network (http_runner sys cfg url) sys.seconds r w ≡ some served
      → http_handler sys cfg url w r ≡ some (answer_error sys cfg served)
  unfolding http_handler
  handled h = rw (h, http_handler) refl

  refused-IsAnswered : (e : Error) → invalid ≡ some e → IsAnswered (some e) reply
  unfolding write write_header
  refused-IsAnswered e h = (
    (answer_error sys cfg (w, [], some e)).0,
    (answer_error sys cfg (w, [], some e)).1,
    handled (run-invalid sys.network (http_runner sys cfg url) sys.seconds r w readable e h),
    ground arith,
    ground arith,
  )

  replied-IsAnswered :
      (res : Response) → invalid ≡ none → reply ≡ replied res → IsAnswered none (replied res)
  replied-IsAnswered res valid h =
      let (w', lines, served, sent, body) =
        run-replied sys.network (http_runner sys cfg url) sys.seconds r w readable res unsent valid
          plain h in
      (w', lines, handled served, rw sent, body)

  failed-IsAnswered :
      (err : Error) (ctx_err : Option Error)
      → invalid ≡ none
      → reply ≡ failed err ctx_err
      → IsAnswered none (failed err ctx_err)
  failed-IsAnswered err none valid h =
      let (w', lines, served, code, body) =
        run-failed sys.network (http_runner sys cfg url) sys.seconds r w readable err none unsent
          valid plain h in
      (w', lines, handled served, code, body ∙ sym (append-nil w.body))
  failed-IsAnswered err (some e) valid h =
      let (w', lines, served, code, body) =
        run-failed sys.network (http_runner sys cfg url) sys.seconds r w readable err (some e)
          unsent valid plain h in
      (w', lines, handled served, code, body ∙ sym (append-nil w.body))

  any-IsAnswered :
      (e : Option Error) (answer : Reply) → invalid ≡ e → reply ≡ answer → IsAnswered e answer
  any-IsAnswered (some e) answer h k = subst (IsAnswered (some e)) k (refused-IsAnswered e h)
  any-IsAnswered none (replied res) h k = replied-IsAnswered res h k
  any-IsAnswered none (failed err ctx_err) h k = failed-IsAnswered err ctx_err h k

  -- In the HTTP mode a request that does not go through the reverse proxy, whose body is there if
  -- bodies are buffered, and to which nothing was sent yet, is answered as it is meant to be: with
  -- the status and the body of the function's response; with status 504 or 500, and no body, when
  -- the function does not reply in time or at all; and with status 500 and the error when the
  -- request cannot be forwarded.
  pub http_handler-IsAnswered : IsAnswered invalid reply
  http_handler-IsAnswered = any-IsAnswered invalid reply refl refl
