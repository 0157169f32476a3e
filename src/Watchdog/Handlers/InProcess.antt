-- ===== src/Watchdog/Handlers/InProcess.antt =====
-- The inproc mode: the function is a handler in the watchdog's own process.
use of_watchdog.Prelude.{
  Bool, List, Option-cases, [], false, if◌then◌else◌, inl, inr, none, pos, refl, some, true, ℕ, ◌∷◌,
  ◌≡◌, ◌⊎◌,
}
use of_watchdog.Go.Http.{Request, Writer, user_agent}
use of_watchdog.Config.New.{WatchdogConfig, HandlerFunc}
use of_watchdog.Executor.Base.{LogLine, access, access_call, is_probe}
use of_watchdog.Executor.Inproc
use of_watchdog.Executor.Inproc.{Intercept, call_id}
use of_watchdog.Watchdog.Handlers.{System, inproc_handler}

-- What the handler writes to the interceptor reaches the writer behind it.
abbrev pub IsTransparent : Intercept → Type 0
IsTransparent intercept =
    (f : Writer → Request → Writer) (w : Writer) (r : Request) → (intercept f w r).0 ≡ f w r

module _ (sys : System) (cfg : WatchdogConfig) (w : Writer) (r : Request) where
  -- What the interceptor shows of the function: the writer, the status and the number of bytes.
  abbrev pub seen : HandlerFunc → Writer × ℕ × ℕ
  seen f = sys.intercept (f (some cfg.exec_timeout)) w r

  -- The lines that are logged of a status and a number of bytes: none for the probes of the kubelet,
  -- and otherwise one, with the request's call id if that is switched on.
  abbrev pub IsLogged : Bool → Bool → ℕ → ℕ → List LogLine → Type 0
  IsLogged true _ status bytes lines = lines ≡ []
  IsLogged false true status bytes lines =
      lines ≡ access_call r.method r.request_uri status (pos bytes) (call_id r) ∷ []
  IsLogged false false status bytes lines =
      lines ≡ access r.method r.request_uri status (pos bytes) ∷ []

  IsLogged-lines :
      (probe with_id : Bool) (status bytes : ℕ)
      → IsLogged probe with_id status bytes (
          if probe
          then []
          else (if with_id
              then access_call r.method r.request_uri status (pos bytes) (call_id r)
              else access r.method r.request_uri status (pos bytes))
            ∷ [])
  IsLogged-lines true with_id status bytes = refl
  IsLogged-lines false true status bytes = refl
  IsLogged-lines false false status bytes = refl

  -- In the inproc mode the client gets what the function makes of the request, in a context that
  -- ends after exec_timeout, also where that is 0 or less, and one line is logged, with the status
  -- and the bytes that the interceptor has seen, and with the request's call id if that is switched
  -- on; the probes of the kubelet are not logged. Without a function the handler panics.
  pub inproc_handler-response :
      IsTransparent sys.intercept
      → ((cfg.handler ≡ none) × (inproc_handler sys cfg w r ≡ none))
        ⊎ ((f : HandlerFunc) × (lines : List LogLine) × (cfg.handler ≡ some f)
            × (inproc_handler sys cfg w r ≡ some (f (some cfg.exec_timeout) w r, lines))
            × IsLogged (is_probe (user_agent r)) cfg.log_call_id (seen f).1 (seen f).2 lines)
  unfolding inproc_handler Inproc.run
  inproc_handler-response transparent = elim (Option-cases cfg.handler) [
    | inl missing ↦ inl (missing, rw missing refl)
    | inr (f, given) ↦ inr (
      f,
      _,
      given,
      rw (given, inproc_handler, transparent (f (some cfg.exec_timeout)) w r) refl,
      IsLogged-lines (is_probe (user_agent r)) cfg.log_call_id (seen f).1 (seen f).2,
    )
  ]
