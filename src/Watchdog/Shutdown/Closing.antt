-- ===== src/Watchdog/Shutdown/Closing.antt =====
-- Which goroutine closes the channel, and when.
use of_watchdog.Prelude.{Bool, arith, inl, inr, refl, ◌<◌, ◌≡◌, ◌≢◌, ◌⊎◌}
use of_watchdog.Watchdog.Shutdown.{
  Settings, shutting, shut, closed, Server, serving, stopped, failed, stop, State, Step, write_lock,
  lock_fails, accept, no_lock, stamp, return, receive, clear_flag, remove, remove_fails, tick,
  shutdown, close, server_fails, drained, expire, arrive, leave, hijack, hang_up, init, Reach, here,
  next,
}

-- Which of the two goroutines have closed the channel.
pub record Closing (s : State) : Type 0 where
  pub by_signal : s.signal ≡ closed → 0 < s.closes
  pub by_server : s.server ≡ failed → 0 < s.closes
  pub unclosed : s.signal ≢ closed → s.server ≢ failed → s.closes ≡ 0
  pub stopping : s.signal ≡ shutting → s.server ≢ serving
  pub shutting : s.signal ≡ shut → s.server ≢ serving
  pub over : s.signal ≡ closed → s.server ≢ serving

pub stop-≢ : (v : Server) → stop v ≢ serving
stop-≢ serving h = cc
stop-≢ stopped h = cc
stop-≢ failed h = cc

stop-failed : (v : Server) → stop v ≡ failed → v ≡ failed
stop-failed serving h = cc
stop-failed stopped h = cc
stop-failed failed h = refl

stop-open : (v : Server) → stop v ≢ failed → v ≢ failed
stop-open failed h k = h refl
stop-open serving h k = cc
stop-open stopped h k = cc

pub Step-Closing : {c : Settings} {s t : State} → Step c s t → Closing s → Closing t
Step-Closing (write_lock k at e) i = ground arith
Step-Closing (lock_fails k at e) i = ground arith
Step-Closing (accept at e) i = ground arith
Step-Closing (no_lock k at e) i = ground arith
Step-Closing (stamp now at e) i = ground arith
Step-Closing (return at c e) i = ground arith
Step-Closing (receive at e) i = ground arith
Step-Closing (clear_flag at e) i = ground arith
Step-Closing (remove at e) i = ground arith
Step-Closing (remove_fails at e) i = ground arith
Step-Closing (tick k at e) i = ground arith
Step-Closing {s = s} (shutdown at e) i = ground (
  arith,
  i.by_signal,
  i.by_server,
  i.unclosed,
  i.stopping,
  i.shutting,
  i.over,
  stop-≢ s.server,
  stop-failed s.server,
  stop-open s.server,
)
Step-Closing (close at e) i = ground arith
Step-Closing (server_fails at e) i = ground arith
Step-Closing (drained at z e) i = ground arith
Step-Closing (expire at e) i = ground arith
Step-Closing (arrive at e) i = ground arith
Step-Closing (leave n k e) i = ground arith
Step-Closing (hijack n k e) i = ground arith
Step-Closing (hang_up n k e) i = ground arith

pub Reach-Closing : {c : Settings} (l r : Bool) {s : State} → Reach c (init l r) s → Closing s
Reach-Closing l r here = ground arith
Reach-Closing l r (next reach st alive) = Step-Closing st (Reach-Closing l r reach)

pub Server-cases : (v : Server) → (v ≡ failed) ⊎ (v ≢ failed)
Server-cases serving = inr (λ h. cc)
Server-cases stopped = inr (λ h. cc)
Server-cases failed = inl refl
