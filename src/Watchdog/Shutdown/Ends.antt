-- ===== src/Watchdog/Shutdown/Ends.antt =====
-- That the shutdown comes to its end: no interleaving is stuck before the caller has returned.
use of_watchdog.Prelude.{
  Bool, Bool-cases, arith, false, inl, inr, is_positive, refl, suc, sym, true, zero, ℕ, ◌+◌, ◌<◌,
  ◌∙◌, ◌≡◌, ◌≢◌,
}
use of_watchdog.Watchdog.Shutdown.{
  Settings, Signal, listening, signalled, flagged, removed, draining, shutting, shut, closed,
  serving, State, Step, write_lock, accept, no_lock, stamp, return, receive, clear_flag,
  remove_fails, tick, shutdown, close, drained, leave, hang_up, init, Reach, here, next, returned,
}
use of_watchdog.Watchdog.Shutdown.Closing.{Closing, Step-Closing, Reach-Closing, Server-cases}
use of_watchdog.Watchdog.Shutdown.{Main, preparing, written, accepting, waiting, gave_up}

-- The caller has returned, with or without an error.
abbrev pub has_returned : Main → Bool
has_returned returned = true
has_returned gave_up = true
has_returned _ = false

-- A run on to a state in which the caller has returned, the server does not serve, the channel is
-- closed, once, and no request is in progress, without the time limit of the shutdown.
abbrev pub Ends : Settings → State → Type 0
Ends c s =
    (t : State) × Reach c s t
    × (has_returned t.main ≡ true)
    × (t.server ≢ serving)
    × (t.closes ≡ 1)
    × (t.active ≡ 0)
    × (t.hijacked ≡ 0)
    × (t.expired ≡ s.expired)

-- Neither the time limit nor a hijacked connection has changed.
abbrev Same : State → State → Type 0
Same t s = (t.expired ≡ s.expired) × (t.hijacked ≡ s.hijacked)

-- The same, of the requests on connections that were not hijacked.
abbrev Calm : Settings → State → Type 0
Calm c s =
    (t : State) × Reach c s t
    × (has_returned t.main ≡ true)
    × (t.server ≢ serving)
    × (t.closes ≡ 1)
    × (t.active ≡ 0)
    × Same t s

Reach-cons : {c : Settings} {s t u : State} → Step c s t → s.closes < 2 → Reach c t u → Reach c s u
Reach-cons st alive here = next here st alive
Reach-cons st alive (next reach st' alive') = next (Reach-cons st alive reach) st' alive'

Calm-cons :
    {c : Settings} {s t : State} → Step c s t → s.closes < 2 → Same t s → Calm c t → Calm c s
Calm-cons st alive in_time (u, reach, done, down, once, idle, same) =
    (u, Reach-cons st alive reach, done, down, once, idle, (same.0 ∙ in_time.0, same.1 ∙ in_time.1))

-- The channel is closed, and nothing but the caller has anything left to do.
record Over (s : State) : Type 0 where
  down : s.server ≢ serving
  once : s.closes ≡ 1
  idle : s.active ≡ 0

module _ (c : Settings) where
  Over-Calm :
      {s t : State}
      → Step c s t
      → t.server ≡ s.server
      → t.closes ≡ s.closes
      → t.active ≡ s.active
      → Same t s
      → (Over t → Calm c t)
      → Over s
      → Calm c s
  Over-Calm st server closes active in_time k o = Calm-cons st (omega (arith, o.once)) in_time (
      k (record {
        down = λ h. o.down (sym server ∙ h);
        once = closes ∙ o.once;
        idle = active ∙ o.idle;
      }))

  Calm-done : (s : State) → has_returned s.main ≡ true → Over s → Calm c s
  Calm-done s done o = (s, here, done, o.down, o.once, o.idle, (refl, refl))

  Calm-waiting : (s : State) → s.main ≡ waiting → Over s → Calm c s
  Calm-waiting s at o =
      Over-Calm (return at (omega (arith, o.once)) refl) refl refl refl (refl, refl)
        (Calm-done _ refl) o

  Calm-accepting : (s : State) → s.main ≡ accepting → Over s → Calm c s
  Calm-accepting s at =
      Over-Calm (stamp 0 at refl) refl refl refl (refl, refl) (Calm-waiting _ refl)

  Calm-written : (s : State) → s.main ≡ written → Over s → Calm c s
  Calm-written s at = Over-Calm (accept at refl) refl refl refl (refl, refl) (Calm-accepting _ refl)

  Calm-preparing : (s : State) → s.main ≡ preparing → Over s → Calm c s
  Calm-preparing s at o = elim (Bool-cases c.suppress_lock) [
    | inl suppressed ↦
        Over-Calm (no_lock suppressed at refl) refl refl refl (refl, refl) (Calm-accepting _ refl) o
    | inr locks ↦
        Over-Calm (write_lock locks at refl) refl refl refl (refl, refl) (Calm-written _ refl) o
  ]

  Over-closed : (s : State) (m : Main) → s.main ≡ m → Over s → Calm c s
  Over-closed s preparing at o = Calm-preparing s at o
  Over-closed s written at o = Calm-written s at o
  Over-closed s accepting at o = Calm-accepting s at o
  Over-closed s waiting at o = Calm-waiting s at o
  Over-closed s returned at o = Calm-done s (rw at) o
  Over-closed s gave_up at o = Calm-done s (rw at) o

-- A state that is alive, and in which no request is in progress.
record Idle (s : State) : Type 0 where
  closing : Closing s
  alive : s.closes < 2
  idle : s.active ≡ 0

module _ (c : Settings) (waits : is_positive c.healthcheck_interval ≡ true) where
  Idle-Calm :
      {s t : State}
      → Step c s t
      → t.closes ≡ s.closes
      → t.active ≡ s.active
      → Same t s
      → (Idle t → Calm c t)
      → Idle s
      → Calm c s
  Idle-Calm st closes active in_time k i = Calm-cons st i.alive in_time (
      k (record {
        closing = Step-Closing st i.closing;
        alive = omega (arith, closes, i.alive);
        idle = active ∙ i.idle;
      }))

  Calm-shut : (s : State) → s.signal ≡ shut → Idle s → Calm c s
  Calm-shut s at i = elim (Server-cases s.server) [
    | inl down ↦ Over-closed c s s.main refl (record {
      down = i.closing.shutting at;
      once = omega (arith, i.closing.by_server down, i.alive);
      idle = i.idle;
    })
    | inr up ↦
        let none_closed : s.closes ≡ 0 = i.closing.unclosed (ground (arith, at)) up in
        let st : Step c s (record s { signal = closed; closes = s.closes + 1 }) = close at refl in
        Calm-cons st i.alive (refl, refl)
          (Over-closed c _ s.main refl (record {
            down = i.closing.shutting at;
            once = omega (arith, none_closed);
            idle = i.idle;
          }))
  ]

  Calm-shutting : (s : State) → s.signal ≡ shutting → Idle s → Calm c s
  Calm-shutting s at i =
      Idle-Calm (drained at i.idle refl) refl refl (refl, refl) (Calm-shut _ refl) i

  Calm-draining : (s : State) → s.signal ≡ draining → Idle s → Calm c s
  Calm-draining s at = Idle-Calm (shutdown at refl) refl refl (refl, refl) (Calm-shutting _ refl)

  Calm-removed : (s : State) → s.signal ≡ removed → Idle s → Calm c s
  Calm-removed s at = Idle-Calm (tick waits at refl) refl refl (refl, refl) (Calm-draining _ refl)

  Calm-flagged : (s : State) → s.signal ≡ flagged → Idle s → Calm c s
  Calm-flagged s at = Idle-Calm (remove_fails at refl) refl refl (refl, refl) (Calm-removed _ refl)

  Calm-signalled : (s : State) → s.signal ≡ signalled → Idle s → Calm c s
  Calm-signalled s at = Idle-Calm (clear_flag at refl) refl refl (refl, refl) (Calm-flagged _ refl)

  Calm-listening : (s : State) → s.signal ≡ listening → Idle s → Calm c s
  Calm-listening s at = Idle-Calm (receive at refl) refl refl (refl, refl) (Calm-signalled _ refl)

  Calm-any : (s : State) (g : Signal) → s.signal ≡ g → Idle s → Calm c s
  Calm-any s listening at i = Calm-listening s at i
  Calm-any s signalled at i = Calm-signalled s at i
  Calm-any s flagged at i = Calm-flagged s at i
  Calm-any s removed at i = Calm-removed s at i
  Calm-any s draining at i = Calm-draining s at i
  Calm-any s shutting at i = Calm-shutting s at i
  Calm-any s shut at i = Calm-shut s at i
  Calm-any s closed at i = Over-closed c s s.main refl (record {
    down = i.closing.over at;
    once = omega (arith, i.closing.by_signal at, i.alive);
    idle = i.idle;
  })

  -- The requests in progress can end first.
  Closing-Calm : (n : ℕ) (s : State) → s.active ≡ n → Closing s → s.closes < 2 → Calm c s
  Closing-Calm zero s none_active i alive =
      Calm-any s s.signal refl (record { closing = i; alive = alive; idle = none_active })
  Closing-Calm (suc n) s some_active i alive =
      let st : Step c s (record s { active = n }) = leave n (omega (arith, some_active)) refl in
      Calm-cons st alive (refl, refl) (Closing-Calm n _ refl (Step-Closing st i) alive)

  -- So can those on hijacked connections.
  Closing-Ends : (n : ℕ) (s : State) → s.hijacked ≡ n → Closing s → s.closes < 2 → Ends c s
  Closing-Ends zero s none_hijacked i alive =
      let (t, reach, done, down, once, idle, (in_time, same)) =
        Closing-Calm s.active s refl i alive in
      (t, reach, done, down, once, idle, same ∙ none_hijacked, in_time)
  Closing-Ends (suc n) s some_hijacked i alive =
      let st : Step c s (record s { hijacked = n }) =
        hang_up n (omega (arith, some_hijacked)) refl in
      let (t, reach, done, down, once, idle, calm, in_time) =
        Closing-Ends n _ refl (Step-Closing st i) alive in
      (t, Reach-cons st alive reach, done, down, once, idle, calm, in_time)

-- With a healthcheck interval of more than 0 the shutdown is never stuck: from every reachable state
-- in which the channel that the caller waits for has not been closed twice, the goroutines can run
-- on, once the signal comes and the requests in progress end, until the caller has returned, the
-- server does not serve, no request is in progress and the channel is closed, once, without the time
-- limit of the shutdown.
pub Reach-Ends :
    (c : Settings) (lock_file readable : Bool) (s : State)
    → is_positive c.healthcheck_interval ≡ true
    → Reach c (init lock_file readable) s
    → s.closes < 2
    → Ends c s
Reach-Ends c lock_file readable s waits reach alive =
    Closing-Ends c waits s.hijacked s refl (Reach-Closing lock_file readable reach) alive
