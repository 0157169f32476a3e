-- ===== src/Watchdog/Child/Laws.antt =====
-- What the process of the HTTP mode can do to the watchdog, and what it cannot.
use of_watchdog.Prelude.{
  Bool, Bool-cases, Option, arith, false, inl, inr, none, refl, some, true, ◌≡◌, ◌⊎◌,
}
use of_watchdog.Go.Http.{Error}
use of_watchdog.Watchdog.Shutdown
use of_watchdog.Watchdog.Child.{
  exited, State, init, Step, terminate, serve, forward, forward_panics, child_exits, fatal, Reach,
  here, next,
}

record Inv (s : State) : Type 0 where
  ended : (s.alive ≡ true) ⊎ ((e : Error) × (s.child ≡ exited (some e)))
  passed : s.forwarded ≡ true → s.terminated ≡ true
  quiet : s.terminated ≡ false → s.shutdown.signal ≡ Shutdown.listening
  unstarted : s.started ≡ false → (e : Error) × (s.child ≡ exited (some e))

Step-Inv : {c : Shutdown.Settings} {s t : State} → Step c s t → s.alive ≡ true → Inv s → Inv t
Step-Inv (terminate e) alive i = record {
  ended = inl (rw e alive);
  passed = ground arith;
  quiet = ground arith;
  unstarted = rw e i.unstarted;
}
Step-Inv (serve u st (inl k) e) alive i = record {
  ended = inl (rw e alive);
  passed = ground (arith, i.passed);
  quiet = ground arith;
  unstarted = rw e i.unstarted;
}
Step-Inv (serve u st (inr k) e) alive i = record {
  ended = inl (rw e alive);
  passed = ground (arith, i.passed);
  quiet = ground arith;
  unstarted = rw e i.unstarted;
}
Step-Inv (forward k f on e) alive i = record {
  ended = inl (rw e alive);
  passed = ground arith;
  quiet = ground (arith, i.quiet);
  unstarted = rw e i.unstarted;
}
Step-Inv (forward_panics k off e) alive i = record {
  ended = inr (rw e (i.unstarted off));
  passed = ground (arith, i.passed);
  quiet = ground (arith, i.quiet);
  unstarted = rw e i.unstarted;
}
Step-Inv (child_exits x k e) alive i = record {
  ended = inl (rw e alive);
  passed = ground (arith, i.passed);
  quiet = ground (arith, i.quiet);
  unstarted = λ off. let (x', same) = i.unstarted (rw e at off) in cc;
}
Step-Inv (fatal x k e) alive i = record {
  ended = inr (x, rw e k);
  passed = ground (arith, i.passed);
  quiet = ground (arith, i.quiet);
  unstarted = rw e i.unstarted;
}

unstarted-init :
    (start_error : Option Error) (l r : Bool)
    → (init start_error l r).started ≡ false
    → (e : Error) × ((init start_error l r).child ≡ exited (some e))
unstarted-init none l r h = cc
unstarted-init (some e) l r h = ("exec: not started", refl)

Reach-Inv :
    {c : Shutdown.Settings} (start_error : Option Error) (l r : Bool) {s : State}
    → Reach c (init start_error l r) s
    → Inv s
Reach-Inv o l r here = record {
  ended = inl refl;
  passed = λ h. cc;
  quiet = λ h. refl;
  unstarted = unstarted-init o l r;
}
Reach-Inv o l r (next reach st alive one) = Step-Inv st alive (Reach-Inv o l r reach)

-- The process ends the watchdog only by ending with an error, which one that cannot be started does;
-- SIGTERM is passed on to it, and the shutdown begun, only once the watchdog was sent it.
pub ended_only_by_error :
    (c : Shutdown.Settings) (start_error : Option Error) (lock_file readable : Bool) (s : State)
    → Reach c (init start_error lock_file readable) s
    → ((s.alive ≡ true) ⊎ ((e : Error) × (s.child ≡ exited (some e))))
      × ((s.terminated ≡ true) ⊎ ((s.forwarded ≡ false) × (s.shutdown.signal ≡ Shutdown.listening)))
ended_only_by_error c o l r s reach =
    let i = Reach-Inv o l r reach in
    (
      i.ended,
      elim (Bool-cases s.terminated) [
        | inl sent ↦ inl sent
        | inr unsent ↦ inr (ground (arith, i.passed), i.quiet unsent)
      ],
    )
