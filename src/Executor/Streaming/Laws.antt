-- ===== src/Executor/Streaming/Laws.antt =====
-- What the client receives of a process's output.
use of_watchdog.Prelude.{
  ==_iff, List, Option, [], length, none, refl, some, sym, true, ℕ, ◌++◌, ◌==◌, ◌∷◌, ◌≡◌,
}
use mathlib.Core.List.{append_assoc, append-nil}
use of_watchdog.Go.Http.{Error}
use of_watchdog.Executor.Base.{Input, FunctionRequest, Command, or_error}
use of_watchdog.Executor.Streaming.{StreamingFunctionRunner, Process, IoWriter, copy, run, command}

-- The chunks as one text.
abbrev pub concat : List (List ℕ) → List ℕ
concat [] = []
concat (p ∷ ps) = p ++ concat ps

-- A writer that takes all that it is given, seen through what it has taken.
abbrev pub TakesAll : {S : Type 0} → IoWriter S → (S → List ℕ) → Type 0
TakesAll {S} write taken =
    (s : S) (p : List ℕ)
    → (taken (write s p).0 ≡ taken s ++ p) × ((write s p).1 ≡ length p) × ((write s p).2 ≡ none)

or_error-none : (e : Option Error) → or_error e none ≡ e
or_error-none none = refl
or_error-none (some e) = refl

module _ {S : Type 0} (write : IoWriter S) (taken : S → List ℕ) (all : TakesAll write taken) where
  copy_all :
      (s : S) (ps : List (List ℕ))
      → (taken (copy write s ps).0 ≡ taken s ++ concat ps) × ((copy write s ps).1 ≡ none)
  unfolding copy
  copy_all s [] = (sym (append-nil (taken s)), refl)
  copy_all s (p ∷ ps) =
      let (t, n, e) = all s p in
      let same : ((write s p).1 == length p) ≡ true = (==_iff _ _).1 n in
      let (t', e') = copy_all (write s p).0 ps in
      (
        rw (e, copy) (rw (same, t', t) (append_assoc (taken s) p (concat ps))),
        rw (e, copy) (rw (same, e')),
      )

  -- Into a writer that takes all that it is given goes the whole output of a process that is
  -- started, in order, and the error is the one with which the process ends.
  pub run_all :
      (exec : Command → Option Input → Process) (f : StreamingFunctionRunner)
      (req : FunctionRequest) (s : S)
      → (exec (command write exec f req) req.input_reader).start_error ≡ none
      → (taken (run write exec f req s).0
          ≡ taken s ++ concat (exec (command write exec f req) req.input_reader).chunks)
        × ((run write exec f req s).1
            ≡ (exec (command write exec f req) req.input_reader).exit_error)
  unfolding run
  run_all exec f req s started =
      let p = exec (command write exec f req) req.input_reader in
      let (t, e) = copy_all s p.chunks in
      (rw (started, run) t, rw (started, run) (rw e (or_error-none p.exit_error)))
