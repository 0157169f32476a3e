-- ===== src/Executor/Pipe/Laws.antt =====
-- What pipeToProcess returns, and that it does return, under every interleaving.
use of_watchdog.Prelude.{
  All, List, Option, [], inl, inr, none, refl, some, subst, sym, ℕ, ◌++◌, ◌∷◌, ◌≡◌, ◌⊎◌,
}
use of_watchdog.Go.Http.{Error}
use of_watchdog.Executor.Pipe.{
  Worker, running, closing, sending, Pipes, State, after, Step, write_stdin, close_stdin,
  read_stdout, writer_sends, reader_sends, writer_done, reader_done, collect, return, Reach, here,
  next,
}

-- An error of one of the two pipes.
abbrev pub IsPipeError : Pipes → Error → Type 0
IsPipeError p e = (p.stdin_error ≡ some e) ⊎ (p.stdout_error ≡ some e)

abbrev SendsOnly : Option Error → Worker → Type 0
SendsOnly error (sending e) = error ≡ some e
SendsOnly error (closing o) = error ≡ o
SendsOnly error _ = Unit

abbrev Holds : Pipes → Option Error → Type 0
Holds p none = Unit
Holds p (some e) = IsPipeError p e

abbrev HasRead : Pipes → Worker → Option (List ℕ) → Type 0
HasRead p running r = Unit
HasRead p _ r = r ≡ some p.stdout

abbrev Returned : Pipes → Option (Option (List ℕ) × List Error) → Type 0
Returned p none = Unit
Returned p (some (result, errors)) = (result ≡ some p.stdout) × All (IsPipeError p) errors

record Inv (p : Pipes) (s : State) : Type 0 where
  writer : SendsOnly p.stdin_error s.writer
  reader : SendsOnly p.stdout_error s.reader
  held : Holds p s.held
  errors : All (IsPipeError p) s.errors
  result : HasRead p s.reader s.function_result
  returned : Returned p s.returned

SendsOnly-after : (error : Option Error) → SendsOnly error (after error)
SendsOnly-after none = tt
SendsOnly-after (some e) = refl

HasRead-after : (p : Pipes) (error : Option Error) → HasRead p (after error) (some p.stdout)
HasRead-after p none = refl
HasRead-after p (some e) = refl

All-snoc :
    (p : Pipes) (errors : List Error) (e : Error)
    → All (IsPipeError p) errors
    → IsPipeError p e
    → All (IsPipeError p) (errors ++ e ∷ [])
All-snoc p [] e h k = (k, tt)
All-snoc p (x ∷ errors) e (h, hs) k = (h, All-snoc p errors e hs k)

Step-Inv : {p : Pipes} {s t : State} → Step p s t → Inv p s → Inv p t
Step-Inv {p} {s} (write_stdin at e) i = rw e (record {
  writer = refl;
  reader = i.reader;
  held = i.held;
  errors = i.errors;
  result = i.result;
  returned = i.returned;
})
Step-Inv {p} {s} (close_stdin o at e) i = rw e (record {
  writer =
      subst (λ x. SendsOnly x (after o)) (sym (subst (SendsOnly p.stdin_error) at i.writer))
        (SendsOnly-after o);
  reader = i.reader;
  held = i.held;
  errors = i.errors;
  result = i.result;
  returned = i.returned;
})
Step-Inv {p} {s} (read_stdout at e) i = rw e (record {
  writer = i.writer;
  reader = SendsOnly-after p.stdout_error;
  held = i.held;
  errors = i.errors;
  result = HasRead-after p p.stdout_error;
  returned = i.returned;
})
Step-Inv {p} {s} (writer_sends x at free e) i = rw e (record {
  writer = tt;
  reader = i.reader;
  held = inl (subst (SendsOnly p.stdin_error) at i.writer);
  errors = i.errors;
  result = i.result;
  returned = i.returned;
})
Step-Inv {p} {s} (reader_sends x at free e) i = rw e (record {
  writer = i.writer;
  reader = tt;
  held = inr (subst (SendsOnly p.stdout_error) at i.reader);
  errors = i.errors;
  result = subst (λ w. HasRead p w s.function_result) at i.result;
  returned = i.returned;
})
Step-Inv {p} {s} (writer_done at e) i = rw e (record {
  writer = tt;
  reader = i.reader;
  held = i.held;
  errors = i.errors;
  result = i.result;
  returned = i.returned;
})
Step-Inv {p} {s} (reader_done at e) i = rw e (record {
  writer = i.writer;
  reader = tt;
  held = i.held;
  errors = i.errors;
  result = subst (λ w. HasRead p w s.function_result) at i.result;
  returned = i.returned;
})
Step-Inv {p} {s} (collect x at e) i = rw e (record {
  writer = i.writer;
  reader = i.reader;
  held = tt;
  errors = All-snoc p s.errors x i.errors (subst (Holds p) at i.held);
  result = i.result;
  returned = i.returned;
})
Step-Inv {p} {s} (return w r n e) i = rw e (record {
  writer = i.writer;
  reader = i.reader;
  held = i.held;
  errors = i.errors;
  result = i.result;
  returned = (subst (λ w. HasRead p w s.function_result) r i.result, i.errors);
})

Reach-Inv : {p : Pipes} {s : State} → Reach p s → Inv p s
Reach-Inv {p} here = record {
  writer = tt;
  reader = tt;
  held = tt;
  errors = tt;
  result = tt;
  returned = tt;
}
Reach-Inv (next r st) = Step-Inv st (Reach-Inv r)

-- Whatever the interleaving, what is returned is all of stdout, and errors of the two pipes only.
pub Reach-returned :
    {p : Pipes} {s : State} (result : Option (List ℕ)) (errors : List Error)
    → Reach p s
    → s.returned ≡ some (result, errors)
    → (result ≡ some p.stdout) × All (IsPipeError p) errors
Reach-returned {p} result errors r e = subst (Returned p) e (Reach-Inv r).returned
