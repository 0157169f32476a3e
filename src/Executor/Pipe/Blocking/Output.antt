-- ===== src/Executor/Pipe/Blocking/Output.antt =====
-- That pipeToProcess returns what the process prints of its input, whatever the interleaving.
use of_watchdog.Prelude.{
  Bool, List, Option, [], ap, arith, false, inl, inr, none, refl, some, sym, true, ℕ, ◌++◌, ◌∙◌,
  ◌∷◌, ◌≡◌, ◌≢◌, ◌⊎◌,
}
use mathlib.Core.List.{append_assoc, append-nil}
use of_watchdog.Go.Http.{Error}
use of_watchdog.Executor.Pipe.Blocking.{
  Program, exits, reads, prints, is_over, Writer, writing, closing, sending, sent, finished,
  reading, read_done, State, start, after, Step, write, written, break, close, send, collect,
  writer_done, take, end_of_input, put, read, read_end, reader_done, return, Runs, here, next,
}

-- What a process prints that is given these bytes and then the end of its input.
abbrev pub output : Program → List ℕ → List ℕ
output exits bytes = []
output (reads k) [] = output (k none) []
output (reads k) (b ∷ bs) = output (k (some b)) bs
output (prints b q) bytes = b ∷ output q bytes

-- What is left to write.
abbrev pub rest : Writer → List ℕ
rest (writing bs) = bs
rest _ = []

-- The goroutine of stdin has not closed it yet.
abbrev pub is_open : Writer → Bool
is_open (writing bs) = true
is_open (closing o) = true
is_open _ = false

output-over : (q : Program) (bytes : List ℕ) → is_over q ≡ true → output q bytes ≡ []
output-over exits bytes h = refl
output-over (reads k) bytes h = cc
output-over (prints b q) bytes h = cc

rest-closed : (w : Writer) → is_open w ≡ false → rest w ≡ []
rest-closed (writing bs) h = cc
rest-closed (closing o) h = refl
rest-closed (sending e) h = refl
rest-closed sent h = refl
rest-closed finished h = refl

-- What is read, in the pipe, and yet to be printed.
abbrev pub all_of : State → List ℕ
all_of s = s.result ++ (s.stdout ++ output s.child (s.stdin ++ rest s.writer))

pub record Inv (total : List ℕ) (s : State) : Type 0 where
  pub all : all_of s ≡ total
  pub closes : s.stdin_closed ≡ true → is_open s.writer ≡ false
  pub opens : s.stdin_closed ≡ false → is_open s.writer ≡ true
  pub ended : (s.reader ≡ reading) ⊎ ((s.stdout ≡ []) × (is_over s.child ≡ true))
  pub returned : (s.returned ≡ none) ⊎ ((errors : List Error) × (s.returned ≡ some (total, errors)))

rest-after : (o : Option Error) → rest (after o) ≡ []
rest-after none = refl
rest-after (some e) = refl

is_open-after : (o : Option Error) → is_open (after o) ≡ false
is_open-after none = refl
is_open-after (some e) = refl

-- A process that has exited prints nothing of what it is given.
all-over :
    {total : List ℕ} (s : State) (bytes : List ℕ)
    → is_over s.child ≡ true
    → all_of s ≡ total
    → s.result ++ (s.stdout ++ output s.child bytes) ≡ total
all-over s bytes over h =
    rw (output-over s.child bytes over)
      (rw (output-over s.child (s.stdin ++ rest s.writer) over) at h)

-- Once ReadAll has returned, it has read everything.
result-all : {total : List ℕ} (s : State) → s.reader ≢ reading → Inv total s → s.result ≡ total
result-all s past i = elim i.ended [
  | inl now ↦ absurd (past now)
  | inr (empty, over) ↦
      sym (append-nil s.result)
      ∙ rw (empty, output-over s.child (s.stdin ++ rest s.writer) over) at i.all
]

returns-all :
    {total : List ℕ} (s : State)
    → s.reader ≡ read_done
    → Inv total s
    → ◌≡◌ {A = Option (List ℕ × List Error)} (some (s.result, s.errors)) (some (total, s.errors))
returns-all s past i = ap (λ r. some (r, s.errors)) (result-all s (ground (arith, past)) i)

pub Step-Inv : {n : ℕ} {total : List ℕ} {s t : State} → Step n s t → Inv total s → Inv total t
Step-Inv {s = s} (write b bs now up room e) i = record {
  all = rw e (rw (append_assoc s.stdin (b ∷ []) bs) (rw now at i.all));
  closes = ground (arith, i.closes);
  opens = ground (arith, i.opens);
  ended = ground (arith, i.ended);
  returned = rw e i.returned;
}
Step-Inv {s = s} (written now e) i = record {
  all = rw e (rw now at i.all);
  closes = ground (arith, i.closes);
  opens = ground (arith, i.opens);
  ended = ground (arith, i.ended);
  returned = rw e i.returned;
}
Step-Inv {s = s} (break b bs x now over e) i = record {
  all = rw e (all-over s _ over i.all);
  closes = ground (arith, i.closes);
  opens = ground (arith, i.opens);
  ended = ground (arith, i.ended);
  returned = rw e i.returned;
}
Step-Inv {s = s} (close o now e) i = record {
  all = rw e (rw (rest-after o) (rw now at i.all));
  closes = rw e (λ h. is_open-after o);
  opens = rw e (λ h. cc);
  ended = ground (arith, i.ended);
  returned = rw e i.returned;
}
Step-Inv {s = s} (send x now free e) i = record {
  all = rw e (rw now at i.all);
  closes = ground (arith, i.closes);
  opens = ground (arith, i.opens);
  ended = ground (arith, i.ended);
  returned = rw e i.returned;
}
Step-Inv {s = s} (collect x now e) i = record {
  all = rw e (i.all);
  closes = ground (arith, i.closes);
  opens = ground (arith, i.opens);
  ended = ground (arith, i.ended);
  returned = rw e i.returned;
}
Step-Inv {s = s} (writer_done now e) i = record {
  all = rw e (rw now at i.all);
  closes = ground (arith, i.closes);
  opens = ground (arith, i.opens);
  ended = ground (arith, i.ended);
  returned = rw e i.returned;
}
Step-Inv {s = s} (take k b bs now full e) i = record {
  all = rw e (rw (now, full) at i.all);
  closes = ground (arith, i.closes);
  opens = ground (arith, i.opens);
  ended = ground (arith, i.ended);
  returned = rw e i.returned;
}
Step-Inv {s = s} (end_of_input k now empty closed e) i = record {
  all = rw e (
      let none_left = rest-closed s.writer (i.closes closed) in
      rw (empty, none_left) (rw (now, empty, none_left) at i.all));
  closes = ground (arith, i.closes);
  opens = ground (arith, i.opens);
  ended = ground (arith, i.ended);
  returned = rw e i.returned;
}
Step-Inv {s = s} (put b q now room e) i = record {
  all =
      rw e (
        rw (append_assoc s.stdout (b ∷ []) (output q (s.stdin ++ rest s.writer)))
          (rw now at i.all));
  closes = ground (arith, i.closes);
  opens = ground (arith, i.opens);
  ended = ground (arith, i.ended);
  returned = rw e i.returned;
}
Step-Inv {s = s} (read b bs now full e) i = record {
  all = rw e (
      rw (append_assoc s.result (b ∷ []) (bs ++ output s.child (s.stdin ++ rest s.writer)))
        (rw full at i.all));
  closes = ground (arith, i.closes);
  opens = ground (arith, i.opens);
  ended = ground (arith, i.ended);
  returned = rw e i.returned;
}
Step-Inv {s = s} (read_end now empty over e) i = record {
  all = rw e (i.all);
  closes = ground (arith, i.closes);
  opens = ground (arith, i.opens);
  ended = rw e (inr (empty, over));
  returned = rw e i.returned;
}
Step-Inv {s = s} (reader_done now e) i = record {
  all = rw e (i.all);
  closes = ground (arith, i.closes);
  opens = ground (arith, i.opens);
  ended = ground (arith, i.ended);
  returned = rw e i.returned;
}
Step-Inv {s = s} (return w r free e) i = record {
  all = rw e (i.all);
  closes = ground (arith, i.closes);
  opens = ground (arith, i.opens);
  ended = ground (arith, i.ended);
  returned = rw e (inr (s.errors, returns-all s r i));
}

pub Runs-Inv :
    {n : ℕ} (q : Program) (bytes : List ℕ) {s : State}
    → Runs n (start q bytes) s
    → Inv (output q bytes) s
Runs-Inv q bytes here = record {
  all = refl;
  closes = λ h. cc;
  opens = λ h. refl;
  ended = inl refl;
  returned = inl refl;
}
Runs-Inv q bytes (next r st) = Step-Inv st (Runs-Inv q bytes r)
