-- ===== src/Executor/Pipe/Blocking/Ends.antt =====
-- That no interleaving is stuck before pipeToProcess has returned.
use of_watchdog.Prelude.{
  List, Option, Option-cases, [], arith, false, inl, inr, none, refl, some, true, ℕ, ◌∙◌, ◌∷◌, ◌≡◌,
}
use of_watchdog.Go.Http.{Error}
use of_watchdog.Executor.Pipe.Blocking.{
  Program, exits, reads, prints, is_over, Writer, writing, closing, sending, sent, finished, Reader,
  reading, read_all, read_done, State, start, after, Step, write, written, break, close, send,
  collect, writer_done, take, end_of_input, put, read, read_end, reader_done, return, Runs, here,
  next,
}
use of_watchdog.Executor.Pipe.Blocking.Output.{output, Inv, Step-Inv, Runs-Inv}

-- A run on to a state in which the function has returned all of `total`.
abbrev pub Returns : ℕ → List ℕ → State → Type 0
Returns n total s =
    (t : State) × (errors : List Error) × Runs n s t × (t.returned ≡ some (total, errors))

Runs-cons : {n : ℕ} {s t u : State} → Step n s t → Runs n t u → Runs n s u
Runs-cons st here = next here st
Runs-cons st (next r st') = next (Runs-cons st r) st'

module _ (n : ℕ) (total : List ℕ) where
  -- What is left to show after a step.
  Returns-step :
      {s t : State}
      → Step n s t
      → Inv total s
      → (Inv total t → Returns n total t)
      → Returns n total s
  Returns-step st i k =
      let (u, errors, run, done) = k (Step-Inv st i) in (u, errors, Runs-cons st run, done)

  -- Both goroutines are past `wg.Done()`.
  Returns-both :
      (s : State) → s.writer ≡ finished → s.reader ≡ read_done → Inv total s → Returns n total s
  Returns-both s w r i = elim i.returned [
    | inl waiting ↦
        Returns-step (return w r waiting refl) i
          (λ j. elim j.returned [ inl still ↦ cc | inr (errors, done) ↦ (_, errors, here, done) ])
    | inr (errors, done) ↦ (s, errors, here, done)
  ]

  -- The bytes in the pipe of stdout can be read.
  Returns-read :
      (bs : List ℕ) (s : State)
      → s.stdout ≡ bs
      → s.reader ≡ reading
      → Inv total s
      → ((t : State)
          → t.stdout ≡ []
          → t.reader ≡ reading
          → t.child ≡ s.child
          → t.writer ≡ s.writer
          → Inv total t
          → Returns n total t)
      → Returns n total s
  Returns-read [] s full r i k = k s full r refl refl i
  Returns-read (b ∷ bs) s full r i k =
      Returns-step (read b bs r full refl) i (λ j. Returns-read bs _ refl r j k)

  Returns-reader :
      (r : Reader) (s : State)
      → s.reader ≡ r
      → s.writer ≡ finished
      → is_over s.child ≡ true
      → Inv total s
      → Returns n total s
  Returns-reader reading s now w over i =
      Returns-read s.stdout s refl now i (λ t empty r child writer j.
        Returns-step (read_end r empty (rw child over) refl) j
          (λ k. Returns-step (reader_done refl refl) k (λ l. Returns-both _ (rw writer w) refl l)))
  Returns-reader read_all s now w over i =
      Returns-step (reader_done now refl) i (λ j. Returns-both _ w refl j)
  Returns-reader read_done s now w over i = Returns-both s w now i

  -- The goroutine of stdin can go on when the process has exited.
  Returns-sent :
      (s : State) → s.writer ≡ sent → is_over s.child ≡ true → Inv total s → Returns n total s
  Returns-sent s now over i =
      Returns-step (writer_done now refl) i (Returns-reader s.reader _ refl refl over)

  Returns-sending :
      (e : Error) (s : State)
      → s.writer ≡ sending e
      → is_over s.child ≡ true
      → Inv total s
      → Returns n total s
  Returns-sending e s now over i = elim (Option-cases s.held) [
    | inl free ↦ Returns-step (send e now free refl) i (Returns-sent _ refl over)
    | inr (x, taken) ↦
        Returns-step (collect x taken refl) i
          (λ j. Returns-step (send e now refl refl) j (Returns-sent _ refl over))
  ]

  Returns-after :
      (o : Option Error) (s : State)
      → s.writer ≡ after o
      → is_over s.child ≡ true
      → Inv total s
      → Returns n total s
  Returns-after none s now over i = Returns-sent s now over i
  Returns-after (some e) s now over i = Returns-sending e s now over i

  Returns-closing :
      (o : Option Error) (s : State)
      → s.writer ≡ closing o
      → is_over s.child ≡ true
      → Inv total s
      → Returns n total s
  Returns-closing o s now over i = Returns-step (close o now refl) i (Returns-after o _ refl over)

  Returns-over :
      (w : Writer) (s : State)
      → s.writer ≡ w
      → is_over s.child ≡ true
      → Inv total s
      → Returns n total s
  Returns-over (writing []) s now over i =
      Returns-step (written now refl) i (Returns-closing none _ refl over)
  Returns-over (writing (b ∷ bs)) s now over i =
      Returns-step (break b bs "broken pipe" now over refl) i
        (Returns-closing (some "broken pipe") _ refl over)
  Returns-over (closing o) s now over i = Returns-closing o s now over i
  Returns-over (sending e) s now over i = Returns-sending e s now over i
  Returns-over sent s now over i = Returns-sent s now over i
  Returns-over finished s now over i = Returns-reader s.reader s refl now over i

  -- The goroutine of stdin lets a process read on that waits for a byte: it writes one, or closes.
  Returns-waiting :
      (k : Option ℕ → Program)
      → ((o : Option ℕ) (t : State) → t.child ≡ k o → Inv total t → Returns n total t)
      → (w : Writer) (s : State) → s.writer ≡ w
      → s.child ≡ reads k
      → s.stdin ≡ []
      → Inv total s
      → Returns n total s
  Returns-waiting k on (writing []) s now child empty i = Returns-step (written now refl) i (λ j.
      Returns-step (close none refl refl) j
        (λ l. Returns-step (end_of_input k child empty refl refl) l (on none _ refl)))
  Returns-waiting k on (writing (b ∷ bs)) s now child empty i =
      Returns-step (write b bs now (rw child) (rw empty (omega arith)) refl) i
        (λ j. Returns-step (take k b [] child (rw empty) refl) j (on (some b) _ refl))
  Returns-waiting k on (closing o) s now child empty i =
      Returns-step (close o now refl) i
        (λ l. Returns-step (end_of_input k child empty refl refl) l (on none _ refl))
  Returns-waiting k on (sending e) s now child empty i =
      Returns-step (end_of_input k child empty (ground (arith, i.opens)) refl) i (on none _ refl)
  Returns-waiting k on sent s now child empty i =
      Returns-step (end_of_input k child empty (ground (arith, i.opens)) refl) i (on none _ refl)
  Returns-waiting k on finished s now child empty i =
      Returns-step (end_of_input k child empty (ground (arith, i.opens)) refl) i (on none _ refl)

  Returns-reads :
      (k : Option ℕ → Program)
      → ((o : Option ℕ) (t : State) → t.child ≡ k o → Inv total t → Returns n total t)
      → (bs : List ℕ) (s : State) → s.stdin ≡ bs
      → s.child ≡ reads k
      → Inv total s
      → Returns n total s
  Returns-reads k on [] s empty child i = Returns-waiting k on s.writer s refl child empty i
  Returns-reads k on (b ∷ bs) s full child i =
      Returns-step (take k b bs child full refl) i (on (some b) _ refl)

  still_reading : (s : State) → is_over s.child ≡ false → Inv total s → s.reader ≡ reading
  still_reading s alive i = ground (arith, i.ended)

  -- Whatever the process does next, by induction on all that it does.
  Returns-child : (q : Program) (s : State) → s.child ≡ q → Inv total s → Returns n total s
  Returns-child exits s child i = Returns-over s.writer s refl (rw child) i
  Returns-child (reads k) s child i =
      Returns-reads k (λ o. Returns-child (k o)) s.stdin s refl child i
  Returns-child (prints b q) s child i =
      Returns-read s.stdout s refl (still_reading s (rw child) i) i (λ t empty r same w j.
        Returns-step (put b q (same ∙ child) (rw empty (omega arith)) refl) j
          (Returns-child q _ refl))

-- There is no deadlock on the pipes, whatever their capacity and the interleaving, for a process
-- that exits once its reads are answered, with the end of its input among the answers, and whose
-- output is read without an error: from every reachable state the goroutines and the process can run
-- on until pipeToProcess returns, and it then returns all that the process prints of the data.
pub returns :
    (n : ℕ) (q : Program) (bytes : List ℕ) (s : State)
    → Runs n (start q bytes) s
    → Returns n (output q bytes) s
returns n q bytes s run = Returns-child n (output q bytes) s.child s refl (Runs-Inv q bytes run)

-- Whatever the interleaving, what pipeToProcess returns is all that the process prints of the data.
pub Runs-output :
    (n : ℕ) (q : Program) (bytes result : List ℕ) (errors : List Error) (s : State)
    → Runs n (start q bytes) s
    → s.returned ≡ some (result, errors)
    → result ≡ output q bytes
Runs-output n q bytes result errors s run done = elim (Runs-Inv q bytes run).returned [
  | inl waiting ↦ cc
  | inr (others, all) ↦ cc
]
