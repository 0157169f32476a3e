-- ===== src/Executor/Pipe/Blocking.antt =====
-- executor/serializing_fork_runner.go, pipeToProcess, with the two pipes and the process at their
-- other ends: what the calls of the goroutines wait for.
pub mod Ends
pub mod Output
use of_watchdog.Prelude.{
  Bool, List, Option, [], false, length, none, some, true, ℕ, ◌++◌, ◌∷◌, ◌≡◌, ◌≤◌,
}
use of_watchdog.Go.Http.{Error}

-- A process, by what it does next: it exits, it reads a byte of its stdin and goes on with it, or
-- with nothing at the end of its input, or it prints a byte. It stops by itself if every read is
-- answered.
pub data Program : Type 0 where
  exits : Program
  reads : (Option ℕ → Program) → Program
  prints : ℕ → Program → Program

abbrev pub is_over : Program → Bool
is_over exits = true
is_over _ = false

-- The goroutine of stdin, with what is left to write; then it closes stdin, sends an error if there
-- is one, and is past `wg.Done()`.
pub data Writer : Type 0 where
  writing : List ℕ → Writer
  closing : Option Error → Writer
  sending : Error → Writer
  sent : Writer
  finished : Writer

-- The goroutine of stdout. Reading is taken not to fail: it ends at the end of the output.
pub data Reader : Type 0 where
  reading : Reader
  read_all : Reader
  read_done : Reader

-- `stdin` and `stdout` are the bytes in the pipes, `result` what ReadAll has read, and `held` the
-- error that the collector has received and not yet appended.
pub record State : Type 0 where
  pub writer : Writer
  pub reader : Reader
  pub child : Program
  pub stdin : List ℕ
  pub stdin_closed : Bool
  pub stdout : List ℕ
  pub result : List ℕ
  pub held : Option Error
  pub errors : List Error
  pub returned : Option (List ℕ × List Error)

abbrev pub start : Program → List ℕ → State
start q bytes = record {
  writer = writing bytes;
  reader = reading;
  child = q;
  stdin = [];
  stdin_closed = false;
  stdout = [];
  result = [];
  held = none;
  errors = [];
  returned = none;
}

abbrev pub after : Option Error → Writer
after none = sent
after (some e) = sending e

-- One step of one goroutine or of the process. A pipe holds up to `n` bytes and one more: a write to
-- a full pipe waits, as does a read of an empty one until its other end is closed. Writing to a
-- process that has exited is an error.
pub data Step (n : ℕ) (s t : State) : Type 0 where
  write :
      (b : ℕ) (bs : List ℕ)
      → s.writer ≡ writing (b ∷ bs)
      → is_over s.child ≡ false
      → length s.stdin ≤ n
      → t ≡ record s { writer = writing bs; stdin = s.stdin ++ b ∷ [] }
      → Step n s t
  written : s.writer ≡ writing [] → t ≡ record s { writer = closing none } → Step n s t
  break :
      (b : ℕ) (bs : List ℕ) (e : Error)
      → s.writer ≡ writing (b ∷ bs)
      → is_over s.child ≡ true
      → t ≡ record s { writer = closing (some e) }
      → Step n s t
  close :
      (o : Option Error)
      → s.writer ≡ closing o
      → t ≡ record s { writer = after o; stdin_closed = true }
      → Step n s t
  send :
      (e : Error)
      → s.writer ≡ sending e
      → s.held ≡ none
      → t ≡ record s { writer = sent; held = some e }
      → Step n s t
  collect :
      (e : Error)
      → s.held ≡ some e
      → t ≡ record s { held = none; errors = s.errors ++ e ∷ [] }
      → Step n s t
  writer_done : s.writer ≡ sent → t ≡ record s { writer = finished } → Step n s t
  take :
      (k : Option ℕ → Program) (b : ℕ) (bs : List ℕ)
      → s.child ≡ reads k
      → s.stdin ≡ b ∷ bs
      → t ≡ record s { child = k (some b); stdin = bs }
      → Step n s t
  end_of_input :
      (k : Option ℕ → Program)
      → s.child ≡ reads k
      → s.stdin ≡ []
      → s.stdin_closed ≡ true
      → t ≡ record s { child = k none }
      → Step n s t
  put :
      (b : ℕ) (q : Program)
      → s.child ≡ prints b q
      → length s.stdout ≤ n
      → t ≡ record s { child = q; stdout = s.stdout ++ b ∷ [] }
      → Step n s t
  read :
      (b : ℕ) (bs : List ℕ)
      → s.reader ≡ reading
      → s.stdout ≡ b ∷ bs
      → t ≡ record s { stdout = bs; result = s.result ++ b ∷ [] }
      → Step n s t
  read_end :
      s.reader ≡ reading
      → s.stdout ≡ []
      → is_over s.child ≡ true
      → t ≡ record s { reader = read_all }
      → Step n s t
  reader_done : s.reader ≡ read_all → t ≡ record s { reader = read_done } → Step n s t
  return :
      s.writer ≡ finished
      → s.reader ≡ read_done
      → s.returned ≡ none
      → t ≡ record s { returned = some (s.result, s.errors) }
      → Step n s t

pub data Runs (n : ℕ) (s : State) : State → Type 0 where
  here : Runs n s s
  next : {t u : State} → Runs n s t → Step n t u → Runs n s u
