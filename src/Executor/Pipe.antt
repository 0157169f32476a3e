-- ===== src/Executor/Pipe.antt =====
-- executor/serializing_fork_runner.go, pipeToProcess: two goroutines use the pipes of the process
-- and send their errors over a channel to a third; the caller waits for the two and returns.
pub mod Blocking
pub mod Laws
pub mod Lost
use of_watchdog.Prelude.{List, Option, [], none, some, ℕ, ◌++◌, ◌∷◌, ◌≡◌}
use of_watchdog.Go.Http.{Error}

-- Where a goroutine stands: at its call, at closing stdin after that has returned, sending an error,
-- sent, or past `wg.Done()`.
pub data Worker : Type 0 where
  running : Worker
  closing : Option Error → Worker
  sending : Error → Worker
  sent : Worker
  finished : Worker

-- What the process and its pipes do: the error of writing stdin, and what reading stdout gives.
pub record Pipes : Type 0 where
  pub stdin_error : Option Error
  pub stdout : List ℕ
  pub stdout_error : Option Error

-- `held` is the error that the collector has received and not yet appended. `returned` is what
-- the caller got, once the function has returned.
pub record State : Type 0 where
  pub writer : Worker
  pub reader : Worker
  pub held : Option Error
  pub errors : List Error
  pub function_result : Option (List ℕ)
  pub returned : Option (Option (List ℕ) × List Error)

abbrev pub start : State
start = record {
  writer = running;
  reader = running;
  held = none;
  errors = [];
  function_result = none;
  returned = none;
}

-- What follows the call: an error is sent, no error leads on to `wg.Done()`.
abbrev pub after : Option Error → Worker
after none = sent
after (some e) = sending e

-- One step of one goroutine. Writing stdin and reading stdout are one step each, which stands for the
-- return of the call, whenever the process lets it return; Executor.Pipe.Blocking has what they wait
-- for. The channel has no buffer: a send waits until the collector receives.
pub data Step (p : Pipes) (s t : State) : Type 0 where
  write_stdin : s.writer ≡ running → t ≡ record s { writer = closing p.stdin_error } → Step p s t
  close_stdin :
      (o : Option Error) → s.writer ≡ closing o → t ≡ record s { writer = after o } → Step p s t
  read_stdout :
      s.reader ≡ running
      → t ≡ record s { reader = after p.stdout_error; function_result = some p.stdout }
      → Step p s t
  writer_sends :
      (e : Error)
      → s.writer ≡ sending e
      → s.held ≡ none
      → t ≡ record s { writer = sent; held = some e }
      → Step p s t
  reader_sends :
      (e : Error)
      → s.reader ≡ sending e
      → s.held ≡ none
      → t ≡ record s { reader = sent; held = some e }
      → Step p s t
  writer_done : s.writer ≡ sent → t ≡ record s { writer = finished } → Step p s t
  reader_done : s.reader ≡ sent → t ≡ record s { reader = finished } → Step p s t
  collect :
      (e : Error)
      → s.held ≡ some e
      → t ≡ record s { held = none; errors = s.errors ++ e ∷ [] }
      → Step p s t
  return :
      s.writer ≡ finished
      → s.reader ≡ finished
      → s.returned ≡ none
      → t ≡ record s { returned = some (s.function_result, s.errors) }
      → Step p s t

pub data Runs (p : Pipes) (s : State) : State → Type 0 where
  here : Runs p s s
  next : {t u : State} → Runs p s t → Step p t u → Runs p s u

abbrev pub Reach : Pipes → State → Type 0
Reach p t = Runs p start t
