-- ===== src/Executor/Logging.antt =====
-- executor/logging.go: a function's output, copied to the log line by line.
pub mod Laws
pub mod Scanning
use of_watchdog.Prelude.{
  Bool, List, Option, [], false, if◌then◌else◌, is_nonneg, length, ltb, none, or_else, pos_part,
  some, true, ℕ, ℤ, ◌++◌, ◌==◌, ◌∷◌,
}
use of_watchdog.Go.Http.{Error}

abbrev pub newline : ℕ
newline = 10

-- The bytes of a pipe up to its end, or up to the error that ends the reading.
pub record Stream : Type 0 where
  pub bytes : List ℕ
  pub failure : Option Error

abbrev push_byte : ℕ → List (List ℕ) × List ℕ → List (List ℕ) × List ℕ
push_byte c ([], tail) = ([], c ∷ tail)
push_byte c (l ∷ ls, tail) = ((c ∷ l) ∷ ls, tail)

-- The lines that end in a newline, without it, and the bytes after the last newline.
unfoldable pub lines : List ℕ → List (List ℕ) × List ℕ
lines [] = ([], [])
lines (c ∷ s) = if c == newline then ([] ∷ (lines s).0, (lines s).1) else push_byte c (lines s)

-- What was written to the output, and what was logged as an error.
pub record Logged : Type 0 where
  pub out : List ℕ
  pub errors : List Error

-- `logger.Print` adds a newline to a text that does not end in one.
pub ends_line : List ℕ → Bool
ends_line [] = false
ends_line (c ∷ []) = c == newline
ends_line (c ∷ d ∷ s) = ends_line (d ∷ s)

-- `header` is what the logger puts before each line; `name: ` stands before the text if the
-- prefix is on.
print : List ℕ → Option (List ℕ) → List ℕ → List ℕ
unfolding ends_line
print header tag text =
    let whole = or_else tag [] ++ text in
    header ++ (if ends_line whole then whole else whole ++ newline ∷ [])

-- `bufio.ScanLines` drops a carriage return at the end of a line.
unfoldable pub drop_cr : List ℕ → List ℕ
drop_cr [] = []
drop_cr (c ∷ []) = if c == 13 then [] else c ∷ []
drop_cr (c ∷ d ∷ s) = c ∷ drop_cr (d ∷ s)

abbrev pub too_long : Error
too_long = "bufio.Scanner: token too long"

-- The scanner's tokens: the lines, and the rest after the last newline if there is any.
abbrev pub tokens : List (List ℕ) × List ℕ → List (List ℕ)
tokens (ls, []) = ls
tokens (ls, c ∷ tail) = ls ++ (c ∷ tail) ∷ []

abbrev pub failures : Option Error → List Error
failures none = []
failures (some e) = e ∷ []

module _ (header : List ℕ) (tag : Option (List ℕ)) where
  abbrev before : List ℕ → Logged → Logged
  before text l = record l { out = print header tag text ++ l.out }

  -- The scan loop. The buffer holds `size` bytes: a line has to leave room in it for one more.
  scan : ℕ → Option Error → List (List ℕ) → Logged
  scan size failure [] = record { out = []; errors = failures failure }
  scan size failure (l ∷ ls) =
      if ltb (length l) size
      then before (drop_cr l) (scan size failure ls)
      else record { out = []; errors = too_long ∷ [] }

  unfoldable pub pipe_buffered : ℕ → Stream → Logged
  unfolding scan print drop_cr lines
  pipe_buffered size pipe =
      if size == 0
      then record { out = []; errors = too_long ∷ [] }
      else scan size pipe.failure (tokens (lines pipe.bytes))

  -- The loop over `ReadString`, which returns each line with its newline. What follows the last
  -- newline is returned together with an error, and the loop ends.
  read_strings : Option Error → List (List ℕ) → Logged
  read_strings failure [] = record { out = []; errors = failures failure }
  read_strings failure (l ∷ ls) = before (l ++ newline ∷ []) (read_strings failure ls)

  unfoldable pub pipe_unbuffered : Stream → Logged
  unfolding read_strings print lines
  pipe_unbuffered pipe = read_strings pipe.failure (lines pipe.bytes).0

abbrev tag_of : Bool → List ℕ → Option (List ℕ)
tag_of true name = some (name ++ 58 ∷ 32 ∷ [])
tag_of false name = none

-- `bindLoggingPipe`: `flags` is what the standard logger's flags and prefix put before a line.
unfoldable pub bind_logging_pipe : List ℕ → List ℕ → Bool → ℤ → Stream → Logged
unfolding pipe_buffered pipe_unbuffered
bind_logging_pipe flags name log_prefix max_buffer_size pipe =
    let header = if log_prefix then flags else [] in
    let tag = tag_of log_prefix name in
    if is_nonneg max_buffer_size
    then pipe_buffered header tag (pos_part max_buffer_size) pipe
    else pipe_unbuffered header tag pipe
