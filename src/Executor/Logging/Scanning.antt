-- ===== src/Executor/Logging/Scanning.antt =====
-- The scanner's lines, with or without the prefix, and what a line does that the buffer cannot hold.
use of_watchdog.Prelude.{
  All, Bool, List, Option, [], arith, false, if◌then◌else◌, length, ltb, lt→ltb, pos, refl, subst,
  suc, sym, true, ℕ, ◌++◌, ◌<◌, ◌==◌, ◌∙◌, ◌∷◌, ◌≡◌, ◌≤◌,
}
use mathlib.Core.List.{append_assoc, append-nil}
use of_watchdog.Go.Http.{Error}
use of_watchdog.Executor.Logging.{
  newline, Stream, Logged, lines, print, drop_cr, tokens, failures, scan, too_long, tag_of,
  bind_logging_pipe,
}
use of_watchdog.Executor.Logging.Laws.{
  HasNone, HasNone-lines, All-lines, All-tokens, ends_line_of_HasNone,
}

-- A line as it is logged: what the logger puts before it, the name of the pipe if the prefix is on,
-- the line without a carriage return at its end, and a newline.
abbrev pub logged_line : List ℕ → List ℕ → Bool → List ℕ → List ℕ
logged_line flags name true l = flags ++ (((name ++ 58 ∷ 32 ∷ []) ++ drop_cr l) ++ newline ∷ [])
logged_line flags name false l = drop_cr l ++ newline ∷ []

abbrev pub logged_lines : List ℕ → List ℕ → Bool → List (List ℕ) → List ℕ
logged_lines flags name log_prefix [] = []
logged_lines flags name log_prefix (l ∷ ls) =
    logged_line flags name log_prefix l ++ logged_lines flags name log_prefix ls

-- The buffer holds the line and one byte more.
abbrev pub IsShort : ℕ → List ℕ → Type 0
IsShort size l = length l < size

HasNone-drop_cr : (l : List ℕ) → HasNone newline l → HasNone newline (drop_cr l)
unfolding drop_cr
HasNone-drop_cr [] h = tt
HasNone-drop_cr (c ∷ []) (h, k) = ground arith
HasNone-drop_cr (c ∷ d ∷ s) (h, k) = (h, HasNone-drop_cr (d ∷ s) k)

HasNone-append : (s t : List ℕ) → HasNone newline s → HasNone newline t → HasNone newline (s ++ t)
HasNone-append [] t h k = k
HasNone-append (c ∷ s) t (h, hs) k = (h, HasNone-append s t hs k)

module _ (flags name : List ℕ) (plain : HasNone newline name) (size : ℕ)
    (failure : Option Error) where
  abbrev header : Bool → List ℕ
  header log_prefix = if log_prefix then flags else []

  print-logged_line :
      (log_prefix : Bool) (l : List ℕ)
      → HasNone newline l
      → print (header log_prefix) (tag_of log_prefix name) (drop_cr l)
        ≡ logged_line flags name log_prefix l
  unfolding print
  print-logged_line true l h = rw (
      ends_line_of_HasNone ((name ++ 58 ∷ 32 ∷ []) ++ drop_cr l) (
        HasNone-append (name ++ 58 ∷ 32 ∷ []) (drop_cr l)
          (HasNone-append name (58 ∷ 32 ∷ []) plain (omega arith)) (HasNone-drop_cr l h)))
  print-logged_line false l h = rw (ends_line_of_HasNone (drop_cr l) (HasNone-drop_cr l h))

  scanned : Bool → List (List ℕ) → Logged
  scanned log_prefix = scan (header log_prefix) (tag_of log_prefix name) size failure

  scan-append :
      (log_prefix : Bool) (ls rest : List (List ℕ))
      → All (HasNone newline) (ls ++ rest)
      → All (IsShort size) ls
      → ((scanned log_prefix (ls ++ rest)).out
          ≡ logged_lines flags name log_prefix ls ++ (scanned log_prefix rest).out)
        × ((scanned log_prefix (ls ++ rest)).errors ≡ (scanned log_prefix rest).errors)
  unfolding scanned scan
  scan-append log_prefix [] rest h short = (refl, refl)
  scan-append log_prefix (l ∷ ls) rest (h, hs) (fits, short) =
      let (out, errors) = scan-append log_prefix ls rest hs short in
      (
        rw (lt→ltb _ _ fits, print-logged_line log_prefix l h, out)
            (sym (
              append_assoc (logged_line flags name log_prefix l)
                (logged_lines flags name log_prefix ls) (scanned log_prefix rest).out)),
        rw (lt→ltb _ _ fits, errors) refl,
      )

module _ (flags name : List ℕ) (log_prefix : Bool) (n : ℕ) (pipe : Stream)
    (plain : HasNone newline name) where
  abbrev logged : Logged
  logged = bind_logging_pipe flags name log_prefix (pos (suc n)) pipe

  logged-scanned :
      logged ≡ scanned flags name plain (suc n) pipe.failure log_prefix (tokens (lines pipe.bytes))
  unfolding bind_logging_pipe scanned
  logged-scanned =
      let some_room : (suc n == 0) ≡ false = ground arith in rw (some_room, bind_logging_pipe) refl

  tokens-HasNone : All (HasNone newline) (tokens (lines pipe.bytes))
  tokens-HasNone = All-tokens (lines pipe.bytes) (All-lines pipe.bytes) (HasNone-lines pipe.bytes)

  -- When the size of the buffer is more than 0 and the buffer holds every line with one byte more,
  -- each line is logged, with the prefix or without it, and the only error is the one that ends the
  -- reading, if there is one.
  pub bind_logging_pipe-short :
      All (IsShort (suc n)) (tokens (lines pipe.bytes))
      → (logged.out ≡ logged_lines flags name log_prefix (tokens (lines pipe.bytes)))
        × (logged.errors ≡ failures pipe.failure)
  unfolding scanned scan
  bind_logging_pipe-short short =
      let toks = tokens (lines pipe.bytes) in
      let (out, errors) =
        scan-append flags name plain (suc n) pipe.failure log_prefix toks []
          (subst (All (HasNone newline)) (sym (append-nil toks)) tokens-HasNone) short in
      (
        rw logged-scanned (
            subst
              (λ t.
                (scanned flags name plain (suc n) pipe.failure log_prefix t).out
                ≡ logged_lines flags name log_prefix toks ++ [])
              (append-nil toks) out
            ∙ append-nil (logged_lines flags name log_prefix toks)),
        rw logged-scanned (
            subst
              (λ t.
                (scanned flags name plain (suc n) pipe.failure log_prefix t).errors
                ≡ failures pipe.failure)
              (append-nil toks) errors),
      )

  -- The first line that the buffer cannot hold ends the logging: the lines before it are logged,
  -- an error is, and neither the line nor anything after it is.
  pub bind_logging_pipe-too_long :
      (ls : List (List ℕ)) (l : List ℕ) (more : List (List ℕ))
      → tokens (lines pipe.bytes) ≡ ls ++ l ∷ more
      → All (IsShort (suc n)) ls
      → suc n ≤ length l
      → (logged.out ≡ logged_lines flags name log_prefix ls) × (logged.errors ≡ too_long ∷ [])
  unfolding scanned scan
  bind_logging_pipe-too_long ls l more e short long =
      let cut_off : ltb (length l) (suc n) ≡ false = ground arith in
      let (out, errors) =
        scan-append flags name plain (suc n) pipe.failure log_prefix ls (l ∷ more)
          (subst (All (HasNone newline)) e tokens-HasNone) short in
      (
        rw (logged-scanned, e)
            (out ∙ rw cut_off (append-nil (logged_lines flags name log_prefix ls))),
        rw (logged-scanned, e) (errors ∙ rw cut_off),
      )
