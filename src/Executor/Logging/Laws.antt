-- ===== src/Executor/Logging/Laws.antt =====
-- What reaches the log.
use of_watchdog.Prelude.{
  All, Bool-cases, List, Option, String, [], ap, arith, false, inl, inr, length, lt→ltb, negsuc,
  none, pos, refl, suc, sym, true, ℕ, ◌++◌, ◌<◌, ◌==◌, ◌∙◌, ◌∷◌, ◌≡◌, ◌≢◌,
}
use mathlib.Core.List.{append-nil, append_assoc}
use of_watchdog.Executor.Logging.{
  newline, Stream, lines, push_byte, ends_line, print, drop_cr, tokens, scan, read_strings,
  bind_logging_pipe,
}

-- The lines, each with its newline.
abbrev pub unlines : List (List ℕ) → List ℕ
unlines [] = []
unlines (l ∷ ls) = l ++ newline ∷ unlines ls

-- No byte is a newline.
abbrev pub HasNone : ℕ → List ℕ → Type 0
HasNone b [] = Unit
HasNone b (c ∷ s) = (c ≢ b) × HasNone b s

unlines-push_byte :
    (c : ℕ) (t : List (List ℕ) × List ℕ)
    → unlines (push_byte c t).0 ++ (push_byte c t).1 ≡ c ∷ (unlines t.0 ++ t.1)
unlines-push_byte c ([], tail) = refl
unlines-push_byte c (l ∷ ls, tail) = refl

HasNone-push_byte :
    (c : ℕ) (t : List (List ℕ) × List ℕ)
    → c ≢ newline
    → HasNone newline t.1
    → HasNone newline (push_byte c t).1
HasNone-push_byte c ([], tail) h k = (h, k)
HasNone-push_byte c (l ∷ ls, tail) h k = k

-- Nothing is lost by cutting the bytes into lines.
unlines-lines : (s : List ℕ) → unlines (lines s).0 ++ (lines s).1 ≡ s
unfolding lines
unlines-lines [] = refl
unlines-lines (c ∷ s) = elim (Bool-cases (c == newline)) [
  | inl e ↦ rw (e, unlines-lines s) (ground arith)
  | inr e ↦ rw e (unlines-push_byte c (lines s) ∙ ap (λ t. c ∷ t) (unlines-lines s))
]

pub HasNone-lines : (s : List ℕ) → HasNone newline (lines s).1
unfolding lines
HasNone-lines [] = tt
HasNone-lines (c ∷ s) = elim (Bool-cases (c == newline)) [
  | inl e ↦ rw e (HasNone-lines s)
  | inr e ↦ rw e (HasNone-push_byte c (lines s) (ground arith) (HasNone-lines s))
]

ends_line-append : (l : List ℕ) → ends_line (l ++ newline ∷ []) ≡ true
unfolding ends_line
ends_line-append [] = refl
ends_line-append (c ∷ []) = refl
ends_line-append (c ∷ d ∷ s) = ends_line-append (d ∷ s)

print_line : (l : List ℕ) → print [] none (l ++ newline ∷ []) ≡ l ++ newline ∷ []
unfolding print
print_line l = rw (ends_line-append l)

read_strings-out :
    (failure : Option String) (ls : List (List ℕ))
    → (read_strings [] none failure ls).out ≡ unlines ls
unfolding read_strings
read_strings-out failure [] = refl
read_strings-out failure (l ∷ ls) =
    rw (print_line l, read_strings-out failure ls, append_assoc l (newline ∷ []) (unlines ls))

-- Without the prefix and with a negative buffer size, what is logged is the function's output up
-- to and with its last newline; the bytes after it, which hold no newline, are not logged.
pub bind_logging_pipe-unbuffered :
    (flags name : List ℕ) (n : ℕ) (pipe : Stream)
    → ((bind_logging_pipe flags name false (negsuc n) pipe).out ++ (lines pipe.bytes).1
        ≡ pipe.bytes)
      × HasNone newline (lines pipe.bytes).1
unfolding bind_logging_pipe
bind_logging_pipe-unbuffered flags name n pipe = (
  ap (λ o. o ++ (lines pipe.bytes).1) (read_strings-out pipe.failure (lines pipe.bytes).0)
      ∙ unlines-lines pipe.bytes,
  HasNone-lines pipe.bytes,
)

All-push_byte :
    (c : ℕ) (t : List (List ℕ) × List ℕ)
    → c ≢ newline
    → All (HasNone newline) t.0
    → All (HasNone newline) (push_byte c t).0
All-push_byte c ([], tail) h k = tt
All-push_byte c (l ∷ ls, tail) h (k, ks) = ((h, k), ks)

pub All-lines : (s : List ℕ) → All (HasNone newline) (lines s).0
unfolding lines
All-lines [] = tt
All-lines (c ∷ s) = elim (Bool-cases (c == newline)) [
  | inl e ↦ rw e (tt, All-lines s)
  | inr e ↦ rw e (All-push_byte c (lines s) (ground arith) (All-lines s))
]

-- A token that the buffer of the given size holds, and that ends in no carriage return.
abbrev pub Fits : ℕ → List ℕ → Type 0
Fits size l = (length l < size) × (drop_cr l ≡ l)

pub ends_line_of_HasNone : (l : List ℕ) → HasNone newline l → ends_line l ≡ false
unfolding ends_line
ends_line_of_HasNone [] h = refl
ends_line_of_HasNone (c ∷ []) (h, k) = ground arith
ends_line_of_HasNone (c ∷ d ∷ s) (h, k) = ends_line_of_HasNone (d ∷ s) k

print_token : (l : List ℕ) → HasNone newline l → print [] none l ≡ l ++ newline ∷ []
unfolding print
print_token l h = rw (ends_line_of_HasNone l h)

scan-Fits :
    (size : ℕ) (failure : Option String) (ls : List (List ℕ))
    → All (HasNone newline) ls
    → All (Fits size) ls
    → (scan [] none size failure ls).out ≡ unlines ls
unfolding scan
scan-Fits size failure [] h f = refl
scan-Fits size failure (l ∷ ls) (h, hs) ((short, cr), fs) = rw (lt→ltb _ _ short) (
    rw (
      cr,
      print_token l h,
      scan-Fits size failure ls hs fs,
      append_assoc l (newline ∷ []) (unlines ls),
    ))

pub All-tokens :
    (t : List (List ℕ) × List ℕ)
    → All (HasNone newline) t.0
    → HasNone newline t.1
    → All (HasNone newline) (tokens t)
All-tokens (ls, []) h k = h
All-tokens ([], c ∷ tail) h k = (k, tt)
All-tokens (l ∷ ls, c ∷ tail) (h, hs) k = (h, All-tokens (ls, c ∷ tail) hs k)

-- The newline that the log adds after an unfinished last line.
abbrev pub closing : List ℕ → List ℕ
closing [] = []
closing (c ∷ tail) = newline ∷ []

unlines-tokens :
    (ls : List (List ℕ)) (tail : List ℕ)
    → unlines (tokens (ls, tail)) ≡ (unlines ls ++ tail) ++ closing tail
unlines-tokens ls [] = sym (append-nil _ ∙ append-nil _)
unlines-tokens [] (c ∷ tail) = refl
unlines-tokens (l ∷ ls) (c ∷ tail) = rw (unlines-tokens ls (c ∷ tail)) (simp append_assoc)

-- Without the prefix and with a buffer in which every line fits, the whole output is logged, and
-- an unfinished last line gets a newline.
pub bind_logging_pipe-buffered :
    (flags name : List ℕ) (n : ℕ) (pipe : Stream)
    → All (Fits (suc n)) (tokens (lines pipe.bytes))
    → (bind_logging_pipe flags name false (pos (suc n)) pipe).out
      ≡ pipe.bytes ++ closing (lines pipe.bytes).1
unfolding bind_logging_pipe
bind_logging_pipe-buffered flags name n pipe f =
    let t = lines pipe.bytes in
    let some_room : (suc n == 0) ≡ false = ground arith in
    rw (some_room, bind_logging_pipe)
      (scan-Fits (suc n) pipe.failure (tokens t)
          (All-tokens t (All-lines pipe.bytes) (HasNone-lines pipe.bytes)) f
        ∙ unlines-tokens t.0 t.1
        ∙ ap (λ o. o ++ closing t.1) (unlines-lines pipe.bytes))
