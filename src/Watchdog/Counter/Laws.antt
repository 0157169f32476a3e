-- ===== src/Watchdog/Counter/Laws.antt =====
-- The count of a response's bytes.
use of_watchdog.Prelude.{
  ==_iff, Bool-cases, List, Option, [], ap, arith, inl, inr, length, length-append, none, refl,
  some, true, ℕ, ◌+◌, ◌==◌, ◌∙◌, ◌∷◌, ◌≡◌,
}
use of_watchdog.Executor.Streaming.{IoWriter, copy, proceed}
use of_watchdog.Executor.Streaming.Laws.{TakesAll, concat}
use of_watchdog.Watchdog.Counter.{WriterCounter, write, counted}
use of_watchdog.Go.Http.{Error}

module _ {W : Type 0} where
  -- Two results agree but for the count.
  abbrev Agrees : WriterCounter W × Option Error → W × Option Error → Type 0
  Agrees (nc, e) (w, e') = (nc.w ≡ w) × (e ≡ e')

  proceed-counted :
      (size : ℕ) (rest : WriterCounter W → WriterCounter W × Option Error)
      (rest' : W → W × Option Error)
      → ((nc : WriterCounter W) → Agrees (rest nc) (rest' nc.w))
      → (nc : WriterCounter W) (t : W × ℕ × Option Error)
      → Agrees (proceed size rest (counted nc t)) (proceed size rest' t)
  proceed-counted size rest rest' h nc (w', n, some e) = (refl, refl)
  proceed-counted size rest rest' h nc (w', n, none) = elim (Bool-cases (n == size)) [
    | inl whole ↦ rw whole (h _)
    | inr short ↦ rw short (refl, refl)
  ]

  proceed-whole :
      (size : ℕ) (rest : WriterCounter W → WriterCounter W × Option Error) (nc : WriterCounter W)
      (t : W × ℕ × Option Error)
      → t.1 ≡ size
      → t.2 ≡ none
      → proceed size rest (counted nc t) ≡ rest (record nc { w = t.0; bytes = nc.bytes + size })
  proceed-whole size rest nc (w', n, some e) h fine = cc
  proceed-whole size rest nc (w', n, none) h fine =
      let whole : (n == size) ≡ true = (==_iff n size).1 h in rw whole (rw h)

module _ {W : Type 0} (underlying : IoWriter W) where
  -- Copying chunks through the counter leaves the underlying writer and the error as copying them
  -- to it directly does, whatever that writer does.
  pub copy-write :
      (ps : List (List ℕ)) (nc : WriterCounter W)
      → ((copy (write underlying) nc ps).0.w ≡ (copy underlying nc.w ps).0)
        × ((copy (write underlying) nc ps).1 ≡ (copy underlying nc.w ps).1)
  unfolding copy write
  copy-write [] nc = (refl, refl)
  copy-write (p ∷ ps) nc =
      proceed-counted (length p) (λ nc'. copy (write underlying) nc' ps)
        (λ w'. copy underlying w' ps) (copy-write ps) nc (underlying nc.w p)

  -- Through a writer that takes all that it is given, the count is the number of bytes.
  pub bytes-copy_all :
      (taken : W → List ℕ)
      → TakesAll underlying taken
      → (ps : List (List ℕ)) (nc : WriterCounter W)
      → (copy (write underlying) nc ps).0.bytes ≡ nc.bytes + length (concat ps)
  unfolding copy write
  bytes-copy_all taken all [] nc = omega arith
  bytes-copy_all taken all (p ∷ ps) nc =
      let (t, n, e) = all nc.w p in
      let nc' : WriterCounter W = record {
        w = (underlying nc.w p).0;
        bytes = nc.bytes + length p;
      } in
      ap (λ r. r.0.bytes)
        (proceed-whole (length p) (λ nc'. copy (write underlying) nc' ps) nc (underlying nc.w p) n
          e)
      ∙ bytes-copy_all taken all ps nc'
      ∙ omega (arith, length-append p (concat ps))
