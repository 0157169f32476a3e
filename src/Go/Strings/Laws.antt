-- ===== src/Go/Strings/Laws.antt =====
-- Splitting and joining, and cutting at the first separator.
use text.Mathlib.TextEquality.{Char-path}
use text.Mathlib.TextLemmas.{cons-append}
use of_watchdog.Prelude.{
  ==_iff, All, Bool-cases, Char, List, String, [], arith, code, cons-<>, inl, inr, nil-<>, refl,
  some, ℕ, ◌<>◌, ◌==◌, ◌∷◌, ◌≡◌, ◌≢◌,
}
use of_watchdog.Go.Strings.{replace_all, cut, split, join, push_head}

-- No character of the text is the separator.
abbrev pub IsFree : ℕ → String → Type 0
IsFree sep String.[] = Unit
IsFree sep (String.◌∷◌ c s) = (code c ≢ sep) × IsFree sep s

pub split-cases :
    (sep : ℕ) (s : String) → (x : String) × (xs : List String) × (split sep s ≡ x ∷ xs)
unfolding split
split-cases sep String.[] = ("", [], refl)
split-cases sep (String.◌∷◌ c s) = elim (Bool-cases (code c == sep)) [
  | inl e ↦ ("", split sep s, rw e)
  | inr e ↦ let (x, xs, p) = split-cases sep s in (String.◌∷◌ c x, xs, rw (e, p))
]

join-push_head :
    (sep : String) (c : Char) (xs : List String)
    → xs ≢ []
    → join sep (push_head c xs) ≡ String.◌∷◌ c (join sep xs)
unfolding join
join-push_head sep c [] h = absurd (h refl)
join-push_head sep c (x ∷ []) h = refl
join-push_head sep c (x ∷ y ∷ xs) h = cons-append c x (sep <> join sep (y ∷ xs))

split-ne-nil : (sep : ℕ) (s : String) → split sep s ≢ []
split-ne-nil sep s e = let (x, xs, p) = split-cases sep s in cc (e, p)

join-nil_cons :
    (sep : String) (xs : List String) → xs ≢ [] → join sep ("" ∷ xs) ≡ sep <> join sep xs
unfolding join
join-nil_cons sep [] h = absurd (h refl)
join-nil_cons sep (x ∷ xs) h = nil-<> (sep <> join sep (x ∷ xs))

-- Joining the parts by the separator gives the text back.
pub join-split : (d : Char) (s : String) → join (String.◌∷◌ d "") (split (code d) s) ≡ s
unfolding split join
join-split d String.[] = refl
join-split d (String.◌∷◌ c s) = elim (Bool-cases (code c == code d)) [
  | inl e ↦
      rw (e, join-nil_cons _ _ (split-ne-nil (code d) s), join-split d s)
        (let same : c ≡ d = Char-path c d ((==_iff _ _).0 e) in rw (same, cons-<>, nil-<>))
  | inr e ↦ rw (e, join-push_head _ c _ (split-ne-nil (code d) s), join-split d s)
]

All-push_head :
    (sep : ℕ) (c : Char) (xs : List String)
    → code c ≢ sep
    → All (IsFree sep) xs
    → All (IsFree sep) (push_head c xs)
All-push_head sep c [] h k = ((h, tt), tt)
All-push_head sep c (x ∷ xs) h (k, ks) = ((h, k), ks)

-- No part holds the separator.
pub split-IsFree : (sep : ℕ) (s : String) → All (IsFree sep) (split sep s)
unfolding split
split-IsFree sep String.[] = (tt, tt)
split-IsFree sep (String.◌∷◌ c s) = elim (Bool-cases (code c == sep)) [
  | inl e ↦ rw e (tt, split-IsFree sep s)
  | inr e ↦ rw e (All-push_head sep c _ (ground arith) (split-IsFree sep s))
]

-- A separator that the text before it does not hold is where `cut` cuts.
pub cut-append :
    (d : Char) (a b : String) → IsFree (code d) a → cut (code d) (a <> String.◌∷◌ d b) ≡ some (a, b)
unfolding cut
cut-append d String.[] b h = rw (nil-<>, (==_iff (code d) (code d)).1 refl)
cut-append d (String.◌∷◌ c a) b (h, k) = elim (Bool-cases (code c == code d)) [
  | inl e ↦ absurd (h ((==_iff _ _).0 e))
  | inr e ↦ rw (cons-<>, cut) (rw (e, cut-append d a b k))
]

pub IsFree-<> : (sep : ℕ) (s t : String) → IsFree sep s → IsFree sep t → IsFree sep (s <> t)
IsFree-<> sep String.[] t f g = rw (nil-<> t) g
IsFree-<> sep (String.◌∷◌ c s) t (h, f) g = rw (cons-<> c s t) (h, IsFree-<> sep s t f g)

pub IsFree-replace_all :
    (sep old : ℕ) (new : Char) (s : String)
    → code new ≢ sep
    → IsFree sep s
    → IsFree sep (replace_all old new s)
unfolding replace_all
IsFree-replace_all sep old new String.[] h f = tt
IsFree-replace_all sep old new (String.◌∷◌ c s) h (k, f) = elim (Bool-cases (code c == old)) [
  | inl e ↦ rw e (h, IsFree-replace_all sep old new s h f)
  | inr e ↦ rw e (k, IsFree-replace_all sep old new s h f)
]
