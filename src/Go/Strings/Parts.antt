-- ===== src/Go/Strings/Parts.antt =====
-- What strings.Contains finds.
use of_watchdog.Prelude.{
  Bool, Bool-cases, String, ap, cons-<>, false, inl, inr, nil-<>, refl, subst, true, ◌<>◌, ◌||◌,
  ◌↔◌, ◌∙◌, ◌≡◌,
}
use text.Mathlib.Text.{starts_with}
use text.Mathlib.TextEquality.{starts_with_iff}
use text.Mathlib.TextPositions.{starts_with-append}
use of_watchdog.Go.Strings.{contains}

-- The text holds the part somewhere.
abbrev pub IsPart : String → String → Type 0
IsPart part s = (u : String) × (v : String) × (u <> part <> v ≡ s)

or_true : (b : Bool) → (b || true) ≡ true
or_true true = refl
or_true false = refl

or_false : (b : Bool) → (b || false) ≡ true → b ≡ true
or_false true h = refl
or_false false h = h

contains_of_starts : (s part : String) → starts_with s part ≡ true → contains s part ≡ true
unfolding contains
contains_of_starts String.[] part h = h
contains_of_starts (String.◌∷◌ c s) part h = rw h

contains-<> : (u part v : String) → contains (u <> part <> v) part ≡ true
unfolding contains
contains-<> String.[] part v =
    rw (nil-<> (part <> v)) (contains_of_starts (part <> v) part (starts_with-append part v))
contains-<> (String.◌∷◌ c u) part v =
    rw (cons-<> c u (part <> v), contains-<> u part v)
      (or_true (starts_with (String.◌∷◌ c (u <> part <> v)) part))

IsPart-of_contains : (s part : String) → contains s part ≡ true → IsPart part s
unfolding contains
IsPart-of_contains String.[] part h =
    let (v, e) = (starts_with_iff "" part).0 h in ("", v, nil-<> (part <> v) ∙ e)
IsPart-of_contains (String.◌∷◌ c s) part h = elim (Bool-cases (contains s part)) [
  | inl later ↦
      let (u, v, e) = IsPart-of_contains s part later in
      (String.◌∷◌ c u, v, cons-<> c u (part <> v) ∙ ap (String.◌∷◌ c) e)
  | inr never ↦
      let now : starts_with (String.◌∷◌ c s) part ≡ true = or_false _ (rw never at h) in
      let (v, e) = (starts_with_iff (String.◌∷◌ c s) part).0 now in ("", v, nil-<> (part <> v) ∙ e)
]

pub contains_iff : (s part : String) → (contains s part ≡ true) ↔ IsPart part s
contains_iff s part = (
  IsPart-of_contains s part,
  λ h. subst (λ t. contains t part ≡ true) h.2 (contains-<> h.0 part h.1),
)
