-- ===== src/Executor/HttpRunner/Headers/Laws.antt =====
-- Which headers reach the function, and which responses carry.
use of_watchdog.Prelude.{
  Bool-cases, List, Option, Option-cases, String, [], ap, eq_iff, inl, inr, none, refl, some,
  str_eq, subst, ◌∙◌, ◌∷◌, ◌≡◌,
}
use of_watchdog.Go.Header
use of_watchdog.Go.Header.{Header, find, canonical_key}
use of_watchdog.Go.Header.Laws.{find-put}
use of_watchdog.Executor.HttpRunner.Headers.{copy_headers, set_each, forwarded_header}

-- A map has each key once.
abbrev pub IsMap : Header → Type 0
IsMap [] = Unit
IsMap ((k, v) ∷ h) = (find h k ≡ none) × IsMap h

abbrev pub or_values : Option (List String) → Option (List String) → Option (List String)
or_values none b = b
or_values (some a) b = some a

-- After copyHeaders each key of the source has the source's values, and every other key has the
-- values that it had in the destination.
pub find-copy_headers :
    (destination source : Header) (j : String)
    → IsMap source
    → find (copy_headers destination source) j ≡ or_values (find source j) (find destination j)
unfolding copy_headers find
find-copy_headers destination [] j h = refl
find-copy_headers destination ((k, v) ∷ source) j (once, h) =
    find-copy_headers (Header.put destination k v) source j h
    ∙ ap (or_values (find source j)) (find-put destination k j v)
    ∙ elim (Bool-cases (str_eq k j)) [
      | inl same ↦
          let e : k ≡ j = (eq_iff k j).0 same in
          let missing : find source j ≡ none = subst (λ i. find source i ≡ none) e once in
          rw (same, missing)
      | inr other ↦ rw other
    ]

-- The keys of a header that came over the network are canonical.
abbrev pub IsCanonical : Header → Type 0
IsCanonical [] = Unit
IsCanonical ((k, v) ∷ h) = (canonical_key k ≡ k) × IsCanonical h

find-set_each :
    (all destination rest : Header) (j : String)
    → IsCanonical rest
    → find rest j ≡ none
    → find (set_each all destination rest) j ≡ find destination j
unfolding set_each find Header.set
find-set_each all destination [] j c h = refl
find-set_each all destination ((k, v) ∷ rest) j (same, c) h = elim (Bool-cases (str_eq k j)) [
  | inl e ↦ cc (rw e at h)
  | inr e ↦
      find-set_each all (Header.set destination k (Header.get all k)) rest j c (rw e at h)
      ∙ find-put destination (canonical_key k) j (Header.get all k ∷ [])
      ∙ rw (same, e)
]

-- The forwarded request has exactly the headers of the request, every value of each key included,
-- where the keys are canonical and none is there twice, as net/http makes them.
pub find-forwarded_header :
    (h : Header) (j : String) → IsMap h → IsCanonical h → find (forwarded_header h) j ≡ find h j
unfolding forwarded_header find
find-forwarded_header h j once c =
    find-copy_headers (set_each h [] h) h j once ∙ elim (Option-cases (find h j)) [
      | inl missing ↦ rw missing (find-set_each h [] h j c missing)
      | inr (v, found) ↦ rw found
    ]
