-- ===== src/Prelude/Text.antt =====
-- Texts: concatenation under a name of its own, and the laws the components use.
use Prim.Native.String
use Prim.Native.String.{String}
use Prim.Native.Char.{Char}
use mathlib.Core.Path.{◌≡◌}
use mathlib.Core.Bool.{Bool, not}
use text.Mathlib.Text.{◌==◌}
use text.Mathlib.TextLemmas.{nil-append, cons-append, append-nil, append_assoc}

infixr 65 ◌<>◌
abbrev pub ◌<>◌ : String → String → String
s <> t = String.◌++◌ s t

pub nil-<> : (s : String) → "" <> s ≡ s
nil-<> s = nil-append s

pub <>-nil : (s : String) → s <> "" ≡ s
<>-nil s = append-nil s

pub cons-<> : (c : Char) (s t : String) → String.◌∷◌ c s <> t ≡ String.◌∷◌ c (s <> t)
cons-<> c s t = cons-append c s t

pub <>_assoc : (s t u : String) → (s <> t) <> u ≡ s <> t <> u
<>_assoc s t u = append_assoc s t u

abbrev pub str_eq : String → String → Bool
str_eq s t = s == t

-- The test `len(s) > 0`.
abbrev pub nonempty : String → Bool
nonempty s = not (s == "")
