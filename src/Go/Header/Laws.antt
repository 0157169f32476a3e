-- ===== src/Go/Header/Laws.antt =====
-- The map's access after its assignment.
use of_watchdog.Prelude.{
  List, String, [], arith, eq_iff, if◌then◌else◌, refl, some, str_eq, ◌∷◌, ◌≡◌,
}
use of_watchdog.Go.Header.{Header, find, put}

pub find-put :
    (h : Header) (k j : String) (vs : List String)
    → find (put h k vs) j ≡ (if str_eq k j then some vs else find h j)
unfolding find put
find-put [] k j vs = refl
find-put ((i, ws) ∷ h) k j vs =
    ground (arith, eq_iff k j, eq_iff i k, eq_iff i j, find-put h k j vs)
