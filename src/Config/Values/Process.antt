-- ===== src/Config/Values/Process.antt =====
-- The function's command line.
use of_watchdog.Prelude.{All, String, subst, ◌∷◌, ◌≡◌}
use of_watchdog.Go.Strings.{join}
use of_watchdog.Go.Strings.Laws.{IsFree, join-split, split-IsFree, split-cases}
use of_watchdog.Config.Values.{process}

-- The executable and its arguments, joined by single spaces, are the configured command, and none
-- of them holds a space.
pub join-process :
    (fp : String)
    → (join " " ((process fp).0 ∷ (process fp).1) ≡ fp)
      × All (IsFree b' ') ((process fp).0 ∷ (process fp).1)
unfolding process
join-process fp =
    let (x, xs, e) = split-cases b' ' fp in
    rw e (
      subst (λ l. join " " l ≡ fp) e (join-split " " fp),
      subst (All (IsFree b' ')) e (split-IsFree b' ' fp),
    )
