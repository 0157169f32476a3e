-- ===== src/Watchdog/Lock/Laws.antt =====
-- The lock file and the health of the service.
use of_watchdog.Prelude.{Option, arith, inl, inr, none, refl, some, true, ◌≡◌, ◌≢◌, ◌⊎◌}
use of_watchdog.Go.Http.{Error}
use of_watchdog.Watchdog.Lock.{World, lock_file_present, create_lock_file, mark_unhealthy}

-- The service takes requests: the flag is set and the lock file is there.
abbrev pub IsUp : World → Type 0
IsUp s = (s.accepting_connections ≢ 0) × (lock_file_present s ≡ true)

-- Creating the lock file succeeds exactly when making the directory and writing the file do; then
-- the service is up, and otherwise nothing has changed.
pub create_lock_file-IsUp :
    (mkdir write : Option Error) (w : World)
    → (((create_lock_file mkdir write w).1 ≡ none) × IsUp (create_lock_file mkdir write w).0)
      ⊎ (((create_lock_file mkdir write w).1 ≢ none) × ((create_lock_file mkdir write w).0 ≡ w))
unfolding create_lock_file lock_file_present
create_lock_file-IsUp (some e) write w = inr ((λ h. cc), refl)
create_lock_file-IsUp none (some e) w = inr ((λ h. cc), refl)
create_lock_file-IsUp none none w = inl (ground arith)

-- After markUnhealthy the service is not up, whether or not the file can be removed.
pub mark_unhealthy-down : (remove : Option Error) (w : World) → ¬ IsUp (mark_unhealthy remove w).0
unfolding mark_unhealthy
mark_unhealthy-down remove w = ground arith
