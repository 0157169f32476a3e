-- ===== src/Config/Modes/Laws.antt =====
-- Names and numbers of the modes correspond.
use of_watchdog.Prelude.{String, arith, eq_iff, refl, suc, zero, ℕ, ◌≡◌, ◌≢◌, ◌≤◌}
use of_watchdog.Config.Modes.{watchdog_mode_const, watchdog_mode}

-- A name that is read as a number other than 0 is the name that this number is written as.
pub watchdog_mode-watchdog_mode_const :
    (s : String) → watchdog_mode_const s ≢ 0 → watchdog_mode (watchdog_mode_const s) ≡ s
unfolding watchdog_mode_const watchdog_mode
watchdog_mode-watchdog_mode_const s h = ground (
  arith,
  eq_iff s "streaming",
  eq_iff s "afterburn",
  eq_iff s "serializing",
  eq_iff s "http",
  eq_iff s "static",
  eq_iff s "inproc",
)

-- Each of the numbers 1 to 6 is written as a name that is read as the same number.
pub watchdog_mode_const-watchdog_mode :
    (m : ℕ) → 1 ≤ m → m ≤ 6 → watchdog_mode_const (watchdog_mode m) ≡ m
unfolding watchdog_mode_const watchdog_mode
watchdog_mode_const-watchdog_mode zero h k = absurd (omega arith)
watchdog_mode_const-watchdog_mode (suc zero) h k = refl
watchdog_mode_const-watchdog_mode (suc (suc zero)) h k = refl
watchdog_mode_const-watchdog_mode (suc (suc (suc zero))) h k = refl
watchdog_mode_const-watchdog_mode (suc (suc (suc (suc zero)))) h k = refl
watchdog_mode_const-watchdog_mode (suc (suc (suc (suc (suc zero))))) h k = refl
watchdog_mode_const-watchdog_mode (suc (suc (suc (suc (suc (suc zero)))))) h k = refl
watchdog_mode_const-watchdog_mode (suc (suc (suc (suc (suc (suc (suc m))))))) h k =
    absurd (omega arith)

pub watchdog_mode_const-le : (s : String) → watchdog_mode_const s ≤ 6
unfolding watchdog_mode_const
watchdog_mode_const-le s = ground arith
