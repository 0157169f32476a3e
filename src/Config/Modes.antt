-- ===== src/Config/Modes.antt =====
-- config/config_modes.go: the modes' numbers and names.
pub mod Laws
use of_watchdog.Prelude.{String, if◌then◌else◌, str_eq, ℕ, ◌==◌}

abbrev pub mode_streaming : ℕ
mode_streaming = 1

abbrev pub mode_serializing : ℕ
mode_serializing = 2

abbrev pub mode_after_burn : ℕ
mode_after_burn = 3

abbrev pub mode_http : ℕ
mode_http = 4

abbrev pub mode_static : ℕ
mode_static = 5

abbrev pub mode_inproc : ℕ
mode_inproc = 6

unfoldable pub watchdog_mode_const : String → ℕ
watchdog_mode_const mode =
    if str_eq mode "streaming"
    then mode_streaming
    else if str_eq mode "afterburn"
    then mode_after_burn
    else if str_eq mode "serializing"
    then mode_serializing
    else if str_eq mode "http"
    then mode_http
    else if str_eq mode "static"
    then mode_static
    else if str_eq mode "inproc"
    then mode_inproc
    else 0

unfoldable pub watchdog_mode : ℕ → String
watchdog_mode mode =
    if mode == mode_streaming
    then "streaming"
    else if mode == mode_after_burn
    then "afterburn"
    else if mode == mode_serializing
    then "serializing"
    else if mode == mode_http
    then "http"
    else if mode == mode_static
    then "static"
    else if mode == mode_inproc
    then "inproc"
    else "unknown"
