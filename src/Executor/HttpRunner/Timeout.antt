-- ===== src/Executor/HttpRunner/Timeout.antt =====
-- executor/http_runner.go, getTimeout.
pub mod Laws
use of_watchdog.Prelude.{Option, String, if◌then◌else◌, leb_ℤ, none, nonempty, some}
use of_watchdog.Go.Header
use of_watchdog.Go.Header.{Header}
use of_watchdog.Config.Values.{Duration}

module _ (parse_duration : String → Option Duration) where
  -- A timeout that is not above the default is taken from X-Timeout.
  abbrev at_most : Duration → Option Duration → Duration
  at_most default_timeout none = default_timeout
  at_most default_timeout (some dur) = if leb_ℤ dur default_timeout then dur else default_timeout

  unfoldable pub get_timeout : Header → Duration → Duration
  get_timeout h default_timeout =
      if nonempty (Header.get h "X-Timeout")
      then at_most default_timeout (parse_duration (Header.get h "X-Timeout"))
      else default_timeout
