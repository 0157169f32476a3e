-- ===== src/Executor/HttpRunner/Timeout/Laws.antt =====
-- The timeout of a request.
use of_watchdog.Prelude.{
  Option, String, arith, false, is_positive, none, nonempty, some, true, ◌≡◌, ◌≤ℤ◌,
}
use of_watchdog.Go.Header
use of_watchdog.Go.Header.{Header}
use of_watchdog.Config.Values.{Duration}
use of_watchdog.Executor.Base.{deadline}
use of_watchdog.Executor.HttpRunner.Timeout.{get_timeout}

module _ (parse_duration : String → Option Duration) (h : Header) (default_timeout : Duration) where
  -- The timeout of a request is never above the configured one.
  pub get_timeout-le : get_timeout parse_duration h default_timeout ≤ℤ default_timeout
  unfolding get_timeout
  get_timeout-le = ground arith

  -- Where the configured timeout sets a deadline, a request whose X-Timeout is a duration of 0 or
  -- less has no deadline at all.
  pub get_timeout-unlimited :
      (dur : Duration)
      → nonempty (Header.get h "X-Timeout") ≡ true
      → parse_duration (Header.get h "X-Timeout") ≡ some dur
      → is_positive dur ≡ false
      → is_positive default_timeout ≡ true
      → deadline (get_timeout parse_duration h default_timeout) ≡ none
  unfolding get_timeout
  get_timeout-unlimited dur given parsed low high = ground arith
