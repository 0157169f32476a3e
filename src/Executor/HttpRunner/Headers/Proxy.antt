-- ===== src/Executor/HttpRunner/Headers/Proxy.antt =====
-- The headers of the requests that go through the reverse proxy.
use of_watchdog.Prelude.{arith, eq_iff, true, ◌↔◌, ◌≡◌, ◌⊎◌}
use of_watchdog.Go.Strings.{to_lower}
use of_watchdog.Go.Strings.Parts.{IsPart, contains_iff}
use of_watchdog.Go.Header
use of_watchdog.Go.Header.{Header}
use of_watchdog.Executor.HttpRunner.Headers.{requires_stdlib_proxy}

-- The Accept header, in lower case, holds "text/event-stream" or "application/x-ndjson" somewhere, or
-- the Upgrade header is "websocket".
abbrev pub IsStreamed : Header → Type 0
IsStreamed h =
    IsPart "text/event-stream" (to_lower (Header.get h "Accept"))
    ⊎ IsPart "application/x-ndjson" (to_lower (Header.get h "Accept"))
    ⊎ (Header.get h "Upgrade" ≡ "websocket")

pub requires_stdlib_proxy_iff : (h : Header) → (requires_stdlib_proxy h ≡ true) ↔ IsStreamed h
unfolding requires_stdlib_proxy
requires_stdlib_proxy_iff h = ground (
  arith,
  contains_iff (to_lower (Header.get h "Accept")) "text/event-stream",
  contains_iff (to_lower (Header.get h "Accept")) "application/x-ndjson",
  eq_iff (Header.get h "Upgrade") "websocket",
)
