-- ===== src/Tests/Forwarding.antt =====
-- The HTTP runner with a network that answers every request with 201.
use of_watchdog.Go.Strings.{contains, to_lower}
use of_watchdog.Prelude.{
  Option, String, [], false, if◌then◌else◌, none, pos, refl, some, str_eq, true, ◌∷◌, ◌≡◌, ◌≤ℤ◌,
  ◌⊎◌,
}
use of_watchdog.Go.Header.{find, canonical_key, get}
use of_watchdog.Go.Http.{Request}
use of_watchdog.Config.Values.{Duration}
use of_watchdog.Executor.Base.{deadline}
use of_watchdog.Executor.HttpRunner.Headers.{forwarded_header, requires_stdlib_proxy}
use of_watchdog.Executor.HttpRunner.Headers.Laws.{find-forwarded_header}
use of_watchdog.Executor.HttpRunner.Headers.Proxy.{IsStreamed}
use of_watchdog.Executor.HttpRunner.Run.Routing.{IsProxied, run-routed}
use of_watchdog.Executor.HttpRunner.Timeout.{get_timeout}
use of_watchdog.Executor.HttpRunner.Timeout.Laws.{get_timeout-le, get_timeout-unlimited}
use of_watchdog.Executor.HttpRunner.Run.{
  HttpFunctionRunner, Response, Reply, failed, Network, run, replied,
}
use of_watchdog.Executor.HttpRunner.Run.Laws.{run-drained}
use of_watchdog.Tests.Config.{parse_duration}
use of_watchdog.Tests.Requests.{header, request, writer}

abbrev created : Response
created = record {
  status_code = 201;
  status = "201 Created";
  header = ("Content-Type", "text/plain" ∷ []) ∷ [];
  content_length = pos 2;
  body = some (111 ∷ 107 ∷ []);
  copied = none;
}

abbrev network : Reply → Network
network reply = record {
  parse_duration = parse_duration;
  new_request_error = λ method url. none;
  client_do = λ out. reply;
  proxy = λ r w. record w { body = r.body };
  idle = (0, 0);
  ended = "context canceled";
}

abbrev runner : HttpFunctionRunner
runner = record {
  exec_timeout = pos 5_000_000_000;
  process = "node";
  process_args = [];
  upstream_url = "http://127.0.0.1:3000";
  buffer_http_body = false;
  log_prefix = false;
  log_buffer_size = pos 64;
  log_call_id = false;
}

abbrev late : Reply
late = failed "timeout" (some "context deadline exceeded")

abbrev buffering : HttpFunctionRunner
buffering = record runner { buffer_http_body = true }

abbrev events : Request
events = record request { header = ("Accept", "text/event-stream" ∷ []) ∷ [] }

run-drained_example :
    run (network late) buffering "0.1" (record events { body = 1 ∷ [] }) writer
    ≡ run (network late) buffering "0.1" (record events { body = []; body_error = none }) writer
unfolding requires_stdlib_proxy contains to_lower get canonical_key
run-drained_example = run-drained (network late) buffering "0.1" events writer (1 ∷ []) refl refl

find-forwarded_header_example : find (forwarded_header header) "X-Timeout" ≡ some ("2s" ∷ [])
unfolding find canonical_key
find-forwarded_header_example =
    find-forwarded_header header "X-Timeout" (refl, (refl, tt)) (refl, (refl, tt))

get_timeout-le_example : get_timeout parse_duration header (pos 5_000_000_000) ≤ℤ pos 5_000_000_000
get_timeout-le_example = get_timeout-le parse_duration header (pos 5_000_000_000)

abbrev zero_duration : String → Option Duration
zero_duration s = if str_eq s "0s" then some (pos 0) else none

get_timeout-unlimited_example :
    deadline (get_timeout zero_duration (("X-Timeout", "0s" ∷ []) ∷ []) (pos 5)) ≡ none
unfolding get canonical_key
get_timeout-unlimited_example =
    get_timeout-unlimited zero_duration (("X-Timeout", "0s" ∷ []) ∷ []) (pos 5) (pos 0) refl refl
      refl refl

run-routed_example :
    (IsStreamed events.header
      × IsProxied (network (replied created)) runner "0.1" events writer refl refl)
    ⊎ ((¬ IsStreamed events.header)
        × (run (network (replied created)) runner "0.1" events writer
            ≡ run (network (replied created)) runner "0.1" events writer))
run-routed_example =
    run-routed (network (replied created)) runner "0.1" events writer refl refl
      (λ r w. record w { body = r.body })
