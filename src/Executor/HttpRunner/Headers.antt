-- ===== src/Executor/HttpRunner/Headers.antt =====
-- executor/http_runner.go: the headers of the forwarded request, and which requests go through the
-- reverse proxy.
pub mod Laws
pub mod Proxy
use of_watchdog.Prelude.{Bool, [], str_eq, ◌||◌, ◌∷◌}
use of_watchdog.Go.Strings.{contains, to_lower}
use of_watchdog.Go.Header
use of_watchdog.Go.Header.{Header}

-- `copyHeaders`: each key of the source is assigned in the destination.
unfoldable pub copy_headers : Header → Header → Header
copy_headers destination [] = destination
copy_headers destination ((k, v) ∷ source) = copy_headers (Header.put destination k v) source

-- The loop of Run over the keys of the request's header, from `h` on.
unfoldable pub set_each : Header → Header → Header → Header
set_each all destination [] = destination
set_each all destination ((h, v) ∷ rest) =
    set_each all (Header.set destination h (Header.get all h)) rest

-- The header that the forwarded request is given, which starts empty.
unfoldable pub forwarded_header : Header → Header
unfolding set_each copy_headers
forwarded_header h = copy_headers (set_each h [] h) h

-- `requiresStdlibProxy`.
unfoldable pub requires_stdlib_proxy : Header → Bool
requires_stdlib_proxy h =
    let accept_header = to_lower (Header.get h "Accept") in
    contains accept_header "text/event-stream"
    || (contains accept_header "application/x-ndjson"
        || str_eq (Header.get h "Upgrade") "websocket")
