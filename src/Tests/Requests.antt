-- ===== src/Tests/Requests.antt =====
-- A request, its header, and a response writer that nothing was written to.
use of_watchdog.Prelude.{[], none, pos, true, ◌∷◌}
use of_watchdog.Go.Header.{Header}
use of_watchdog.Go.Http.{Request, Writer}

abbrev pub header : Header
header = ("Accept", "text/plain" ∷ []) ∷ ("X-Timeout", "2s" ∷ []) ∷ []

abbrev pub request : Request
request = record {
  method = "GET";
  request_uri = "/items?id=1";
  scheme = "http";
  url_host = "localhost";
  path = "/items";
  raw_query = "id=1";
  host = "localhost";
  header = header;
  transfer_encoding = [];
  content_length = pos 2;
  has_body = true;
  body = 104 ∷ 105 ∷ [];
  body_error = none;
}

abbrev pub writer : Writer
writer = record { header = []; sent = none; body = [] }

abbrev pub probe : Request
probe = record request { path = "/_/ready"; request_uri = "/_/ready" }
