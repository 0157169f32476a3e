-- ===== src/Tests/Metrics.antt =====
-- Two requests at the same time, the first of which has entered the handler.
use of_watchdog.Prelude.{[], length, pos, refl, true, ◌∷◌, ◌≡◌, ◌≤◌}
use of_watchdog.Metrics.Http.{new_http, try_mark_first_request, observe_first_request_duration}
use of_watchdog.Metrics.Instrument.{
  idle, inside, State, Reach, start, later, step, mark, enter, here, inc, observed, count, time,
  handle, tally, observe,
}
use of_watchdog.Metrics.Instrument.Laws.{
  init, total, is_first, is_first_answered, times, Reach-exact, first_request_once,
}

abbrev entered : State
entered = record {
  metrics = inc (record new_http { first_request_recorded = 1 });
  threads = inside true ∷ idle ∷ [];
}

Reach-entered : Reach (init 2) entered
unfolding try_mark_first_request new_http
Reach-entered = later (later start (step (mark refl) here)) (step enter here)

-- The first request has been answered and counted, and its time observed.
abbrev answered : State
answered = record {
  metrics =
      observe_first_request_duration (pos 7)
        (count (200, "GET") (time (200, "GET") entered.metrics));
  threads = observed true (200, "GET") ∷ idle ∷ [];
}

Reach-answered : Reach (init 2) answered
Reach-answered =
    later (later (later Reach-entered (step (handle (200, "GET")) here)) (step tally here))
      (step (observe (pos 7)) here)

Reach-exact_example :
    (answered.metrics.in_flight ≡ 1)
    × (times (200, "GET") answered.metrics.request_duration_histogram ≡ 1)
    × (times (200, "GET") answered.metrics.requests_total ≡ 1)
Reach-exact_example = Reach-exact 2 answered (200, "GET") Reach-answered

first_request_once_example :
    (total is_first answered.threads ≤ 1)
    × (length answered.metrics.first_request_duration_histogram
        ≡ total is_first_answered answered.threads)
    × (length answered.metrics.first_request_duration_histogram ≤ 1)
first_request_once_example = first_request_once 2 answered Reach-answered
