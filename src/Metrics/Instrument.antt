-- ===== src/Metrics/Instrument.antt =====
-- metrics/metrics.go, InstrumentHandler: the requests that run at the same time, each as a thread
-- that goes through the handler's statements one at a time.
pub mod Laws
use of_watchdog.Prelude.{Bool, List, [], false, suc, true, zero, ℕ, ◌++◌, ◌+◌, ◌-◌, ◌∷◌, ◌≡◌}
use of_watchdog.Config.Values.{Duration}
use of_watchdog.Metrics.Http.{Label, Http, try_mark_first_request, observe_first_request_duration}

-- Where a request stands; the boolean is `firstRequest`, which every request keeps, and the label is
-- the one with which its handler has returned.
pub data Thread : Type 0 where
  idle : Thread
  marked : Bool → Thread
  inside : Bool → Thread
  timed : Bool → Label → Thread
  served : Bool → Label → Thread
  observed : Bool → Label → Thread
  done : Bool → Label → Thread
  died : Bool → Thread

-- One thread of the list goes from `a` to `b`.
pub data Change (a b : Thread) : List Thread → List Thread → Type 0 where
  here : {l : List Thread} → Change a b (a ∷ l) (b ∷ l)
  there : {c : Thread} {l m : List Thread} → Change a b l m → Change a b (c ∷ l) (c ∷ m)

unfoldable pub inc : Http → Http
inc h = record h { in_flight = h.in_flight + 1 }

unfoldable pub dec : Http → Http
dec h = record h { in_flight = h.in_flight - 1 }

-- `next` has returned to `InstrumentHandlerDuration`, the inner of the two wrappers.
unfoldable pub time : Label → Http → Http
time label h = record h { request_duration_histogram = h.request_duration_histogram ++ label ∷ [] }

-- That has returned to `InstrumentHandlerCounter`, the outer one.
unfoldable pub count : Label → Http → Http
count label h = record h { requests_total = h.requests_total ++ label ∷ [] }

-- A statement of one request: what it makes of the metrics and of the request.
pub data Move (h : Http) : Thread → Http → Thread → Type 0 where
  mark :
      {h' : Http} {first : Bool}
      → try_mark_first_request h ≡ (h', first)
      → Move h idle h' (marked first)
  enter : {first : Bool} → Move h (marked first) (inc h) (inside first)
  handle : {first : Bool} (label : Label) → Move h (inside first) (time label h) (timed first label)
  tally :
      {first : Bool} {label : Label}
      → Move h (timed first label) (count label h) (served first label)
  -- The handler panics, and only the deferred decrement is run.
  panic : {first : Bool} → Move h (inside first) (dec h) (died first)
  observe :
      {label : Label} (duration : Duration)
      → Move h (served true label) (observe_first_request_duration duration h) (observed true label)
  pass : {label : Label} → Move h (served false label) h (observed false label)
  leave : {first : Bool} {label : Label} → Move h (observed first label) (dec h) (done first label)

pub record State : Type 0 where
  pub metrics : Http
  pub threads : List Thread

pub data Step : State → State → Type 0 where
  step :
      {h h' : Http} {a b : Thread} {l m : List Thread}
      → Move h a h' b
      → Change a b l m
      → Step (record { metrics = h; threads = l }) (record { metrics = h'; threads = m })

-- Any number of requests, none of them begun.
abbrev pub all_idle : ℕ → List Thread
all_idle zero = []
all_idle (suc n) = idle ∷ all_idle n

pub data Reach (s : State) : State → Type 0 where
  start : Reach s s
  later : {t u : State} → Reach s t → Step t u → Reach s u
