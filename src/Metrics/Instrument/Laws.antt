-- ===== src/Metrics/Instrument/Laws.antt =====
-- What the metrics say in every reachable state.
use of_watchdog.Prelude.{
  Bool, List, [], arith, code, false, length, length-append, refl, str_eq, suc, sym, true, zero, ℕ,
  ◌&&◌, ◌++◌, ◌+◌, ◌==◌, ◌∷◌, ◌≡◌, ◌≤◌,
}
use of_watchdog.Metrics.Http.{
  Label, Http, new_http, try_mark_first_request, observe_first_request_duration,
}
use of_watchdog.Metrics.Instrument.{
  Thread, idle, marked, inside, timed, served, observed, done, died, time, Change, here, there, inc,
  dec, count, Move, mark, enter, handle, tally, panic, observe, pass, leave, State, Step, step,
  all_idle, Reach, start, later,
}

-- How many threads stand somewhere, each by its weight.
abbrev pub total : (Thread → ℕ) → List Thread → ℕ
total w [] = 0
total w (t ∷ l) = w t + total w l

total-Change :
    {a b : Thread} {l m : List Thread} (w : Thread → ℕ)
    → Change a b l m
    → total w m + w a ≡ total w l + w b
total-Change w here = omega arith
total-Change w (there c) = omega (arith, total-Change w c)

total-all_idle : (w : Thread → ℕ) (n : ℕ) → w idle ≡ 0 → total w (all_idle n) ≡ 0
total-all_idle w zero h = refl
total-all_idle w (suc n) h = omega (arith, h, total-all_idle w n h)

-- A request that is being handled: between the increment and the decrement.
abbrev pub is_inside : Thread → ℕ
is_inside (inside _) = 1
is_inside (timed _ _) = 1
is_inside (served _ _) = 1
is_inside (observed _ _) = 1
is_inside _ = 0

abbrev bit : Bool → ℕ
bit true = 1
bit false = 0

-- A request that has taken itself for the first, wherever it stands and even if it has panicked.
abbrev pub is_first : Thread → ℕ
is_first idle = 0
is_first (marked first) = bit first
is_first (inside first) = bit first
is_first (timed first _) = bit first
is_first (served first _) = bit first
is_first (observed first _) = bit first
is_first (done first _) = bit first
is_first (died first) = bit first

-- A first request that has been answered.
abbrev pub is_first_answered : Thread → ℕ
is_first_answered (observed first _) = bit first
is_first_answered (done first _) = bit first
is_first_answered _ = 0

abbrev pub same : Label → Label → ℕ
same (code, method) (code', method') = bit ((code == code') && str_eq method method')

-- A request whose handler has returned with this label, and one that was counted under it.
abbrev pub has_timed : Label → Thread → ℕ
has_timed l (timed _ k) = same l k
has_timed l (served _ k) = same l k
has_timed l (observed _ k) = same l k
has_timed l (done _ k) = same l k
has_timed l _ = 0

abbrev pub has_counted : Label → Thread → ℕ
has_counted l (served _ k) = same l k
has_counted l (observed _ k) = same l k
has_counted l (done _ k) = same l k
has_counted l _ = 0

-- How often a label is in a collector.
abbrev pub times : Label → List Label → ℕ
times l [] = 0
times l (k ∷ ks) = same l k + times l ks

times-snoc : (l k : Label) (ks : List Label) → times l (ks ++ k ∷ []) ≡ times l ks + same l k
times-snoc l k [] = omega arith
times-snoc l k (x ∷ ks) = omega (arith, times-snoc l k ks)

thread-le : (t : Thread) → is_first_answered t ≤ is_first t
thread-le idle = omega arith
thread-le (marked first) = omega arith
thread-le (inside first) = omega arith
thread-le (timed first label) = omega arith
thread-le (served first label) = omega arith
thread-le (observed first label) = omega arith
thread-le (done first label) = omega arith
thread-le (died first) = omega arith

is_first_answered-le : (ts : List Thread) → total is_first_answered ts ≤ total is_first ts
is_first_answered-le [] = omega arith
is_first_answered-le (t ∷ ts) = omega (arith, is_first_answered-le ts, thread-le t)

record Inv (l : Label) (s : State) : Type 0 where
  gauge : s.metrics.in_flight ≡ total is_inside s.threads
  counted : times l s.metrics.requests_total ≡ total (has_counted l) s.threads
  timings : times l s.metrics.request_duration_histogram ≡ total (has_timed l) s.threads
  once : total is_first s.threads ≡ s.metrics.first_request_recorded
  answered : length s.metrics.first_request_duration_histogram ≡ total is_first_answered s.threads
  flag : s.metrics.first_request_recorded ≤ 1

Move-Inv :
    {h h' : Http} {a b : Thread} {ts us : List Thread} (l : Label)
    → Move h a h' b
    → Change a b ts us
    → Inv l (record { metrics = h; threads = ts })
    → Inv l (record { metrics = h'; threads = us })
unfolding inc dec time count observe_first_request_duration try_mark_first_request
Move-Inv l (mark e) c i = record {
  gauge = ground (arith, total-Change is_inside c, i.gauge);
  counted = ground (arith, total-Change (has_counted l) c, i.counted);
  timings = ground (arith, total-Change (has_timed l) c, i.timings);
  once = ground (arith, total-Change is_first c, i.once, i.flag);
  answered = ground (arith, total-Change is_first_answered c, i.answered);
  flag = ground (arith, i.flag);
}
Move-Inv l enter c i = record {
  gauge = omega (arith, total-Change is_inside c, i.gauge);
  counted = omega (arith, total-Change (has_counted l) c, i.counted);
  timings = omega (arith, total-Change (has_timed l) c, i.timings);
  once = omega (arith, total-Change is_first c, i.once);
  answered = omega (arith, total-Change is_first_answered c, i.answered);
  flag = i.flag;
}
Move-Inv l (handle label) c i = record {
  gauge = omega (arith, total-Change is_inside c, i.gauge);
  counted = omega (arith, total-Change (has_counted l) c, i.counted);
  timings = omega (arith, total-Change (has_timed l) c, i.timings, times-snoc l label _);
  once = omega (arith, total-Change is_first c, i.once);
  answered = omega (arith, total-Change is_first_answered c, i.answered);
  flag = i.flag;
}
Move-Inv l (tally {label = label}) c i = record {
  gauge = omega (arith, total-Change is_inside c, i.gauge);
  counted = omega (arith, total-Change (has_counted l) c, i.counted, times-snoc l label _);
  timings = omega (arith, total-Change (has_timed l) c, i.timings);
  once = omega (arith, total-Change is_first c, i.once);
  answered = omega (arith, total-Change is_first_answered c, i.answered);
  flag = i.flag;
}
Move-Inv l panic c i = record {
  gauge = omega (arith, total-Change is_inside c, i.gauge);
  counted = omega (arith, total-Change (has_counted l) c, i.counted);
  timings = omega (arith, total-Change (has_timed l) c, i.timings);
  once = omega (arith, total-Change is_first c, i.once);
  answered = omega (arith, total-Change is_first_answered c, i.answered);
  flag = i.flag;
}
Move-Inv l (observe duration) c i = record {
  gauge = omega (arith, total-Change is_inside c, i.gauge);
  counted = omega (arith, total-Change (has_counted l) c, i.counted);
  timings = omega (arith, total-Change (has_timed l) c, i.timings);
  once = omega (arith, total-Change is_first c, i.once);
  answered =
      omega
        (arith, total-Change is_first_answered c, i.answered, length-append {0} _ (duration ∷ []));
  flag = i.flag;
}
Move-Inv l pass c i = record {
  gauge = omega (arith, total-Change is_inside c, i.gauge);
  counted = omega (arith, total-Change (has_counted l) c, i.counted);
  timings = omega (arith, total-Change (has_timed l) c, i.timings);
  once = omega (arith, total-Change is_first c, i.once);
  answered = omega (arith, total-Change is_first_answered c, i.answered);
  flag = i.flag;
}
Move-Inv l leave c i = record {
  gauge = omega (arith, total-Change is_inside c, i.gauge);
  counted = omega (arith, total-Change (has_counted l) c, i.counted);
  timings = omega (arith, total-Change (has_timed l) c, i.timings);
  once = omega (arith, total-Change is_first c, i.once);
  answered = omega (arith, total-Change is_first_answered c, i.answered);
  flag = i.flag;
}

Step-Inv : {s t : State} (l : Label) → Step s t → Inv l s → Inv l t
Step-Inv l (step mv c) i = Move-Inv l mv c i

abbrev pub init : ℕ → State
init n = record { metrics = new_http; threads = all_idle n }

Reach-Inv : (n : ℕ) (l : Label) {s : State} → Reach (init n) s → Inv l s
unfolding new_http
Reach-Inv n l start = record {
  gauge = sym (total-all_idle is_inside n refl);
  counted = sym (total-all_idle (has_counted l) n refl);
  timings = sym (total-all_idle (has_timed l) n refl);
  once = total-all_idle is_first n refl;
  answered = sym (total-all_idle is_first_answered n refl);
  flag = omega arith;
}
Reach-Inv n l (later r st) = Step-Inv l st (Reach-Inv n l r)

-- Whatever the interleaving and whichever handlers panic, the gauge is the number of requests that
-- are between its increment and its decrement. Of every label, the histogram has as many timings as
-- handlers have returned with it, and the counter as many requests as have gone on from there to be
-- counted; a request whose handler has panicked is in neither.
pub Reach-exact :
    (n : ℕ) (s : State) (l : Label)
    → Reach (init n) s
    → (s.metrics.in_flight ≡ total is_inside s.threads)
      × (times l s.metrics.request_duration_histogram ≡ total (has_timed l) s.threads)
      × (times l s.metrics.requests_total ≡ total (has_counted l) s.threads)
Reach-exact n s l r = let i = Reach-Inv n l r in (i.gauge, i.timings, i.counted)

-- Whatever the interleaving and whichever handlers panic, at most one of all requests ever takes
-- itself for the first, and the durations of first requests that were observed are as many as first
-- requests that have been answered, which is at most one.
pub first_request_once :
    (n : ℕ) (s : State)
    → Reach (init n) s
    → (total is_first s.threads ≤ 1)
      × (length s.metrics.first_request_duration_histogram ≡ total is_first_answered s.threads)
      × (length s.metrics.first_request_duration_histogram ≤ 1)
first_request_once n s r =
    let i = Reach-Inv n (200, "GET") r in
    (
      omega (arith, i.once, i.flag),
      i.answered,
      omega (arith, i.once, i.flag, i.answered, is_first_answered-le s.threads),
    )
