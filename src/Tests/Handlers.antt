-- ===== src/Tests/Handlers.antt =====
-- The dispatcher of handlers on a small history.
use fitz_ts.Base.{◌≡◌, arith, List, [], ◌∷◌, ◌++◌, some, false}
use fitz_ts.Gates.Handlers.{Dispatcher, new_dispatcher, Event, dispatches, settles, run, accepted}
use fitz_ts.Gates.Handlers.Laws.{IsValid, run-new_dispatcher-IsValid}
use fitz_ts.Gates.Handlers.Order.{run-accepted}

abbrev events : List Event
events = dispatches 1 ∷ dispatches 2 ∷ dispatches 3 ∷ settles ∷ dispatches 4 ∷ []

run-new_dispatcher-IsValid_example : IsValid (run (new_dispatcher (some 1) (some 2)) events).0
run-new_dispatcher-IsValid_example = run-new_dispatcher-IsValid (some 1) (some 2) events

-- One task is active and one waits.
abbrev busy_dispatcher : Dispatcher
busy_dispatcher = record {
  concurrency = some 1;
  queue_capacity = some 2;
  active_count = 1;
  saturation_count = 0;
  closed = false;
  queue = 9 ∷ [];
}

busy_dispatcher-IsValid : IsValid busy_dispatcher
busy_dispatcher-IsValid = record {
  bounded = omega arith;
  short = omega arith;
  busy = λ h. ground arith;
  emptied = λ h. ground arith;
}

run-accepted_example :
    (run busy_dispatcher events).1 ++ (run busy_dispatcher events).0.queue
    ≡ (9 ∷ []) ++ accepted busy_dispatcher events
run-accepted_example = run-accepted busy_dispatcher events busy_dispatcher-IsValid (ground arith)
