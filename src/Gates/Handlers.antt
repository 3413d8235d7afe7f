-- ===== src/Gates/Handlers.antt =====
-- src/client/internal/async-handler-dispatcher.ts: handlers of notifications, at most so many at a
-- time, and a queue of tasks. A task is its number. `none` stands for `Infinity`, the metrics are
-- the state's fields, and the report of a handler's timeout changes no state.
pub mod Laws
pub mod Order
use fitz_ts.Base.{
  ℕ, ◌+◌, ◌-◌, max, List, [], ◌∷◌, ◌++◌, Option, some, none, Bool, true, false, leb, ltb,
  if◌then◌else◌, length,
}

pub record Dispatcher : Type 0 where
  pub concurrency : Option ℕ
  pub queue_capacity : Option ℕ
  pub active_count : ℕ
  pub saturation_count : ℕ
  pub closed : Bool
  pub queue : List ℕ

abbrev at_least_one : Option ℕ → Option ℕ
at_least_one none = none
at_least_one (some n) = some (max 1 n)

-- `createAsyncHandlerDispatcher`, where the numbers have been rounded down.
unfoldable pub new_dispatcher : Option ℕ → Option ℕ → Dispatcher
new_dispatcher max_concurrency queue_capacity = record {
  concurrency = at_least_one max_concurrency;
  queue_capacity = queue_capacity;
  active_count = 0;
  saturation_count = 0;
  closed = false;
  queue = [];
}

-- `n < limit`
abbrev pub below : ℕ → Option ℕ → Bool
below n none = true
below n (some limit) = ltb n limit

-- `run()` starts the task, in an open dispatcher.
abbrev pub start : Dispatcher → Dispatcher
start d = record d { active_count = d.active_count + 1 }

-- The tasks that a call starts come second, and what `dispatch` returns third.
unfoldable pub dispatch : Dispatcher → ℕ → Dispatcher × List ℕ × Bool
dispatch d task =
    if d.closed
    then (d, [], false)
    else if below d.active_count d.concurrency
    then (start d, task ∷ [], true)
    else if below (length d.queue) d.queue_capacity
    then (record d { queue = d.queue ++ task ∷ [] }, [], true)
    else (record d { saturation_count = d.saturation_count + 1 }, [], false)

-- The loop of `flush` in an open dispatcher.
unfoldable pub flush_loop : Dispatcher → List ℕ → Dispatcher × List ℕ
flush_loop d [] = (record d { queue = [] }, [])
flush_loop d (task ∷ queue) =
    let rest = flush_loop (start d) queue in
    if below d.active_count d.concurrency
    then (rest.0, task ∷ rest.1)
    else (record d { queue = task ∷ queue }, [])

unfoldable pub flush : Dispatcher → Dispatcher × List ℕ
flush d = if d.closed then (record d { queue = [] }, []) else flush_loop d d.queue

-- A task that was started has settled.
unfoldable pub settle : Dispatcher → Dispatcher × List ℕ
settle d = flush (record d { active_count = d.active_count - 1 })

unfoldable pub close : Dispatcher → Dispatcher
close d = record d { closed = true; queue = [] }

pub data Event : Type 0 where
  dispatches : ℕ → Event
  settles closes : Event

-- The dispatcher after an event, and the tasks that it starts.
unfoldable pub step : Dispatcher → Event → Dispatcher × List ℕ
step d (dispatches task) = ((dispatch d task).0, (dispatch d task).1)
step d settles = settle d
step d closes = (close d, [])

unfoldable pub run : Dispatcher → List Event → Dispatcher × List ℕ
run d [] = (d, [])
run d (e ∷ es) = let rest = run (step d e).0 es in (rest.0, (step d e).1 ++ rest.1)

-- The tasks that `dispatch` takes, in order.
unfoldable pub accepted : Dispatcher → List Event → List ℕ
accepted d [] = []
accepted d (dispatches task ∷ es) =
    let rest = accepted (step d (dispatches task)).0 es in
    if (dispatch d task).2 then task ∷ rest else rest
accepted d (settles ∷ es) = accepted (step d settles).0 es
accepted d (closes ∷ es) = accepted (step d closes).0 es
