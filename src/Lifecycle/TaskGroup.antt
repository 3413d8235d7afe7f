-- ===== src/Lifecycle/TaskGroup.antt =====
-- src/core/task-group.ts. The microtasks that run between two turns are the events: the promise of
-- one iteration settles, and the `finally` of a worker that has returned.
pub mod Phases
pub mod Failures
use fitz_ts.Base.{
  ℕ, zero, suc, ◌+◌, List, [], ◌∷◌, Option, some, none, Bool, true, false, not, ◌&&◌, ◌||◌, ltb,
  ◌==◌, if◌then◌else◌,
}

pub data TaskGroupStatus : Type 0 where
  idle running stopping stopped failed : TaskGroupStatus

pub data TaskGroupErrorPolicy : Type 0 where
  stop_group restart_task ignore : TaskGroupErrorPolicy

-- What a worker throws: whether it is an AbortError, and whether JavaScript takes it for true.
pub record Thrown : Type 0 where
  pub value : ℕ
  pub is_abort_error : Bool
  pub truthy : Bool

-- The deferred of `completion`; `absent` is null.
pub data Completion : Type 0 where
  absent waiting resolved : Completion
  rejected : Thrown → Completion

-- `returned`: runWorker has returned, and the `finally` of its promise is still to run.
pub record Worker : Type 0 where
  pub index : ℕ
  pub returned : Bool

-- `controller` is whether its signal is aborted, or null.
pub record TaskGroup : Type 0 where
  pub concurrency : ℕ
  pub error_policy : TaskGroupErrorPolicy
  pub status : TaskGroupStatus
  pub controller : Option Bool
  pub completion : Completion
  pub error : Option Thrown
  pub tasks : List Worker

abbrev pub new_task_group : ℕ → TaskGroupErrorPolicy → TaskGroup
new_task_group concurrency error_policy = record {
  concurrency = concurrency;
  error_policy = error_policy;
  status = idle;
  controller = none;
  completion = absent;
  error = none;
  tasks = [];
}

unfoldable pub create_task_group : ℕ → TaskGroupErrorPolicy → Option TaskGroup
create_task_group concurrency error_policy =
    if ltb concurrency 1 then none else some (new_task_group concurrency error_policy)

abbrev pub ensure_completion : Completion → Completion
ensure_completion absent = waiting
ensure_completion c = c

-- A deferred is settled once.
abbrev pub settle : Completion → Completion → Completion
settle outcome absent = outcome
settle outcome waiting = outcome
settle outcome resolved = resolved
settle outcome (rejected e) = rejected e

abbrev pub is_live : TaskGroupStatus → Bool
is_live running = true
is_live stopping = true
is_live _ = false

unfoldable pub complete_stopped : TaskGroup → TaskGroup
complete_stopped g = record g { status = stopped; completion = settle resolved g.completion }

unfoldable pub complete_failed : TaskGroup → Thrown → TaskGroup
complete_failed g e = record g {
  status = failed;
  error = some e;
  completion = settle (rejected e) g.completion;
}

abbrev pub finish_without : TaskGroup → TaskGroup
finish_without g = if is_live g.status then complete_stopped g else g

abbrev pub finish_with : TaskGroup → Option Thrown → TaskGroup
finish_with g none = finish_without g
finish_with g (some e) = if e.truthy then complete_failed g e else finish_without g

-- `maybeFinish`, on `tasks`.
unfoldable pub maybe_finish : TaskGroup → List Worker → TaskGroup
maybe_finish g [] = finish_with g g.error
maybe_finish g (w ∷ ws) = g

abbrev pub abort : Option Bool → Option Bool
abort none = none
abort (some aborted) = some true

abbrev pub should_restart : TaskGroupStatus → Option Bool → Bool
should_restart running (some true) = false
should_restart running _ = true
should_restart _ _ = false

-- The `catch` of runWorker while the group is not stopping: whether the worker goes on.
unfoldable pub catch_error : TaskGroup → Thrown → TaskGroupErrorPolicy → TaskGroup × Bool
catch_error g e stop_group =
    (record g { error = some e; status = stopping; controller = abort g.controller }, false)
catch_error g e restart_task = (g, should_restart g.status g.controller)
catch_error g e ignore = (g, false)

abbrev pub is_stopping : TaskGroupStatus → Bool
is_stopping stopping = true
is_stopping _ = false

unfoldable pub iteration_failed : TaskGroup → Thrown → TaskGroup × Bool
iteration_failed g e =
    if e.is_abort_error || is_stopping g.status then (g, false) else catch_error g e g.error_policy

unfoldable pub has_worker : ℕ → Bool → List Worker → Bool
has_worker k returned [] = false
has_worker k false (w ∷ ws) = (w.index == k && not w.returned) || has_worker k false ws
has_worker k true (w ∷ ws) = (w.index == k && w.returned) || has_worker k true ws

unfoldable pub mark_returned : ℕ → List Worker → List Worker
mark_returned k [] = []
mark_returned k (w ∷ ws) =
    if w.index == k && not w.returned
    then record w { returned = true } ∷ ws
    else w ∷ mark_returned k ws

-- `tasks.delete(promise)`
unfoldable pub remove_returned : ℕ → List Worker → List Worker
remove_returned k [] = []
remove_returned k (w ∷ ws) = if w.index == k && w.returned then ws else w ∷ remove_returned k ws

abbrev pub return_worker : TaskGroup → ℕ → TaskGroup
return_worker g k = record g { tasks = mark_returned k g.tasks }

abbrev pub go_on : ℕ → TaskGroup × Bool → TaskGroup
go_on k (g, true) = g
go_on k (g, false) = return_worker g k

-- The promise of `run` of worker `k` is resolved, or rejected with an error.
unfoldable pub iteration : TaskGroup → ℕ → Option Thrown → TaskGroup
iteration g k none = return_worker g k
iteration g k (some e) = go_on k (iteration_failed g e)

unfoldable pub worker_ended : TaskGroup → ℕ → TaskGroup
worker_ended g k = let ws = remove_returned k g.tasks in maybe_finish (record g { tasks = ws }) ws

abbrev pub workers : ℕ → List Worker
workers zero = []
workers (suc n) = record { index = n; returned = false } ∷ workers n

-- The end of `start`, with the deferred that it goes on with.
abbrev pub started : TaskGroup → Completion → TaskGroup
started g completion = record g {
  controller = some false;
  completion = completion;
  error = none;
  status = running;
  tasks = workers g.concurrency;
}

-- `start`: `none` is that it throws.
abbrev pub start_from : TaskGroupStatus → TaskGroup → Option TaskGroup
start_from running g = none
start_from stopping g = none
start_from failed g = none
start_from stopped g = some (started g waiting)
start_from idle g = some (started g (ensure_completion g.completion))

unfoldable pub start : TaskGroup → Option TaskGroup
start g = start_from g.status g

abbrev pub stop_from : TaskGroupStatus → TaskGroup → TaskGroup
stop_from idle g = record g { status = stopped; completion = settle resolved g.completion }
stop_from running g = record g {
  status = stopping;
  controller = abort g.controller;
  completion = ensure_completion g.completion;
}
stop_from _ g = record g { completion = ensure_completion g.completion }

-- `stop` and `dispose`; what they return is the promise of the completion.
unfoldable pub stop : TaskGroup → TaskGroup
stop g = stop_from g.status g

unfoldable pub join : TaskGroup → TaskGroup
join g = record g { completion = ensure_completion g.completion }

pub data Event : Type 0 where
  starts stops joins : Event
  iterates : (worker : ℕ) → Option Thrown → Event
  ends : (worker : ℕ) → Event

abbrev pub or_same : TaskGroup → Option TaskGroup → TaskGroup
or_same g none = g
or_same g (some g') = g'

-- A promise settles only for a worker that waits for it.
unfoldable pub step : TaskGroup → Event → TaskGroup
step g starts = or_same g (start g)
step g stops = stop g
step g joins = join g
step g (iterates k r) = if has_worker k false g.tasks then iteration g k r else g
step g (ends k) = if has_worker k true g.tasks then worker_ended g k else g

unfoldable pub run : TaskGroup → List Event → TaskGroup
run g [] = g
run g (e ∷ es) = run (step g e) es
