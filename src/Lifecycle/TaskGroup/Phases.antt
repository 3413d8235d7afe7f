-- ===== src/Lifecycle/TaskGroup/Phases.antt =====
-- src/core/task-group.ts: what holds of a group in each of its states, and how the state changes.
use mathlib.Core.Path.{subst}
use fitz_ts.Base.{
  ℕ, zero, suc, ◌<◌, ◌≡◌, refl, sym, ap, List, [], ◌∷◌, length, Option, some, none, Bool, true,
  false, ◌||◌, arith, Bool-cases, inl, inr,
}
use fitz_ts.Lifecycle.TaskGroup.{
  TaskGroupStatus, idle, running, stopping, stopped, failed, TaskGroupErrorPolicy, stop_group,
  restart_task, ignore, Thrown, Completion, absent, waiting, resolved, rejected, Worker, TaskGroup,
  new_task_group, create_task_group, ensure_completion, settle, is_live, complete_stopped,
  complete_failed, finish_without, finish_with, maybe_finish, abort, should_restart, catch_error,
  is_stopping, iteration_failed, has_worker, mark_returned, remove_returned, return_worker, go_on,
  iteration, worker_ended, workers, started, start_from, start, stop_from, stop, join, Event,
  starts, stops, joins, iterates, ends, or_same, step, run,
}

abbrev pub IsOpen : Completion → Type 0
IsOpen absent = Unit {0}
IsOpen waiting = Unit {0}
IsOpen _ = ⊥

-- A group that has not started, or has ended, has no worker; in all other states it has one, and
-- its completion waits. The completion of a group that has ended is settled accordingly.
abbrev pub Phase : TaskGroupStatus → TaskGroup → Type 0
Phase idle g = (g.tasks ≡ []) × IsOpen g.completion
Phase running g =
    (0 < length g.tasks) × (g.completion ≡ waiting) × (g.controller ≡ some false) × (g.error ≡ none)
Phase stopping g = (0 < length g.tasks) × (g.completion ≡ waiting) × (g.controller ≡ some true)
Phase stopped g = (g.tasks ≡ []) × (g.completion ≡ resolved)
Phase failed g = (g.tasks ≡ []) × ((e : Thrown) × (g.completion ≡ rejected e))

pub record IsValid (g : TaskGroup) : Type 0 where
  pub some_workers : 0 < g.concurrency
  pub phase : Phase g.status g

-- How the status may change in one step.
pub data Edge : TaskGroupStatus → TaskGroupStatus → Type 0 where
  same : {s : TaskGroupStatus} → Edge s s
  begin : Edge idle running
  skip : Edge idle stopped
  wind_down : Edge running stopping
  finish : Edge running stopped
  finish_stopping : Edge stopping stopped
  fail : Edge stopping failed
  again : Edge stopped running

length-workers : (n : ℕ) → length (workers n) ≡ n
length-workers zero = refl
length-workers (suc n) = omega (arith, length-workers n)

length-mark_returned : (k : ℕ) (ws : List Worker) → length (mark_returned k ws) ≡ length ws
unfolding mark_returned
length-mark_returned k [] = refl
length-mark_returned k (w ∷ ws) = ground (arith, length-mark_returned k ws)

-- A group in the same phase, after the calls that change nothing else.
abbrev Kept : TaskGroup → TaskGroup → Type 0
Kept g h = Edge g.status h.status × IsValid h

from : {s t u : TaskGroupStatus} → s ≡ t → Edge t u → Edge s u
from {u} e x = subst (λ s. Edge s u) (sym e) x

ensure_open : (c : Completion) → IsOpen c → ensure_completion c ≡ waiting
ensure_open absent h = refl
ensure_open waiting h = refl
ensure_open resolved h = elim h [ ]
ensure_open (rejected e) h = elim h [ ]

settle_open : (c d : Completion) → IsOpen c → settle d c ≡ d
settle_open absent d h = refl
settle_open waiting d h = refl
settle_open resolved d h = elim h [ ]
settle_open (rejected e) d h = elim h [ ]

started-IsValid :
    (g : TaskGroup) (c : Completion) → 0 < g.concurrency → c ≡ waiting → IsValid (started g c)
started-IsValid g c n e = record {
  some_workers = n;
  phase = (omega (arith, length-workers g.concurrency), e, refl, refl);
}

start-Kept : (g : TaskGroup) → IsValid g → Kept g (or_same g (start g))
unfolding start
start-Kept g v = by_status g.status refl v.phase
  where
    by_status :
        (s : TaskGroupStatus) → g.status ≡ s → Phase s g → Kept g (or_same g (start_from s g))
    by_status idle e p = (
      from e begin,
      started-IsValid g (ensure_completion g.completion) v.some_workers
          (ensure_open g.completion p.1),
    )
    by_status running e p = (same, v)
    by_status stopping e p = (same, v)
    by_status stopped e p = (from e again, started-IsValid g waiting v.some_workers refl)
    by_status failed e p = (same, v)

-- The completion of a group in a phase other than idle is there.
join-Kept : (g : TaskGroup) → IsValid g → Kept g (join g)
unfolding join
join-Kept g v = (same, record { some_workers = v.some_workers; phase = by_status g.status v.phase })
  where
    by_status : (s : TaskGroupStatus) → Phase s g → Phase s (join g)
    by_status idle p = (p.0, rw (ensure_open g.completion p.1) tt)
    by_status running p = (p.0, rw p.1, p.2, p.3)
    by_status stopping p = (p.0, rw p.1, p.2)
    by_status stopped p = (p.0, rw p.1)
    by_status failed p = (p.0, (p.1.0, rw p.1.1))

stop-Kept : (g : TaskGroup) → IsValid g → Kept g (stop g)
unfolding stop join
stop-Kept g v = by_status g.status refl v.phase
  where
    by_status : (s : TaskGroupStatus) → g.status ≡ s → Phase s g → Kept g (stop_from s g)
    by_status idle e p = (
      from e skip,
      record {
        some_workers = v.some_workers;
        phase = (p.0, settle_open g.completion resolved p.1);
      },
    )
    by_status running e p =
        (from e wind_down, record { some_workers = v.some_workers; phase = (p.0, rw p.1, rw p.2) })
    by_status stopping e p = join-Kept g v
    by_status stopped e p = join-Kept g v
    by_status failed e p = join-Kept g v

-- A change of the workers that leaves some, if there were some, and none otherwise.
tasks-Kept :
    (g : TaskGroup) (ws : List Worker)
    → (0 < length g.tasks → 0 < length ws)
    → (g.tasks ≡ [] → ws ≡ [])
    → IsValid g
    → IsValid (record g { tasks = ws })
tasks-Kept g ws some_left none_left v = record {
  some_workers = v.some_workers;
  phase = by_status g.status v.phase;
}
  where
    by_status : (s : TaskGroupStatus) → Phase s g → Phase s (record g { tasks = ws })
    by_status idle p = (none_left p.0, p.1)
    by_status running p = (some_left p.0, p.1, p.2, p.3)
    by_status stopping p = (some_left p.0, p.1, p.2)
    by_status stopped p = (none_left p.0, p.1)
    by_status failed p = (none_left p.0, p.1)

nil_of_length : (ws : List Worker) → length ws ≡ 0 → ws ≡ []
nil_of_length [] h = refl
nil_of_length (w ∷ ws) h = absurd (omega arith)

has_worker_some :
    (k : ℕ) (returned : Bool) (ws : List Worker) → has_worker k returned ws ≡ true → 0 < length ws
unfolding has_worker
has_worker_some k returned [] h = cc
has_worker_some k returned (w ∷ ws) h = omega arith

return_worker-Kept : (g h : TaskGroup) (k : ℕ) → Kept g h → Kept g (return_worker h k)
return_worker-Kept g h k v =
    let as_many = length-mark_returned k h.tasks in
    (
      v.0,
      tasks-Kept h (mark_returned k h.tasks) (λ some_left. omega arith)
          (λ none_left.
            nil_of_length (mark_returned k h.tasks) (omega (arith, ap length none_left)))
          v.1,
    )

go_on-Kept : (g h : TaskGroup) (k : ℕ) (b : Bool) → Kept g h → Kept g (go_on k (h, b))
go_on-Kept g h k true v = v
go_on-Kept g h k false v = return_worker-Kept g h k v

none_live : (g : TaskGroup) → g.tasks ≡ [] → 0 < length g.tasks → ⊥
none_live g e h = omega (arith, ap length e)

catch_error-Kept :
    (g : TaskGroup) (k : ℕ) (e : Thrown) (policy : TaskGroupErrorPolicy)
    → 0 < length g.tasks
    → is_stopping g.status ≡ false
    → IsValid g
    → Kept g (go_on k (catch_error g e policy))
unfolding catch_error
catch_error-Kept g k e restart_task live h v =
    go_on-Kept g g k (should_restart g.status g.controller) (same, v)
catch_error-Kept g k e ignore live h v = go_on-Kept g g k false (same, v)
catch_error-Kept g k e stop_group live h v =
    go_on-Kept g halted k false (by_status g.status refl v.phase)
  where
    halted : TaskGroup
    halted = record g { error = some e; status = stopping; controller = abort g.controller }

    by_status : (s : TaskGroupStatus) → g.status ≡ s → Phase s g → Kept g halted
    by_status idle same_as p = absurd (none_live g p.0 live)
    by_status running same_as p = (
      from same_as wind_down,
      record { some_workers = v.some_workers; phase = (p.0, p.1, rw p.2) },
    )
    by_status stopping same_as p = absurd (cc (h, ap is_stopping same_as))
    by_status stopped same_as p = absurd (none_live g p.0 live)
    by_status failed same_as p = absurd (none_live g p.0 live)

iteration-Kept :
    (g : TaskGroup) (k : ℕ) (r : Option Thrown)
    → has_worker k false g.tasks ≡ true
    → IsValid g
    → Kept g (iteration g k r)
unfolding iteration iteration_failed
iteration-Kept g k none h v = return_worker-Kept g g k (same, v)
iteration-Kept g k (some e) h v = elim (Bool-cases (e.is_abort_error || is_stopping g.status)) [
  | inl quiet ↦ rw quiet (go_on-Kept g g k false (same, v))
  | inr loud ↦ rw loud (
      catch_error-Kept g k e g.error_policy (has_worker_some k false g.tasks h)
        (ground (arith, loud)) v)
]

length-remove_returned :
    (k : ℕ) (ws : List Worker)
    → has_worker k true ws ≡ true
    → suc (length (remove_returned k ws)) ≡ length ws
unfolding has_worker remove_returned
length-remove_returned k [] h = cc
length-remove_returned k (w ∷ ws) h = ground (arith, length-remove_returned k ws)

-- The last worker of a group that has no error, or one that JavaScript takes for false, has gone.
finish_without-Kept :
    (g : TaskGroup)
    → IsValid g
    → is_live g.status ≡ true
    → g.completion ≡ waiting
    → Edge g.status stopped
    → Kept g (finish_without (record g { tasks = [] }))
unfolding complete_stopped
finish_without-Kept g v live open_still edge =
    rw live (edge, record { some_workers = v.some_workers; phase = (refl, rw open_still) })

-- The last worker has gone.
finish_with-Kept :
    (g : TaskGroup)
    → 0 < length g.tasks
    → IsValid g
    → Kept g (finish_with (record g { tasks = [] }) g.error)
unfolding complete_failed
finish_with-Kept g live v = by_status g.status refl v.phase g.error refl
  where
    stopped_late :
        g.status ≡ stopping → Phase stopping g → Kept g (finish_without (record g { tasks = [] }))
    stopped_late e p = finish_without-Kept g v (ap is_live e) p.1 (from e finish_stopping)

    failed_now :
        (x : Thrown)
        → g.status ≡ stopping
        → Phase stopping g
        → Kept g (complete_failed (record g { tasks = [] }) x)
    failed_now x e p =
        (from e fail, record { some_workers = v.some_workers; phase = (refl, (x, rw p.1)) })

    by_status :
        (s : TaskGroupStatus)
        → g.status ≡ s
        → Phase s g
        → (o : Option Thrown) → g.error ≡ o
        → Kept g (finish_with (record g { tasks = [] }) o)
    by_status idle e p o q = absurd (none_live g p.0 live)
    by_status running e p none q = finish_without-Kept g v (ap is_live e) p.1 (from e finish)
    by_status running e p (some x) q = cc (p.3, q)
    by_status stopping e p none q = stopped_late e p
    by_status stopping e p (some x) q = elim (Bool-cases x.truthy) [
      | inl t ↦ simp (t) (failed_now x e p)
      | inr t ↦ simp (t) (stopped_late e p)
    ]
    by_status stopped e p o q = absurd (none_live g p.0 live)
    by_status failed e p o q = absurd (none_live g p.0 live)

worker_ended-Kept :
    (g : TaskGroup) (k : ℕ)
    → has_worker k true g.tasks ≡ true
    → IsValid g
    → Kept g (worker_ended g k)
unfolding worker_ended maybe_finish
worker_ended-Kept g k h v = by_rest (remove_returned k g.tasks) (length-remove_returned k g.tasks h)
  where
    by_rest :
        (ws : List Worker)
        → suc (length ws) ≡ length g.tasks
        → Kept g (maybe_finish (record g { tasks = ws }) ws)
    by_rest [] e = finish_with-Kept g (omega arith) v
    by_rest (w ∷ ws) e = (
      same,
      tasks-Kept g (w ∷ ws) (λ h. omega arith) (λ h. absurd (none_live g h (omega arith))) v,
    )

step-Kept : (g : TaskGroup) (e : Event) → IsValid g → Kept g (step g e)
unfolding step
step-Kept g starts v = start-Kept g v
step-Kept g stops v = stop-Kept g v
step-Kept g joins v = join-Kept g v
step-Kept g (iterates k r) v = elim (Bool-cases (has_worker k false g.tasks)) [
  | inl here ↦ rw here (iteration-Kept g k r here v)
  | inr gone ↦ rw gone (same, v)
]
step-Kept g (ends k) v = elim (Bool-cases (has_worker k true g.tasks)) [
  | inl here ↦ rw here (worker_ended-Kept g k here v)
  | inr gone ↦ rw gone (same, v)
]

pub run-IsValid : (g : TaskGroup) (es : List Event) → IsValid g → IsValid (run g es)
unfolding run
run-IsValid g [] v = v
run-IsValid g (e ∷ es) v = run-IsValid (step g e) es (step-Kept g e v).1

pub create-IsValid :
    (n : ℕ) (policy : TaskGroupErrorPolicy) (g : TaskGroup)
    → create_task_group n policy ≡ some g
    → IsValid g
unfolding create_task_group
create-IsValid zero policy g e = cc
create-IsValid (suc n) policy g e =
    let new_one : new_task_group (suc n) policy ≡ g = ground arith in
    subst IsValid new_one (record { some_workers = omega arith; phase = (refl, tt) })

-- Whatever happens to a group that is created: its workers, its completion and its controller are
-- in the phase of its status, and each event changes the status along an edge of the state machine
-- (a group that has failed stays failed).
pub task_group_phases :
    (n : ℕ) (policy : TaskGroupErrorPolicy) (g : TaskGroup) (es : List Event) (e : Event)
    → create_task_group n policy ≡ some g
    → IsValid (run g es) × Edge (run g es).status (step (run g es) e).status
task_group_phases n policy g es e created =
    let v = run-IsValid g es (create-IsValid n policy g created) in
    (v, (step-Kept (run g es) e v).0)
