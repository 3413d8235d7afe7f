-- ===== src/Tests/Grouping.antt =====
-- The task group on small histories.
use fitz_ts.Base.{◌≡◌, refl, arith, List, [], ◌∷◌, some, none, true, false}
use fitz_ts.Lifecycle.TaskGroup.{
  TaskGroup, running, waiting, stop_group, Thrown, Event, starts, stops, joins, iterates, ends,
  new_task_group, create_task_group, has_worker, step, run,
}
use fitz_ts.Lifecycle.TaskGroup.Phases.{Edge, IsValid, task_group_phases}
use fitz_ts.Lifecycle.TaskGroup.Failures.{FailsWith, first_failure_wins}

abbrev failure : Thrown
failure = record { value = 13; is_abort_error = false; truthy = true }

abbrev events : List Event
events = starts ∷ joins ∷ iterates 0 none ∷ ends 0 ∷ []

created : create_task_group 2 stop_group ≡ some (new_task_group 2 stop_group)
unfolding create_task_group
created = refl

task_group_phases_example :
    IsValid (run (new_task_group 2 stop_group) events)
    × Edge
        (run (new_task_group 2 stop_group) events).status
        (step (run (new_task_group 2 stop_group) events) (iterates 1 (some failure))).status
task_group_phases_example =
    task_group_phases 2 stop_group (new_task_group 2 stop_group) events (iterates 1 (some failure))
      created

abbrev active : TaskGroup
active = record {
  concurrency = 2;
  error_policy = stop_group;
  status = running;
  controller = some false;
  completion = waiting;
  error = none;
  tasks = record { index = 1; returned = false } ∷ record { index = 0; returned = false } ∷ [];
}

active-IsValid : IsValid active
active-IsValid = record { some_workers = omega arith; phase = (omega arith, refl, refl, refl) }

active_worker : has_worker 0 false active.tasks ≡ true
unfolding has_worker
active_worker = refl

first_failure_wins_example :
    FailsWith failure (run (step active (iterates 0 (some failure))) (stops ∷ ends 0 ∷ ends 1 ∷ []))
first_failure_wins_example =
    first_failure_wins failure active 0 (stops ∷ ends 0 ∷ ends 1 ∷ []) active-IsValid refl refl
      active_worker refl refl
