-- ===== src/Tests/Wakes.antt =====
-- The wake gate on small histories.
use fitz_ts.Base.{◌≤◌, ◌≡◌, arith, List, [], ◌∷◌, ◌++◌, false}
use fitz_ts.Gates.Wake.{
  Waiter, resolved, new_gate, resolve_all, wake, wait_after, Call, wakes, waits, step, run,
}
use fitz_ts.Gates.Wake.Laws.{AllHonest, IsCurrent, run-new_gate-IsCurrent, wake_ahead}

abbrev history : List Call
history =
    waits (record { id = 1; observed_version = 0 }) false
    ∷ wakes
    ∷ waits (record { id = 2; observed_version = 1 }) false
    ∷ []

history_honest : AllHonest new_gate history
unfolding new_gate step wait_after wake
history_honest = (omega arith, (tt, (omega arith, tt)))

run-new_gate-IsCurrent_example : IsCurrent (run new_gate history).0
run-new_gate-IsCurrent_example = run-new_gate-IsCurrent history history_honest

abbrev early : Waiter
early = record { id = 3; observed_version = 5 }

wake_ahead_run :
    ((wake (wait_after new_gate early false).0).1 ≡ resolve_all 1 [] ++ resolved 3 1 ∷ []) × (1 ≤ 5)
unfolding new_gate
wake_ahead_run = wake_ahead new_gate early (omega arith)
