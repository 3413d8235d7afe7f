-- ===== src/Tests/Requests.antt =====
-- The request gate on small histories.
use fitz_ts.Base.{ℕ, ◌≡◌, refl, arith, List, [], ◌∷◌, Bool, true, false}
use fitz_ts.Gates.Request.{
  Waiter, Gate, granted, new_gate, release, Call, acquires, releases, aborts, run,
}
use fitz_ts.Gates.Request.Invariant.{IsValid, run-new_gate-IsValid}
use fitz_ts.Gates.Request.Order.{release_serves_oldest}

abbrev waiter : ℕ → Bool → Waiter
waiter id aborted = record { id = id; aborted = aborted }

abbrev calls : List Call
calls =
    acquires (waiter 1 false)
    ∷ acquires (waiter 2 false)
    ∷ acquires (waiter 3 false)
    ∷ aborts 2
    ∷ releases
    ∷ []

run-new_gate-IsValid_example : IsValid (run (new_gate 1 5) calls)
run-new_gate-IsValid_example = run-new_gate-IsValid 1 5 calls

abbrev busy_gate : Gate
busy_gate = record {
  max_concurrency = 1;
  max_queue_size = 5;
  active_count = 1;
  closed = false;
  queue = waiter 2 true ∷ waiter 3 false ∷ waiter 4 false ∷ [];
}

busy_gate-IsValid : IsValid busy_gate
busy_gate-IsValid = record {
  bounded = omega arith;
  busy = λ h. ground arith;
  short = omega arith;
  emptied = λ h. cc;
}

release_serves_oldest_example :
    release busy_gate ≡ (record busy_gate { queue = waiter 4 false ∷ [] }, granted 3 ∷ [])
release_serves_oldest_example =
    release_serves_oldest busy_gate (waiter 2 true ∷ []) (waiter 3 false) (waiter 4 false ∷ [])
      busy_gate-IsValid refl (omega arith) refl (refl, tt) refl
