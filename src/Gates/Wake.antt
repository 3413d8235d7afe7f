-- ===== src/Gates/Wake.antt =====
-- src/core/wake-gate.ts: waiters for the next version. A call that runs to its end is one step; the
-- promises that it settles are its outcomes. The waiters stand in the order of the source's Set.
pub mod Laws
use fitz_ts.Base.{ℕ, ◌+◌, List, [], ◌∷◌, ◌++◌, Bool, true, false, ltb, ◌==◌, if◌then◌else◌}

pub record Waiter : Type 0 where
  pub id : ℕ
  pub observed_version : ℕ

pub record Gate : Type 0 where
  pub current_version : ℕ
  pub waiters : List Waiter

pub data Outcome : Type 0 where
  resolved : (id version : ℕ) → Outcome
  aborted : (id : ℕ) → Outcome

unfoldable pub new_gate : Gate
new_gate = record { current_version = 0; waiters = [] }

unfoldable pub resolve_all : ℕ → List Waiter → List Outcome
resolve_all version [] = []
resolve_all version (w ∷ ws) = resolved w.id version ∷ resolve_all version ws

unfoldable pub wake : Gate → Gate × List Outcome
wake g = (
  record { current_version = g.current_version + 1; waiters = [] },
  resolve_all (g.current_version + 1) g.waiters,
)

-- The second test of the version, inside the promise, sees what the first saw.
unfoldable pub wait_after : Gate → Waiter → Bool → Gate × List Outcome
wait_after g w signal_aborted =
    if ltb w.observed_version g.current_version
    then (g, resolved w.id g.current_version ∷ [])
    else if signal_aborted
    then (g, aborted w.id ∷ [])
    else (record g { waiters = g.waiters ++ w ∷ [] }, [])

-- `wait()`: from the version of now on.
unfoldable pub wait : Gate → ℕ → Bool → Gate × List Outcome
wait g id signal_aborted =
    wait_after g (record { id = id; observed_version = g.current_version }) signal_aborted

unfoldable pub remove_waiter : ℕ → List Waiter → List Waiter
remove_waiter id [] = []
remove_waiter id (w ∷ ws) = if w.id == id then ws else w ∷ remove_waiter id ws

unfoldable pub has_waiter : ℕ → List Waiter → Bool
has_waiter id [] = false
has_waiter id (w ∷ ws) = if w.id == id then true else has_waiter id ws

-- `waiter.onAbort` of a waiter in the set.
unfoldable pub on_abort : Gate → ℕ → Gate × List Outcome
on_abort g id =
    if has_waiter id g.waiters
    then (record g { waiters = remove_waiter id g.waiters }, aborted id ∷ [])
    else (g, [])

pub data Call : Type 0 where
  wakes : Call
  waits : Waiter → Bool → Call
  aborts : ℕ → Call

unfoldable pub step : Gate → Call → Gate × List Outcome
step g wakes = wake g
step g (waits w signal_aborted) = wait_after g w signal_aborted
step g (aborts id) = on_abort g id

-- The gate after a history, and all outcomes in order.
unfoldable pub run : Gate → List Call → Gate × List Outcome
run g [] = (g, [])
run g (c ∷ cs) = let rest = run (step g c).0 cs in (rest.0, (step g c).1 ++ rest.1)
