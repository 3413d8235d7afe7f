-- ===== src/Gates/Request.antt =====
-- src/client/internal/request-gate.ts: at most so many requests at a time, and a bounded queue.
-- A call that runs to its end is one step; promises that it settles are its outcomes.
pub mod Invariant
pub mod Order
use fitz_ts.Base.{
  ℕ, ◌+◌, ◌-◌, List, [], ◌∷◌, ◌++◌, map, Bool, true, false, not, ◌&&◌, leb, ltb, ◌==◌,
  if◌then◌else◌, length,
}

-- `aborted` is `signal.aborted` of the waiter's signal.
pub record Waiter : Type 0 where
  pub id : ℕ
  pub aborted : Bool

pub record Gate : Type 0 where
  pub max_concurrency : ℕ
  pub max_queue_size : ℕ
  pub active_count : ℕ
  pub closed : Bool
  pub queue : List Waiter

pub data Outcome : Type 0 where
  granted abort_error connection_closed queue_full : ℕ → Outcome

unfoldable pub new_gate : ℕ → ℕ → Gate
new_gate max_concurrency max_queue_size = record {
  max_concurrency = max_concurrency;
  max_queue_size = max_queue_size;
  active_count = 0;
  closed = false;
  queue = [];
}

unfoldable pub acquire : Gate → Waiter → Gate × List Outcome
acquire g w =
    if w.aborted
    then (g, abort_error w.id ∷ [])
    else if g.closed
    then (g, connection_closed w.id ∷ [])
    else if ltb g.active_count g.max_concurrency
    then (record g { active_count = g.active_count + 1 }, granted w.id ∷ [])
    else if leb g.max_queue_size (length g.queue)
    then (g, queue_full w.id ∷ [])
    else (record g { queue = g.queue ++ w ∷ [] }, [])

unfoldable pub reject_all : List Waiter → List Outcome
reject_all [] = []
reject_all (w ∷ ws) = connection_closed w.id ∷ reject_all ws

unfoldable pub close : Gate → Gate × List Outcome
close g = if g.closed then (g, []) else (record g { closed = true; queue = [] }, reject_all g.queue)

-- The loop of `release`, while the gate is open and a place is free.
unfoldable pub grant_next : Gate → List Waiter → Gate × List Outcome
grant_next g [] = (record g { queue = [] }, [])
grant_next g (w ∷ ws) =
    let rest = grant_next g ws in
    if w.aborted
    then rest
    else (record g { active_count = g.active_count + 1; queue = ws }, granted w.id ∷ [])

unfoldable pub release : Gate → Gate × List Outcome
release g =
    let freed = record g { active_count = g.active_count - 1 } in
    if not g.closed && ltb (g.active_count - 1) g.max_concurrency
    then grant_next freed g.queue
    else (freed, [])

-- A waiter's signal is aborted, before its listener runs.
unfoldable pub mark : ℕ → List Waiter → List Waiter
mark id [] = []
mark id (w ∷ ws) = (if w.id == id then record w { aborted = true } else w) ∷ mark id ws

-- `queue.splice(queue.indexOf(waiter), 1)`
unfoldable pub remove_waiter : ℕ → List Waiter → List Waiter
remove_waiter id [] = []
remove_waiter id (w ∷ ws) = if w.id == id then ws else w ∷ remove_waiter id ws

unfoldable pub has_waiter : ℕ → List Waiter → Bool
has_waiter id [] = false
has_waiter id (w ∷ ws) = if w.id == id then true else has_waiter id ws

-- `waiter.onAbort` of a waiter in the queue.
unfoldable pub on_abort : Gate → ℕ → Gate × List Outcome
on_abort g id =
    if has_waiter id g.queue
    then (record g { queue = remove_waiter id g.queue }, abort_error id ∷ [])
    else (g, [])

pub data Call : Type 0 where
  acquires : Waiter → Call
  releases closes : Call
  aborts listens : ℕ → Call

unfoldable pub step : Gate → Call → Gate × List Outcome
step g (acquires w) = acquire g w
step g releases = release g
step g closes = close g
step g (aborts id) = (record g { queue = mark id g.queue }, [])
step g (listens id) = on_abort g id

unfoldable pub run : Gate → List Call → Gate
run g [] = g
run g (c ∷ cs) = run (step g c).0 cs
