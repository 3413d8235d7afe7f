-- ===== src/Gates/Request/Order.antt =====
-- Who gets the place that a request gives back.
use fitz_ts.Base.{◌+◌, ◌-◌, ◌<◌, ◌≡◌, List, [], ◌∷◌, ◌++◌, true, false, ltb, arith, All}
use fitz_ts.Gates.Request.{Waiter, Gate, granted, grant_next, release}
use fitz_ts.Gates.Request.Invariant.{IsValid}

-- Those in front of `w` are aborted, and `w` is not.
grant_next_skips :
    (g : Gate) (front : List Waiter) (w : Waiter) (ws : List Waiter)
    → All (λ v. v.aborted ≡ true) front
    → w.aborted ≡ false
    → grant_next g (front ++ w ∷ ws)
      ≡ (record g { active_count = g.active_count + 1; queue = ws }, granted w.id ∷ [])
unfolding grant_next
grant_next_skips g [] w ws h e = rw e
grant_next_skips g (v ∷ front) w ws h e = rw (h.0, grant_next_skips g front w ws h.1 e)

-- In an open gate a request that gives its place back hands it to the first waiter whose signal is
-- not aborted. That waiter and those in front of it leave the queue, nobody else is settled, and as
-- many requests are active as before.
pub release_serves_oldest :
    (g : Gate) (front : List Waiter) (w : Waiter) (ws : List Waiter)
    → IsValid g
    → g.closed ≡ false
    → 0 < g.active_count
    → g.queue ≡ front ++ w ∷ ws
    → All (λ v. v.aborted ≡ true) front
    → w.aborted ≡ false
    → release g ≡ (record g { queue = ws }, granted w.id ∷ [])
unfolding release
release_serves_oldest g front w ws v open_gate active q skipped awake =
    let same : (g.active_count - 1) + 1 ≡ g.active_count = omega arith in
    let free : ltb (g.active_count - 1) g.max_concurrency ≡ true = ground (arith, v.bounded) in
    rw (open_gate, free, q, grant_next_skips _ front w ws skipped awake, same)
