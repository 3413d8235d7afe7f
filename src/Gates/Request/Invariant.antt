-- ===== src/Gates/Request/Invariant.antt =====
-- The bounds of the request gate hold after every history.
use fitz_ts.Base.{
  ℕ, ◌+◌, ◌-◌, ◌≤◌, ◌<◌, ◌≡◌, refl, List, [], ◌∷◌, true, false, not, ◌&&◌, ltb, length, arith,
  length-append, Bool-cases, inl, inr,
}
use fitz_ts.Gates.Request.{
  Waiter, Gate, new_gate, acquire, close, grant_next, release, mark, remove_waiter, on_abort, Call,
  acquires, releases, closes, aborts, listens, step, run,
}

-- No more requests than allowed are active; no request waits while a place is free; the queue keeps
-- its bound; and a closed gate has no queue.
pub record IsValid (g : Gate) : Type 0 where
  pub bounded : g.active_count ≤ g.max_concurrency
  pub busy : g.active_count < g.max_concurrency → g.queue ≡ []
  pub short : length g.queue ≤ g.max_queue_size
  pub emptied : g.closed ≡ true → g.queue ≡ []

new_gate-IsValid : (m n : ℕ) → IsValid (new_gate m n)
unfolding new_gate
new_gate-IsValid m n = ground arith

acquire-IsValid : (g : Gate) (w : Waiter) → IsValid g → IsValid (acquire g w).0
unfolding acquire
acquire-IsValid g w v = ground (arith, length-append g.queue (w ∷ []))

close-IsValid : (g : Gate) → IsValid g → IsValid (close g).0
unfolding close
close-IsValid g v = ground arith

grant_next-IsValid :
    (g : Gate) (ws : List Waiter)
    → g.active_count < g.max_concurrency
    → length ws ≤ g.max_queue_size
    → g.closed ≡ false
    → (g.active_count + 1 < g.max_concurrency → ws ≡ [])
    → IsValid (grant_next g ws).0
unfolding grant_next
grant_next-IsValid g [] a b c d = ground arith
grant_next-IsValid g (w ∷ ws) a b c d = elim (Bool-cases w.aborted) [
  | inl skip ↦ rw skip (grant_next-IsValid g ws a (omega arith) c (λ h. no_room h))
  | inr take ↦ rw take (record {
    bounded = omega arith;
    busy = λ h. no_room h;
    short = omega arith;
    emptied = λ h. cc;
  })
]
  where
    no_room : g.active_count + 1 < g.max_concurrency → ws ≡ []
    no_room h = cc (d h)

release-IsValid : (g : Gate) → IsValid g → IsValid (release g).0
unfolding release
release-IsValid g v =
    elim (Bool-cases (not g.closed && ltb (g.active_count - 1) g.max_concurrency)) [
      | inl serves ↦ rw serves (
          grant_next-IsValid (record g { active_count = g.active_count - 1 }) g.queue
            (ground (arith, serves)) v.short (ground (arith, serves)) (λ h. v.busy (omega arith)))
      | inr rests ↦ rw rests (ground (arith, rests, v))
    ]

length-mark : (id : ℕ) (ws : List Waiter) → length (mark id ws) ≡ length ws
unfolding mark
length-mark id [] = refl
length-mark id (w ∷ ws) = ground (arith, length-mark id ws)

mark-IsValid : (g : Gate) (id : ℕ) → IsValid g → IsValid (record g { queue = mark id g.queue })
unfolding mark
mark-IsValid g id v = ground (arith, length-mark id g.queue)

length-remove_waiter-le : (id : ℕ) (ws : List Waiter) → length (remove_waiter id ws) ≤ length ws
unfolding remove_waiter
length-remove_waiter-le id [] = omega arith
length-remove_waiter-le id (w ∷ ws) = ground (arith, length-remove_waiter-le id ws)

on_abort-IsValid : (g : Gate) (id : ℕ) → IsValid g → IsValid (on_abort g id).0
unfolding on_abort remove_waiter
on_abort-IsValid g id v = ground (arith, length-remove_waiter-le id g.queue)

-- Every call keeps the bounds.
pub step-IsValid : (g : Gate) (c : Call) → IsValid g → IsValid (step g c).0
unfolding step
step-IsValid g (acquires w) v = acquire-IsValid g w v
step-IsValid g releases v = release-IsValid g v
step-IsValid g closes v = close-IsValid g v
step-IsValid g (aborts id) v = mark-IsValid g id v
step-IsValid g (listens id) v = on_abort-IsValid g id v

run-IsValid : (g : Gate) (cs : List Call) → IsValid g → IsValid (run g cs)
unfolding run
run-IsValid g [] v = v
run-IsValid g (c ∷ cs) v = run-IsValid (step g c).0 cs (step-IsValid g c v)

-- After every history of calls and aborts a gate has at most `max_concurrency` active requests and
-- at most `max_queue_size` waiting ones, no request waits while a place is free, and none after
-- the gate is closed.
pub run-new_gate-IsValid :
    (max_concurrency max_queue_size : ℕ) (cs : List Call)
    → IsValid (run (new_gate max_concurrency max_queue_size) cs)
run-new_gate-IsValid m n cs = run-IsValid (new_gate m n) cs (new_gate-IsValid m n)
