-- ===== src/Multiplexer/Settled.antt =====
-- src/client/multiplexer.ts: each request that is sent is settled once, and none is forgotten.
use fitz_ts.Base.{ℕ, ◌+◌, ◌≡◌, refl, ap, List, [], ◌∷◌, ◌++◌, false, arith}
use fitz_ts.Multiplexer.{
  Multiplexer, new_multiplexer, set_connected, cancel_all, set_disconnected, send_resolved, Event,
  connects, disconnects, cancels, issues, fails, send_rejects, send_resolves, responds, step, run,
  connection_closed,
}
use fitz_ts.Multiplexer.Fresh.{IsFresh, AllHonest, step-IsFresh}
use fitz_ts.Multiplexer.Account.{
  sends, settles, live, Balanced, sends-append, settles-append, cancel_all-Balanced,
  fail_request-Balanced, send_rejected-Balanced, issue_request-Balanced, dispatch-Balanced,
}

step-Balanced : (a : ℕ) (m : Multiplexer) (e : Event) → IsFresh m → Balanced a m (step m e)
unfolding step set_connected set_disconnected send_resolved
step-Balanced a m connects h = omega arith
step-Balanced a m disconnects h = cancel_all-Balanced a (record m { authenticated = false })
step-Balanced a m cancels h = cancel_all-Balanced a m
step-Balanced a m (issues id frame signal_aborted) h =
    issue_request-Balanced a m id frame signal_aborted h
step-Balanced a m (fails id reason) h = fail_request-Balanced a m id reason
step-Balanced a m (send_rejects id) h = send_rejected-Balanced a m id
step-Balanced a m (send_resolves id) h =
    ground (arith, fail_request-Balanced a m id connection_closed)
step-Balanced a m (responds c payload final) h = dispatch-Balanced a m c payload final

run-Balanced :
    (a : ℕ) (m : Multiplexer) (es : List Event)
    → IsFresh m
    → AllHonest m es
    → Balanced a m (run m es)
unfolding run
run-Balanced a m [] h t = omega arith
run-Balanced a m (e ∷ es) h t =
    let after = (step m e).0 in
    omega (
      arith,
      step-Balanced a m e h,
      run-Balanced a after es (step-IsFresh m e t.0 h) t.1,
      sends-append a (step m e).1 (run after es).1,
      settles-append a (step m e).1 (run after es).1,
    )

-- In every history in which the connection is set up only when nothing is pending: each request
-- was settled as often as its frame was sent, but for the entries that still wait for a response.
pub run-sends-settles :
    (a : ℕ) (es : List Event)
    → AllHonest new_multiplexer es
    → sends a (run new_multiplexer es).1
      ≡ settles a (run new_multiplexer es).1 + live a (run new_multiplexer es).0.pending
unfolding new_multiplexer
run-sends-settles a es t = omega (arith, run-Balanced a new_multiplexer es tt t)

run-append :
    (m : Multiplexer) (es : List Event) (e : Event)
    → (run m (es ++ e ∷ [])).0 ≡ (step (run m es).0 e).0
unfolding run
run-append m [] e = refl
run-append m (d ∷ es) e = run-append (step m d).0 es e

-- A history that ends with the loss of the connection, and in which the connection is set up only
-- when nothing is pending, leaves no request unsettled: each was settled exactly as often as its
-- frame was sent.
pub run-settles_all :
    (a : ℕ) (es : List Event)
    → AllHonest new_multiplexer (es ++ disconnects ∷ [])
    → settles a (run new_multiplexer (es ++ disconnects ∷ [])).1
      ≡ sends a (run new_multiplexer (es ++ disconnects ∷ [])).1
unfolding step set_disconnected cancel_all
run-settles_all a es t =
    let none_left = ap (λ m. live a m.pending) (run-append new_multiplexer es disconnects) in
    omega (arith, none_left, run-sends-settles a (es ++ disconnects ∷ []) t)
