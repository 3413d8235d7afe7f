-- ===== src/Gates/Wake/Laws.antt =====
-- A wake gate loses no wake-up.
use fitz_ts.Base.{
  ℕ, ◌+◌, ◌≤◌, ◌<◌, ◌≡◌, refl, List, [], ◌∷◌, ◌++◌, Bool, true, false, ltb, arith, All, All-append,
  Bool-cases, inl, inr,
}
use fitz_ts.Gates.Wake.{
  Waiter, Gate, resolved, new_gate, resolve_all, wake, wait_after, remove_waiter, has_waiter,
  on_abort, Call, wakes, waits, aborts, step, run,
}

-- `observed` is a version that the gate has shown: what `waitAfter` is meant for.
abbrev pub Honest : Gate → Call → Type 0
Honest g wakes = Unit {0}
Honest g (waits w b) = w.observed_version ≤ g.current_version
Honest g (aborts id) = Unit {0}

abbrev pub AllHonest : Gate → List Call → Type 0
AllHonest g [] = Unit {0}
AllHonest g (c ∷ cs) = Honest g c × AllHonest (step g c).0 cs

-- Nobody waits for a version that has been reached.
abbrev pub IsCurrent : Gate → Type 0
IsCurrent g = All (λ w. w.observed_version ≡ g.current_version) g.waiters

All-remove_waiter :
    (v id : ℕ) (ws : List Waiter)
    → All (λ w. w.observed_version ≡ v) ws
    → All (λ w. w.observed_version ≡ v) (remove_waiter id ws)
unfolding remove_waiter
All-remove_waiter v id [] h = tt
All-remove_waiter v id (w ∷ ws) h = ground (arith, All-remove_waiter v id ws h.1)

wait_after-IsCurrent :
    (g : Gate) (w : Waiter) (b : Bool)
    → w.observed_version ≤ g.current_version
    → IsCurrent g
    → IsCurrent (wait_after g w b).0
unfolding wait_after
wait_after-IsCurrent g w true h v = elim (Bool-cases (ltb w.observed_version g.current_version)) [
  | inl e ↦ rw e v
  | inr e ↦ rw e v
]
wait_after-IsCurrent g w false h v = elim (Bool-cases (ltb w.observed_version g.current_version)) [
  | inl e ↦ rw e v
  | inr e ↦ rw e (
      All-append (λ u. u.observed_version ≡ g.current_version) g.waiters (w ∷ []) v
        (ground (arith, e), tt))
]

on_abort-IsCurrent : (g : Gate) (id : ℕ) → IsCurrent g → IsCurrent (on_abort g id).0
unfolding on_abort
on_abort-IsCurrent g id v = elim (Bool-cases (has_waiter id g.waiters)) [
  | inl e ↦ rw e (All-remove_waiter g.current_version id g.waiters v)
  | inr e ↦ rw e v
]

step-IsCurrent : (g : Gate) (c : Call) → Honest g c → IsCurrent g → IsCurrent (step g c).0
unfolding step wake
step-IsCurrent g wakes h v = tt
step-IsCurrent g (waits w b) h v = wait_after-IsCurrent g w b h v
step-IsCurrent g (aborts id) h v = on_abort-IsCurrent g id v

run-IsCurrent : (g : Gate) (cs : List Call) → AllHonest g cs → IsCurrent g → IsCurrent (run g cs).0
unfolding run
run-IsCurrent g [] h v = v
run-IsCurrent g (c ∷ cs) h v = run-IsCurrent (step g c).0 cs h.1 (step-IsCurrent g c h.0 v)

-- After every history in which waiters pass versions that the gate has shown, whoever still waits
-- has observed the version of now: no wake-up came between the observation and the wait, nor since.
pub run-new_gate-IsCurrent :
    (cs : List Call) → AllHonest new_gate cs → IsCurrent (run new_gate cs).0
unfolding new_gate
run-new_gate-IsCurrent cs h = run-IsCurrent new_gate cs h tt

resolve_all-append :
    (v : ℕ) (xs ys : List Waiter) → resolve_all v (xs ++ ys) ≡ resolve_all v xs ++ resolve_all v ys
unfolding resolve_all
resolve_all-append v [] ys = refl
resolve_all-append v (x ∷ xs) ys = rw (resolve_all-append v xs ys)

-- One wake-up resolves a waiter also when the version that it passed is still ahead: such a waiter
-- is resolved with a version that is not greater than the one it passed.
pub wake_ahead :
    (g : Gate) (w : Waiter)
    → g.current_version < w.observed_version
    → ((wake (wait_after g w false).0).1
        ≡ resolve_all (g.current_version + 1) g.waiters
          ++ resolved w.id (g.current_version + 1) ∷ [])
      × (g.current_version + 1 ≤ w.observed_version)
unfolding wait_after wake resolve_all
wake_ahead g w h =
    let behind : ltb w.observed_version g.current_version ≡ false = ground (arith, h) in
    (rw (behind, resolve_all-append (g.current_version + 1) g.waiters (w ∷ [])), omega arith)
