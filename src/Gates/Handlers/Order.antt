-- ===== src/Gates/Handlers/Order.antt =====
-- src/client/internal/async-handler-dispatcher.ts: the order in which tasks are started.
use fitz_ts.Base.{
  ℕ, ◌-◌, ◌≡◌, refl, sym, ap, ◌∙◌, List, [], ◌∷◌, ◌++◌, Bool, if◌then◌else◌, All, append-nil,
  append_assoc, Bool-cases, inl, inr,
}
use fitz_ts.Gates.Handlers.{
  Dispatcher, below, start, dispatch, flush_loop, settle, Event, dispatches, settles, closes, step,
  run, accepted,
}
use fitz_ts.Gates.Handlers.Laws.{
  IsValid, dispatch-cases, settle_shut, settle_open, step-IsValid, settle-IsValid,
}

-- An event that is no call of `close`.
abbrev pub IsOpen : Event → Type 0
IsOpen (dispatches task) = Unit {0}
IsOpen settles = Unit {0}
IsOpen closes = ⊥

flush_loop-order :
    (d : Dispatcher) (q : List ℕ) → (flush_loop d q).1 ++ (flush_loop d q).0.queue ≡ q
unfolding flush_loop
flush_loop-order d [] = refl
flush_loop-order d (task ∷ q) = elim (Bool-cases (below d.active_count d.concurrency)) [
  | inl free ↦ simp (free) (ap (λ ts. task ∷ ts) (flush_loop-order (start d) q))
  | inr full ↦ simp (full) refl
]

settle-order : (d : Dispatcher) → IsValid d → (settle d).1 ++ (settle d).0.queue ≡ d.queue
settle-order d v = elim (Bool-cases d.closed) [
  | inl shut ↦ rw (settle_shut d shut) (sym (v.emptied shut))
  | inr o ↦
      rw (settle_open d o)
        (flush_loop-order (record d { active_count = d.active_count - 1 }) d.queue)
]

-- The task that a call of `dispatch` takes, if it takes it.
abbrev taken : ℕ → Bool → List ℕ
taken task took = if took then task ∷ [] else []

dispatch-order :
    (d : Dispatcher) (task : ℕ)
    → IsValid d
    → (dispatch d task).1 ++ (dispatch d task).0.queue ≡ d.queue ++ taken task (dispatch d task).2
dispatch-order d task v =
    dispatch-cases (λ r. r.1 ++ r.0.queue ≡ d.queue ++ taken task r.2) d task
      (λ shut. sym (append-nil d.queue)) (λ o free. simp (v.busy free) refl) (λ o full room. refl)
      (sym (append-nil d.queue))

accepted-dispatches :
    (d : Dispatcher) (task : ℕ) (es : List Event)
    → accepted d (dispatches task ∷ es)
      ≡ taken task (dispatch d task).2 ++ accepted (dispatch d task).0 es
unfolding accepted step
accepted-dispatches d task es = elim (Bool-cases (dispatch d task).2) [
  | inl h ↦ rw h refl
  | inr h ↦ rw h refl
]

append_chain :
    {A : Type 0} (x y z q p t u : List A)
    → x ++ p ≡ q ++ t
    → y ++ z ≡ p ++ u
    → (x ++ y) ++ z ≡ q ++ (t ++ u)
append_chain x y z q p t u e f =
    append_assoc x y z
    ∙ ap (λ l. x ++ l) f
    ∙ sym (append_assoc x p u)
    ∙ ap (λ l. l ++ u) e
    ∙ append_assoc q t u

-- From a valid dispatcher, as long as `close` is not called: the tasks started, and then the tasks
-- still waiting, are the tasks that waited at first, and then those that `dispatch` accepted, in
-- that order: none is lost, started twice or overtaken.
pub run-accepted :
    (d : Dispatcher) (es : List Event)
    → IsValid d
    → All IsOpen es
    → (run d es).1 ++ (run d es).0.queue ≡ d.queue ++ accepted d es
unfolding run accepted step
run-accepted d [] v open_es = sym (append-nil d.queue)
run-accepted d (dispatches task ∷ es) v open_es =
    let rest =
      run-accepted (step d (dispatches task)).0 es (step-IsValid d (dispatches task) v) open_es.1 in
    rw (accepted-dispatches d task es) (
      append_chain (dispatch d task).1 (run (dispatch d task).0 es).1
        (run (dispatch d task).0 es).0.queue d.queue (dispatch d task).0.queue
        (taken task (dispatch d task).2) (accepted (dispatch d task).0 es) (dispatch-order d task v)
        rest)
run-accepted d (settles ∷ es) v open_es =
    let rest = run-accepted (settle d).0 es (settle-IsValid d v) open_es.1 in
    append_chain (settle d).1 (run (settle d).0 es).1 (run (settle d).0 es).0.queue d.queue
      (settle d).0.queue [] (accepted (settle d).0 es) (settle-order d v ∙ sym (append-nil d.queue))
      rest
run-accepted d (closes ∷ es) v open_es = elim open_es.0 [ ]
