-- ===== src/Gates/Handlers/Laws.antt =====
-- src/client/internal/async-handler-dispatcher.ts: the bounds that the dispatcher keeps.
use fitz_ts.Base.{
  ℕ, suc, ◌+◌, ◌-◌, ◌≤◌, ◌≡◌, refl, List, [], ◌∷◌, ◌++◌, Option, some, none, Bool, true, false,
  length, arith, length-append, Bool-cases, inl, inr,
}
use fitz_ts.Gates.Handlers.{
  Dispatcher, at_least_one, new_dispatcher, below, start, dispatch, flush_loop, flush, settle,
  close, Event, dispatches, settles, closes, step, run,
}

abbrev AtMost : ℕ → Option ℕ → Type 0
AtMost n none = Unit {0}
AtMost n (some limit) = n ≤ limit

-- At most `concurrency` tasks are active and at most `queue_capacity` wait; no task waits while
-- there is a place for it; and a closed dispatcher has none waiting.
pub record IsValid (d : Dispatcher) : Type 0 where
  pub bounded : AtMost d.active_count d.concurrency
  pub short : AtMost (length d.queue) d.queue_capacity
  pub busy : below d.active_count d.concurrency ≡ true → d.queue ≡ []
  pub emptied : d.closed ≡ true → d.queue ≡ []

AtMost-suc : (n : ℕ) (o : Option ℕ) → below n o ≡ true → AtMost (n + 1) o
AtMost-suc n none h = tt
AtMost-suc n (some limit) h = ground (arith, h)

AtMost-le : (m n : ℕ) (o : Option ℕ) → m ≤ n → AtMost n o → AtMost m o
AtMost-le m n none h a = tt
AtMost-le m n (some limit) h a = omega arith

AtMost-zero : (o : Option ℕ) → AtMost 0 o
AtMost-zero none = tt
AtMost-zero (some limit) = omega arith

new_dispatcher-IsValid : (c q : Option ℕ) → IsValid (new_dispatcher c q)
unfolding new_dispatcher
new_dispatcher-IsValid c q = record {
  bounded = AtMost-zero (at_least_one c);
  short = AtMost-zero q;
  busy = λ h. refl;
  emptied = λ h. refl;
}

dispatch_shut : (d : Dispatcher) (task : ℕ) → d.closed ≡ true → dispatch d task ≡ (d, [], false)
unfolding dispatch
dispatch_shut d task shut = simp (shut) refl

dispatch_free :
    (d : Dispatcher) (task : ℕ)
    → d.closed ≡ false
    → below d.active_count d.concurrency ≡ true
    → dispatch d task ≡ (start d, task ∷ [], true)
unfolding dispatch
dispatch_free d task o free = simp (o, free) refl

dispatch_room :
    (d : Dispatcher) (task : ℕ)
    → d.closed ≡ false
    → below d.active_count d.concurrency ≡ false
    → below (length d.queue) d.queue_capacity ≡ true
    → dispatch d task ≡ (record d { queue = d.queue ++ task ∷ [] }, [], true)
unfolding dispatch
dispatch_room d task o full room = simp (o, full, room) refl

dispatch_saturated :
    (d : Dispatcher) (task : ℕ)
    → d.closed ≡ false
    → below d.active_count d.concurrency ≡ false
    → below (length d.queue) d.queue_capacity ≡ false
    → dispatch d task ≡ (record d { saturation_count = d.saturation_count + 1 }, [], false)
unfolding dispatch
dispatch_saturated d task o full saturated = simp (o, full, saturated) refl

-- The four ways through `dispatch`.
pub dispatch-cases {ℓ} :
    (P : Dispatcher × List ℕ × Bool → Type ℓ) (d : Dispatcher) (task : ℕ)
    → (d.closed ≡ true → P (d, [], false))
    → (d.closed ≡ false → below d.active_count d.concurrency ≡ true → P (start d, task ∷ [], true))
    → (d.closed ≡ false
        → below d.active_count d.concurrency ≡ false
        → below (length d.queue) d.queue_capacity ≡ true
        → P (record d { queue = d.queue ++ task ∷ [] }, [], true))
    → P (record d { saturation_count = d.saturation_count + 1 }, [], false)
    → P (dispatch d task)
dispatch-cases P d task shut free room saturated = elim (Bool-cases d.closed) [
  | inl c ↦ rw (dispatch_shut d task c) (shut c)
  | inr o ↦ elim (Bool-cases (below d.active_count d.concurrency)) [
    | inl f ↦ rw (dispatch_free d task o f) (free o f)
    | inr full ↦ elim (Bool-cases (below (length d.queue) d.queue_capacity)) [
      | inl r ↦ rw (dispatch_room d task o full r) (room o full r)
      | inr s ↦ rw (dispatch_saturated d task o full s) saturated
    ]
  ]
]

dispatch-IsValid : (d : Dispatcher) (task : ℕ) → IsValid d → IsValid (dispatch d task).0
dispatch-IsValid d task v =
    dispatch-cases (λ r. IsValid r.0) d task (λ shut. v)
      (λ o free. record {
        bounded = AtMost-suc d.active_count d.concurrency free;
        short = v.short;
        busy = λ h. v.busy free;
        emptied = v.emptied;
      })
      (λ o full room. record {
        bounded = v.bounded;
        short =
            rw (length-append d.queue (task ∷ []))
              (AtMost-suc (length d.queue) d.queue_capacity room);
        busy = λ h. cc (full, h);
        emptied = λ h. cc (o, h);
      })
      (record { bounded = v.bounded; short = v.short; busy = v.busy; emptied = v.emptied })

flush_loop-IsValid :
    (d : Dispatcher) (q : List ℕ)
    → d.closed ≡ false
    → AtMost d.active_count d.concurrency
    → AtMost (length q) d.queue_capacity
    → IsValid (flush_loop d q).0
unfolding flush_loop
flush_loop-IsValid d [] o a s = record {
  bounded = a;
  short = s;
  busy = λ h. refl;
  emptied = λ h. refl;
}
flush_loop-IsValid d (task ∷ q) o a s = elim (Bool-cases (below d.active_count d.concurrency)) [
  | inl free ↦ rw free (
      flush_loop-IsValid (start d) q o (AtMost-suc d.active_count d.concurrency free)
        (AtMost-le (length q) (suc (length q)) d.queue_capacity (omega arith) s))
  | inr full ↦
      rw full
        (record { bounded = a; short = s; busy = λ h. cc (full, h); emptied = λ h. cc (o, h) })
]

pub settle_shut :
    (d : Dispatcher)
    → d.closed ≡ true
    → settle d ≡ (record d { active_count = d.active_count - 1; queue = [] }, [])
unfolding settle flush
settle_shut d shut = simp (shut) refl

pub settle_open :
    (d : Dispatcher)
    → d.closed ≡ false
    → settle d ≡ flush_loop (record d { active_count = d.active_count - 1 }) d.queue
unfolding settle flush
settle_open d o = simp (o) refl

pub settle-IsValid : (d : Dispatcher) → IsValid d → IsValid (settle d).0
settle-IsValid d v =
    let fewer =
      AtMost-le (d.active_count - 1) d.active_count d.concurrency (omega arith) v.bounded in
    elim (Bool-cases d.closed) [
      | inl shut ↦ rw (settle_shut d shut) (record {
        bounded = fewer;
        short = AtMost-le 0 (length d.queue) d.queue_capacity (omega arith) v.short;
        busy = λ h. refl;
        emptied = λ h. refl;
      })
      | inr o ↦ rw (settle_open d o) (
          flush_loop-IsValid (record d { active_count = d.active_count - 1 }) d.queue o fewer
            v.short)
    ]

close-IsValid : (d : Dispatcher) → IsValid d → IsValid (close d)
unfolding close
close-IsValid d v = record {
  bounded = v.bounded;
  short = AtMost-le 0 (length d.queue) d.queue_capacity (omega arith) v.short;
  busy = λ h. refl;
  emptied = λ h. refl;
}

pub step-IsValid : (d : Dispatcher) (e : Event) → IsValid d → IsValid (step d e).0
unfolding step
step-IsValid d (dispatches task) v = dispatch-IsValid d task v
step-IsValid d settles v = settle-IsValid d v
step-IsValid d closes v = close-IsValid d v

run-IsValid : (d : Dispatcher) (es : List Event) → IsValid d → IsValid (run d es).0
unfolding run
run-IsValid d [] v = v
run-IsValid d (e ∷ es) v = run-IsValid (step d e).0 es (step-IsValid d e v)

-- After every sequence of events, no more than `concurrency` tasks are active and no more than
-- `queue_capacity` wait, no task waits while there is a place for it, and a closed dispatcher has
-- no task waiting.
pub run-new_dispatcher-IsValid :
    (max_concurrency queue_capacity : Option ℕ) (es : List Event)
    → IsValid (run (new_dispatcher max_concurrency queue_capacity) es).0
run-new_dispatcher-IsValid c q es = run-IsValid (new_dispatcher c q) es (new_dispatcher-IsValid c q)
