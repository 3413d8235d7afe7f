-- ===== src/Multiplexer/Timers/Clock.antt =====
-- src/client/multiplexer.ts: the timer is armed for the earliest deadline.
use mathlib.Core.Path.{subst}
use fitz_ts.Base.{
  ℕ, ◌<◌, ◌≤◌, ◌≡◌, refl, sym, ap, List, [], ◌∷◌, length, All, Option, some, none, Option-cases,
  Bool, true, false, leb, arith, Bool-cases, inl, inr,
}
use fitz_ts.Multiplexer.Timers.{
  TimeoutEntry, heapify_up, pushed, find, remove_timeout_entry, Timers, new_timers,
  schedule_timeout, add_timeout, get_next_timeout_deadline, is_some, handle_timeouts, Event, issues,
  finalizes, fires, cancels, step, run,
}
use fitz_ts.Multiplexer.Timers.Order.{IsHeap, IsIndexed, count, Moved, root_least}
use fitz_ts.Multiplexer.Timers.Removal.{
  count-pushed, remove_timeout_entry_gone, heapify_up-pushed, remove_timeout_entry-Taken,
}
use fitz_ts.Multiplexer.Timers.Expiry.{
  AtLeast, count-AtLeast, AtLeast-count, before, All-at, Expired, expire-Expired,
}

-- The timer is armed for a time that is no later than any deadline, if there is one.
abbrev pub InTime : Bool → Option ℕ → List TimeoutEntry → Type 0
InTime false next xs = xs ≡ []
InTime true none xs = ⊥
InTime true (some next) xs = All (λ e. next ≤ e.deadline) xs

pub record IsValid (t : Timers) : Type 0 where
  pub heap : IsHeap t.entries
  pub indexed : IsIndexed t.entries
  pub in_time : InTime t.armed t.next_timeout_deadline t.entries

new_timers-IsValid : IsValid new_timers
unfolding new_timers
new_timers-IsValid = record {
  heap = λ c p q. absurd (omega (arith, q));
  indexed = λ k q. absurd (omega (arith, q));
  in_time = refl;
}

-- Fewer entries are still in time.
InTime-fewer :
    (armed : Bool) (next : Option ℕ) (xs ys : List TimeoutEntry)
    → ((p : ℕ → ℕ → Bool) → count p ys ≤ count p xs)
    → InTime armed next xs
    → InTime armed next ys
InTime-fewer false next xs [] fewer h = refl
InTime-fewer false next xs (y ∷ ys) fewer h =
    absurd (omega (arith, fewer (λ id d. true), ap (count (λ id d. true)) h))
InTime-fewer true none xs ys fewer h = elim h [ ]
InTime-fewer true (some next) xs ys fewer h =
    AtLeast-count next ys (omega (arith, fewer (before next), count-AtLeast next xs h))

finalizes-IsValid :
    (id : ℕ) (t : Timers)
    → IsValid t
    → IsValid (record t { entries = remove_timeout_entry t.entries id })
finalizes-IsValid id t v = elim (Option-cases (find id t.entries)) [
  | inl gone ↦
      subst (λ xs. IsValid (record t { entries = xs }))
        (sym (remove_timeout_entry_gone t.entries id gone)) v
  | inr (e, found) ↦
      let r = remove_timeout_entry-Taken t.entries id e v.heap v.indexed found in
      record {
        heap = r.heap;
        indexed = r.indexed;
        in_time =
            InTime-fewer t.armed t.next_timeout_deadline t.entries
              (remove_timeout_entry t.entries id) (λ p. omega (arith, r.counts p)) v.in_time;
      }
]

AtLeast-earlier : (d n : ℕ) (xs : List TimeoutEntry) → d < n → AtLeast n xs → AtLeast d xs
AtLeast-earlier d n [] le h = tt
AtLeast-earlier d n (x ∷ xs) le h = (omega (arith, h.0), AtLeast-earlier d n xs le h.1)

module _ (id deadline : ℕ) (xs : List TimeoutEntry) (h : IsHeap xs) (ix : IsIndexed xs) where
  abbrev grown : List TimeoutEntry
  grown = heapify_up (length xs) (pushed xs id deadline) (length xs)

  grown-Moved : Moved (pushed xs id deadline) grown
  grown-Moved = heapify_up-pushed xs h ix id deadline

  grown-AtLeast : (d : ℕ) → d ≤ deadline → AtLeast d xs → AtLeast d grown
  grown-AtLeast d le all = AtLeast-count d grown (
      ground (
        arith,
        grown-Moved.same (before d),
        count-pushed (before d) xs id deadline,
        count-AtLeast d xs all,
      ))

  grown-IsValid :
      (armed : Bool) (next : Option ℕ)
      → InTime armed next grown
      → IsValid (record { entries = grown; armed = armed; next_timeout_deadline = next })
  grown-IsValid armed next t = record {
    heap = grown-Moved.heap;
    indexed = grown-Moved.indexed;
    in_time = t;
  }

  abbrev scheduled : Bool → Option ℕ → Timers
  scheduled armed next =
      schedule_timeout deadline
        (record { entries = grown; armed = armed; next_timeout_deadline = next })

  scheduled-IsValid :
      (armed : Bool) (next : Option ℕ) → InTime armed next xs → IsValid (scheduled armed next)
  unfolding schedule_timeout
  scheduled-IsValid false next t =
      grown-IsValid true (some deadline)
        (grown-AtLeast deadline (omega arith) (subst (AtLeast deadline) (sym t) tt))
  scheduled-IsValid true none t = elim t [ ]
  scheduled-IsValid true (some next) t = elim (Bool-cases (leb next deadline)) [
    | inl earlier ↦
        rw earlier (grown-IsValid true (some next) (grown-AtLeast next (ground arith) t))
    | inr later ↦ rw later (
        grown-IsValid true (some deadline) (
          grown-AtLeast deadline (omega arith) (AtLeast-earlier deadline next xs (ground arith) t)))
  ]

add_timeout-IsValid :
    (id deadline : ℕ) (t : Timers) → IsValid t → IsValid (add_timeout id deadline t)
unfolding add_timeout
add_timeout-IsValid id deadline t v =
    scheduled-IsValid id deadline t.entries v.heap v.indexed t.armed t.next_timeout_deadline
      v.in_time

next-InTime :
    (xs : List TimeoutEntry)
    → IsHeap xs
    → InTime (is_some (get_next_timeout_deadline xs)) (get_next_timeout_deadline xs) xs
unfolding get_next_timeout_deadline
next-InTime [] h = refl
next-InTime (x ∷ xs) h =
    All-at (λ e. x.deadline ≤ e.deadline) (x ∷ xs) (λ k q. root_least (x ∷ xs) k h q)

pub handle_timeouts-Expired :
    (now : ℕ) (t : Timers)
    → IsValid t
    → Expired now t.entries (handle_timeouts now t).0.entries (handle_timeouts now t).1
unfolding handle_timeouts
handle_timeouts-Expired now t v =
    expire-Expired (length t.entries) now t.entries (omega arith) v.heap v.indexed

handle_timeouts-IsValid : (now : ℕ) (t : Timers) → IsValid t → IsValid (handle_timeouts now t).0
unfolding handle_timeouts
handle_timeouts-IsValid now t v =
    let r = expire-Expired (length t.entries) now t.entries (omega arith) v.heap v.indexed in
    record { heap = r.heap; indexed = r.indexed; in_time = next-InTime _ r.heap }

step-IsValid : (e : Event) (t : Timers) → IsValid t → IsValid (step e t).0
unfolding step
step-IsValid (issues id deadline) t v = add_timeout-IsValid id deadline t v
step-IsValid (finalizes id) t v = finalizes-IsValid id t v
step-IsValid (fires now) t v = handle_timeouts-IsValid now t v
step-IsValid cancels t v = new_timers-IsValid

run-IsValid : (events : List Event) (t : Timers) → IsValid t → IsValid (run events t)
unfolding run
run-IsValid [] t v = v
run-IsValid (e ∷ events) t v = run-IsValid events (step e t).0 (step-IsValid e t v)

-- Whatever requests are issued, finalized and cancelled and whenever the timer fires, in any order:
-- the deadlines are a heap whose entries know their places, and as long as a request waits, the
-- timer is armed for a time that is no later than any deadline.
pub run-new_timers-IsValid : (events : List Event) → IsValid (run events new_timers)
run-new_timers-IsValid events = run-IsValid events new_timers new_timers-IsValid

-- When the timer fires after any history, those and only those requests time out whose deadlines
-- have come, each as often as it stood in the heap and the earliest deadline first; all others stay.
pub handle_timeouts-run :
    (events : List Event) (now : ℕ)
    → let t = run events new_timers in
      Expired now t.entries (handle_timeouts now t).0.entries (handle_timeouts now t).1
handle_timeouts-run events now =
    handle_timeouts-Expired now (run events new_timers) (run-new_timers-IsValid events)
