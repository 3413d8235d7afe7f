-- ===== src/Domains/Subscription/Settling.antt =====
-- src/domains/internal/subscription-handle.ts: no two requests run at once, and completion settles.
use fitz_ts.Base.{
  ℕ, ◌+◌, ◌≡◌, refl, sym, ap, ◌⊎◌, inl, inr, List, [], ◌∷◌, Option, some, none, Bool, true, false,
  arith,
}
use fitz_ts.Domains.Subscription.{
  Caller, by_unsubscribe, by_fail, SubscriptionController, unsubscribe, fail, complete_local,
  on_abort, unsubscribe_settled, request_settled, new_controller, create_subscription_controller,
  Event, unsubscribes, fails, completes, aborts, settles, step,
}

abbrev pub settled : Option (Option ℕ) → Bool
settled none = false
settled (some outcome) = true

-- An active controller has an open completion and no request. One that is not active runs a request
-- or its completion is settled; with a request of `unsubscribe` it has not failed, and it is settled
-- exactly when it was completed locally.
abbrev Phase :
    (active terminal_failure locally_completed : Bool) → Option Caller → Option (Option ℕ) → Type 0
Phase true terminal locally none none = (terminal ≡ false) × (locally ≡ false)
Phase true terminal locally none (some outcome) = ⊥
Phase true terminal locally (some caller) completion = ⊥
Phase false terminal locally none none = ⊥
Phase false terminal locally none (some outcome) = Unit {0}
Phase false terminal locally (some by_unsubscribe) completion =
    (terminal ≡ false) × (settled completion ≡ locally)
Phase false terminal locally (some by_fail) none = ⊥
Phase false terminal locally (some by_fail) (some outcome) = Unit {0}

abbrev pub IsValid : SubscriptionController → Type 0
IsValid c = Phase c.active c.terminal_failure c.locally_completed c.running c.completion

abbrev pub one : Bool → ℕ
one true = 1
one false = 0

abbrev pub runs : Option Caller → ℕ
runs none = 0
runs (some caller) = 1

-- How many requests settle in a step.
abbrev pub ends : Event → SubscriptionController → ℕ
ends (settles succeeded) c = runs c.running
ends _ c = 0

pub record Keeps (c : SubscriptionController) (x : SubscriptionController × Bool) (ended : ℕ)
    : Type 0 where
  pub valid : IsValid x.0
  pub balance : runs c.running + one x.1 ≡ ended + runs x.0.running

abbrev with_state :
    Bool → Bool → Bool → Option Caller → Bool → Option (Option ℕ) → SubscriptionController
with_state a t l r s o = record {
  active = a;
  terminal_failure = t;
  locally_completed = l;
  running = r;
  listening = s;
  completion = o;
}

same-Keeps : (c : SubscriptionController) → IsValid c → Keeps c (c, false) 0
same-Keeps c v = record { valid = v; balance = omega arith }

unsubscribe-Keeps :
    (a t l : Bool) (r : Option Caller) (s : Bool) (o : Option (Option ℕ))
    → Phase a t l r o
    → Keeps (with_state a t l r s o) (unsubscribe (with_state a t l r s o)) 0
unfolding unsubscribe
unsubscribe-Keeps true t l none s none v = record { valid = (v.0, sym v.1); balance = omega arith }
unsubscribe-Keeps true t l none s (some x) v = elim v [ ]
unsubscribe-Keeps true t l (some r) s o v = elim v [ ]
unsubscribe-Keeps false t l r s o v = same-Keeps (with_state false t l r s o) v

fail-Keeps :
    (error : ℕ) (a t l : Bool) (r : Option Caller) (s : Bool) (o : Option (Option ℕ))
    → Phase a t l r o
    → Keeps (with_state a t l r s o) (fail error (with_state a t l r s o)) 0
unfolding fail
fail-Keeps error true t l none s none v = record { valid = tt; balance = omega arith }
fail-Keeps error true t l none s (some x) v = elim v [ ]
fail-Keeps error true t l (some r) s o v = elim v [ ]
fail-Keeps error false t l r s o v = same-Keeps (with_state false t l r s o) v

complete_local-Keeps :
    (a t l : Bool) (r : Option Caller) (s : Bool) (o : Option (Option ℕ))
    → Phase a t l r o
    → Keeps (with_state a t l r s o) (complete_local (with_state a t l r s o), false) 0
unfolding complete_local
complete_local-Keeps a true l r s o v = same-Keeps (with_state a true l r s o) v
complete_local-Keeps true false l none s none v = record { valid = tt; balance = omega arith }
complete_local-Keeps true false l none s (some x) v = elim v [ ]
complete_local-Keeps true false l (some r) s o v = elim v [ ]
complete_local-Keeps false false l none s none v = elim v [ ]
complete_local-Keeps false false l none s (some x) v = record { valid = tt; balance = omega arith }
complete_local-Keeps false false l (some by_unsubscribe) s none v = record {
  valid = (refl, refl);
  balance = omega arith;
}
complete_local-Keeps false false l (some by_unsubscribe) s (some x) v = record {
  valid = (refl, refl);
  balance = omega arith;
}
complete_local-Keeps false false l (some by_fail) s none v = elim v [ ]
complete_local-Keeps false false l (some by_fail) s (some x) v = record {
  valid = tt;
  balance = omega arith;
}

unsubscribe_settled-IsValid :
    (succeeded t l s : Bool) (o : Option (Option ℕ))
    → Phase false t l (some by_unsubscribe) o
    → IsValid (unsubscribe_settled succeeded (with_state false t l (some by_unsubscribe) s o))
unfolding unsubscribe_settled
unsubscribe_settled-IsValid true true l s o v = cc
unsubscribe_settled-IsValid true false l s none v = tt
unsubscribe_settled-IsValid true false l s (some x) v = tt
unsubscribe_settled-IsValid false t true s none v = cc
unsubscribe_settled-IsValid false t true s (some x) v = tt
unsubscribe_settled-IsValid false t false s none v = (v.0, refl)
unsubscribe_settled-IsValid false t false s (some x) v = cc

unsubscribe_settled-running :
    (succeeded : Bool) (c : SubscriptionController)
    → (unsubscribe_settled succeeded c).running ≡ none
unfolding unsubscribe_settled
unsubscribe_settled-running true c = refl
unsubscribe_settled-running false c = refl

request_settled-Keeps :
    (b a t l : Bool) (r : Option Caller) (s : Bool) (o : Option (Option ℕ))
    → Phase a t l r o
    → Keeps (with_state a t l r s o) (request_settled b (with_state a t l r s o), false) (runs r)
unfolding request_settled
request_settled-Keeps b a t l none s o v = same-Keeps (with_state a t l none s o) v
request_settled-Keeps b true t l (some r) s o v = elim v [ ]
request_settled-Keeps b false t l (some by_unsubscribe) s o v = record {
  valid = unsubscribe_settled-IsValid b t l s o v;
  balance = omega (
    arith,
    ap runs (unsubscribe_settled-running b (with_state false t l (some by_unsubscribe) s o)),
  );
}
request_settled-Keeps b false t l (some by_fail) s none v = elim v [ ]
request_settled-Keeps b false t l (some by_fail) s (some x) v = record {
  valid = tt;
  balance = omega arith;
}

on_abort-Keeps :
    (a t l : Bool) (r : Option Caller) (s : Bool) (o : Option (Option ℕ))
    → Phase a t l r o
    → Keeps (with_state a t l r s o) (on_abort (with_state a t l r s o)) 0
unfolding on_abort
on_abort-Keeps a t l r true o v =
    let k : Keeps (with_state a t l r false o) (unsubscribe (with_state a t l r false o)) 0 =
      unsubscribe-Keeps a t l r false o v in
    record { valid = k.valid; balance = k.balance }
on_abort-Keeps a t l r false o v = same-Keeps (with_state a t l r false o) v

step-Keeps : (e : Event) (c : SubscriptionController) → IsValid c → Keeps c (step e c) (ends e c)
unfolding step
step-Keeps unsubscribes c =
    unsubscribe-Keeps c.active c.terminal_failure c.locally_completed c.running c.listening
      c.completion
step-Keeps (fails error) c =
    fail-Keeps error c.active c.terminal_failure c.locally_completed c.running c.listening
      c.completion
step-Keeps completes c =
    complete_local-Keeps c.active c.terminal_failure c.locally_completed c.running c.listening
      c.completion
step-Keeps aborts c =
    on_abort-Keeps c.active c.terminal_failure c.locally_completed c.running c.listening
      c.completion
step-Keeps (settles b) c =
    request_settled-Keeps b c.active c.terminal_failure c.locally_completed c.running c.listening
      c.completion

-- The controller after a history, with the number of calls of unsubscribeFn.
unfoldable pub run : List Event → SubscriptionController × Bool → SubscriptionController × ℕ
run [] x = (x.0, one x.1)
run (e ∷ events) x = let later = run events (step e x.0) in (later.0, one x.1 + later.1)

-- How many requests settled in a history.
abbrev pub ended : List Event → SubscriptionController → ℕ
ended [] c = 0
ended (e ∷ events) c = ends e c + ended events (step e c).0

run-Keeps :
    (events : List Event) (c : SubscriptionController) (x : SubscriptionController × Bool) (n : ℕ)
    → Keeps c x n
    → IsValid (run events x).0
      × (runs c.running + (run events x).1 ≡ n + ended events x.0 + runs (run events x).0.running)
unfolding run
run-Keeps [] c x n k = (k.valid, omega (arith, k.balance))
run-Keeps (e ∷ events) c x n k =
    let (v, b) = run-Keeps events x.0 (step e x.0) (ends e x.0) (step-Keeps e x.0 k.valid) in
    (v, omega (arith, b, k.balance))

created-Keeps :
    (has_signal aborted : Bool)
    → Keeps (new_controller false) (create_subscription_controller has_signal aborted) 0
unfolding create_subscription_controller
created-Keeps false aborted = same-Keeps (new_controller false) (refl, refl)
created-Keeps true true = unsubscribe-Keeps true false false none false none (refl, refl)
created-Keeps true false = record { valid = (refl, refl); balance = omega arith }

-- In every history of calls, failures, local completions, aborts and settlements: unsubscribeFn was
-- called exactly as often as a request settled, and once more while one runs, so that never two run
-- at once; a controller that is active runs none and its completion is open; and one that is not
-- active runs one or its completion is settled.
pub run-ended :
    (has_signal aborted : Bool) (events : List Event)
    → let first = create_subscription_controller has_signal aborted in
      let last = run events first in
      (last.1 ≡ ended events first.0 + runs last.0.running)
      × ((last.0.active ≡ false) ⊎ ((last.0.running ≡ none) × (last.0.completion ≡ none)))
      × ((last.0.active ≡ true) ⊎ ((runs last.0.running ≡ 1) ⊎ (settled last.0.completion ≡ true)))
run-ended has_signal aborted events =
    let first = create_subscription_controller has_signal aborted in
    let (v, b) =
      run-Keeps events (new_controller false) first 0 (created-Keeps has_signal aborted) in
    let c = (run events first).0 in
    (
      omega (arith, b),
      quiet c.active c.terminal_failure c.locally_completed c.running c.completion v,
      progress c.active c.terminal_failure c.locally_completed c.running c.completion v,
    )
  where
    quiet :
        (a t l : Bool) (r : Option Caller) (o : Option (Option ℕ))
        → Phase a t l r o
        → (a ≡ false) ⊎ ((r ≡ none) × (o ≡ none))
    quiet false t l r o v = inl refl
    quiet true t l none none v = inr (refl, refl)
    quiet true t l none (some x) v = elim v [ ]
    quiet true t l (some r) o v = elim v [ ]

    progress :
        (a t l : Bool) (r : Option Caller) (o : Option (Option ℕ))
        → Phase a t l r o
        → (a ≡ true) ⊎ ((runs r ≡ 1) ⊎ (settled o ≡ true))
    progress true t l r o v = inl refl
    progress false t l none none v = elim v [ ]
    progress false t l none (some x) v = inr (inr refl)
    progress false t l (some r) o v = inr (inl refl)
