-- ===== src/Lifecycle/Group/Endings.antt =====
-- src/core/lifecycle.ts: how the unsubscribe calls of a group end.
use mathlib.Core.List.{reverse}
use fitz_ts.Base.{
  ℕ, ◌+◌, ◌-◌, ◌≡◌, refl, sym, ap, ◌∙◌, List, [], ◌∷◌, ◌++◌, append-nil, append_assoc, Option, some,
  none, Bool, true, false, arith,
}
use fitz_ts.Lifecycle.Scope.{
  Completion, waiting, resolved, rejected, Event, adds, disposes, settles,
}
use fitz_ts.Lifecycle.Group.{
  SubscriptionGroup, GroupEffect, accepts, refuses, begins, catches, throws, returns,
  returns_at_once, new_group, add, unsubscribe_from, unsubscribe, step, run,
}

-- How a promise is settled, if it is.
abbrev pub settlement : {E : Type 0} → Option (Completion E) → List (Option E)
settlement none = []
settlement (some waiting) = []
settlement (some resolved) = none ∷ []
settlement (some (rejected e)) = some e ∷ []

abbrev called : Bool → ℕ → ℕ
called true n = n
called false n = n - 1

module _ {E R : Type 0} where
  -- What the calls that run end with: `none` where one returns, and the error that it throws.
  abbrev pub endings : List (GroupEffect E R) → List (Option E)
  endings [] = []
  endings (accepts r ∷ fx) = endings fx
  endings (refuses r ∷ fx) = endings fx
  endings (begins r ∷ fx) = endings fx
  endings (catches e ∷ fx) = endings fx
  endings (throws e ∷ fx) = some e ∷ endings fx
  endings (returns ∷ fx) = none ∷ endings fx
  endings (returns_at_once ∷ fx) = endings fx

  -- How many calls return at once.
  abbrev pub repeats : List (GroupEffect E R) → ℕ
  repeats [] = 0
  repeats (accepts r ∷ fx) = repeats fx
  repeats (refuses r ∷ fx) = repeats fx
  repeats (begins r ∷ fx) = repeats fx
  repeats (catches e ∷ fx) = repeats fx
  repeats (throws e ∷ fx) = repeats fx
  repeats (returns ∷ fx) = repeats fx
  repeats (returns_at_once ∷ fx) = 1 + repeats fx

  abbrev pub calls : List (Event E R) → ℕ
  calls [] = 0
  calls (adds r ∷ events) = calls events
  calls (disposes ∷ events) = 1 + calls events
  calls (settles result ∷ events) = calls events

  endings-append : (xs ys : List (GroupEffect E R)) → endings (xs ++ ys) ≡ endings xs ++ endings ys
  endings-append [] ys = refl
  endings-append (accepts r ∷ fx) ys = endings-append fx ys
  endings-append (refuses r ∷ fx) ys = endings-append fx ys
  endings-append (begins r ∷ fx) ys = endings-append fx ys
  endings-append (catches e ∷ fx) ys = endings-append fx ys
  endings-append (throws e ∷ fx) ys = ap (λ l. some e ∷ l) (endings-append fx ys)
  endings-append (returns ∷ fx) ys = ap (λ l. none ∷ l) (endings-append fx ys)
  endings-append (returns_at_once ∷ fx) ys = endings-append fx ys

  repeats-append : (xs ys : List (GroupEffect E R)) → repeats (xs ++ ys) ≡ repeats xs + repeats ys
  repeats-append [] ys = omega arith
  repeats-append (accepts r ∷ fx) ys = repeats-append fx ys
  repeats-append (refuses r ∷ fx) ys = repeats-append fx ys
  repeats-append (begins r ∷ fx) ys = repeats-append fx ys
  repeats-append (catches e ∷ fx) ys = repeats-append fx ys
  repeats-append (throws e ∷ fx) ys = repeats-append fx ys
  repeats-append (returns ∷ fx) ys = repeats-append fx ys
  repeats-append (returns_at_once ∷ fx) ys = omega (arith, repeats-append fx ys)

  -- An open group awaits nothing and no call has run; a closed one awaits a promise that is open, or
  -- nothing.
  abbrev Fits : Bool → List R → Option (Completion E) → Type 0
  Fits false [] none = Unit {0}
  Fits false [] (some c) = ⊥
  Fits false (r ∷ rest) result = ⊥
  Fits true [] result = Unit {0}
  Fits true (r ∷ rest) none = ⊥
  Fits true (r ∷ rest) (some waiting) = Unit {0}
  Fits true (r ∷ rest) (some resolved) = ⊥
  Fits true (r ∷ rest) (some (rejected e)) = ⊥

  -- Of a step: what ended is what the promise is newly settled with, and of the calls of the step and
  -- `n` later ones all but the one that runs return at once.
  record Ends (g : SubscriptionGroup E R) (e : Event E R)
      (x : SubscriptionGroup E R × List (GroupEffect E R)) : Type 0 where
    fits : Fits x.0.closed x.0.snapshot x.0.result
    ending : settlement x.0.result ≡ settlement g.result ++ endings x.1
    repeat : (n : ℕ) → repeats x.1 + called x.0.closed n ≡ called g.closed (calls (e ∷ []) + n)

  abbrev with_state :
      Bool → List R → Option (Completion E) → SubscriptionGroup E R → SubscriptionGroup E R
  with_state c l r g = record g { closed = c; snapshot = l; result = r }

  from_waiting :
      (snapshot : List R) (errors : List E) (g : SubscriptionGroup E R)
      → g.result ≡ some waiting
      → g.closed ≡ true
      → Fits
          (unsubscribe_from snapshot errors g).0.closed
          (unsubscribe_from snapshot errors g).0.snapshot
          (unsubscribe_from snapshot errors g).0.result
        × (settlement (unsubscribe_from snapshot errors g).0.result
            ≡ endings (unsubscribe_from snapshot errors g).1)
        × (repeats (unsubscribe_from snapshot errors g).1 ≡ 0)
        × ((unsubscribe_from snapshot errors g).0.closed ≡ true)
  from_waiting snapshot errors g p q = cases snapshot errors g.closed g.result p q
    where
      at : Bool → Option (Completion E) → SubscriptionGroup E R
      at c r = record g { closed = c; result = r }

      cases :
          (l : List R) (errors : List E) (c : Bool) (r : Option (Completion E))
          → r ≡ some waiting
          → c ≡ true
          → Fits
              (unsubscribe_from l errors (at c r)).0.closed
              (unsubscribe_from l errors (at c r)).0.snapshot
              (unsubscribe_from l errors (at c r)).0.result
            × (settlement (unsubscribe_from l errors (at c r)).0.result
                ≡ endings (unsubscribe_from l errors (at c r)).1)
            × (repeats (unsubscribe_from l errors (at c r)).1 ≡ 0)
            × ((unsubscribe_from l errors (at c r)).0.closed ≡ true)
      cases l errors false r p q = cc
      cases [] [] true r p q = (tt, refl, refl, refl)
      cases [] (e ∷ errors) true r p q = (tt, refl, refl, refl)
      cases (x ∷ l) errors true none p q = cc
      cases (x ∷ l) errors true (some waiting) p q = (tt, refl, refl, refl)
      cases (x ∷ l) errors true (some resolved) p q = cc
      cases (x ∷ l) errors true (some (rejected e)) p q = cc

  step-Ends :
      (e : Event E R) (g : SubscriptionGroup E R)
      → Fits g.closed g.snapshot g.result
      → Ends g e (step e g)
  unfolding step add unsubscribe
  step-Ends e g = cases e g.closed g.snapshot g.result
    where
      at : Bool → List R → Option (Completion E) → SubscriptionGroup E R
      at c l r = with_state c l r g

      cases :
          (e : Event E R) (c : Bool) (l : List R) (r : Option (Completion E))
          → Fits c l r
          → Ends (at c l r) e (step e (at c l r))
      cases (adds x) true l r v = record {
        fits = v;
        ending = sym (append-nil (settlement r));
        repeat = λ n. omega arith;
      }
      cases (adds x) false l r v = record {
        fits = v;
        ending = sym (append-nil (settlement r));
        repeat = λ n. omega arith;
      }
      cases disposes true l r v = record {
        fits = v;
        ending = sym (append-nil (settlement r));
        repeat = λ n. omega arith;
      }
      cases disposes false [] none v =
          let (f, s, z, k) =
            from_waiting (reverse g.subscriptions) []
              (record (at true [] (some waiting)) { subscriptions = [] }) refl refl in
          record { fits = f; ending = s; repeat = λ n. omega (arith, z, ap (λ c. called c n) k) }
      cases disposes false [] (some c) v = elim v [ ]
      cases disposes false (x ∷ l) r v = elim v [ ]
      cases (settles result) true [] r v = record {
        fits = v;
        ending = sym (append-nil (settlement r));
        repeat = λ n. omega arith;
      }
      cases (settles result) false [] r v = record {
        fits = v;
        ending = sym (append-nil (settlement r));
        repeat = λ n. omega arith;
      }
      cases (settles none) true (x ∷ l) (some waiting) v =
          let (f, s, z, k) = from_waiting l g.errors (at true l (some waiting)) refl refl in
          record { fits = f; ending = s; repeat = λ n. omega (arith, z, ap (λ c. called c n) k) }
      cases (settles (some e)) true (x ∷ l) (some waiting) v =
          let (f, s, z, k) =
            from_waiting l (g.errors ++ e ∷ []) (at true l (some waiting)) refl refl in
          record { fits = f; ending = s; repeat = λ n. omega (arith, z, ap (λ c. called c n) k) }
      cases (settles result) false (x ∷ l) r v = elim v [ ]
      cases (settles result) true (x ∷ l) none v = elim v [ ]
      cases (settles result) true (x ∷ l) (some resolved) v = elim v [ ]
      cases (settles result) true (x ∷ l) (some (rejected e)) v = elim v [ ]

  run-Ends :
      (events : List (Event E R)) (g : SubscriptionGroup E R)
      → Fits g.closed g.snapshot g.result
      → (settlement (run events g).0.result ≡ settlement g.result ++ endings (run events g).1)
        × (repeats (run events g).1 ≡ called g.closed (calls events))
  unfolding run
  run-Ends [] g v = (sym (append-nil (settlement g.result)), zero_calls g.closed)
    where
      zero_calls : (c : Bool) → 0 ≡ called c 0
      zero_calls true = refl
      zero_calls false = refl
  run-Ends (e ∷ events) g v =
      let now = step e g in
      let k = step-Ends e g v in
      let (ending, repeat) = run-Ends events now.0 k.fits in
      (
        ending
            ∙ ap (λ l. l ++ endings (run events now.0).1) k.ending
            ∙ append_assoc (settlement g.result) (endings now.1) (endings (run events now.0).1)
            ∙ ap (λ l. settlement g.result ++ l) (sym (endings-append now.1 (run events now.0).1)),
        omega (
          arith,
          repeats-append now.1 (run events now.0).1,
          repeat,
          k.repeat (calls events),
          ap (called g.closed) (calls-cons e events),
        ),
      )
    where
      calls-cons :
          (e : Event E R) (events : List (Event E R))
          → calls (e ∷ []) + calls events ≡ calls (e ∷ events)
      calls-cons (adds r) events = omega arith
      calls-cons disposes events = omega arith
      calls-cons (settles result) events = omega arith

  -- The calls of a new group.
  pub run-new_group-Ends :
      (events : List (Event E R))
      → (settlement (run events new_group).0.result ≡ endings (run events new_group).1)
        × (repeats (run events new_group).1 ≡ calls events - 1)
  run-new_group-Ends events = run-Ends events new_group tt
