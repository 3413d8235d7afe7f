-- ===== src/Lifecycle/Group/Refines.antt =====
-- src/core/lifecycle.ts: a subscription group against a scope.
use mathlib.Core.List.{reverse}
use fitz_ts.Base.{
  ◌≡◌, refl, sym, ap, ◌∙◌, List, [], ◌∷◌, ◌++◌, length, Option, some, none, Bool, true, false, ◌||◌,
  arith, ◌-◌,
}
use fitz_ts.Lifecycle.Scope.{
  Scope, Completion, waiting, Effect, Event, adds, disposes, settles, new_scope, ensure_completion,
  dispose_from, dispose,
}
use fitz_ts.Lifecycle.Scope
use fitz_ts.Lifecycle.Group.Endings.{endings, repeats, settlement, calls, run-new_group-Ends}
use fitz_ts.Lifecycle.Scope.Unwinding.{Unwinds, flagged, step-After}
use fitz_ts.Lifecycle.Group.{
  SubscriptionGroup, GroupEffect, accepts, refuses, begins, catches, throws, returns,
  returns_at_once, new_group, add, unsubscribe_from, unsubscribe, settled, step, run,
}

module _ {E R : Type 0} where
  -- A scope, seen as a group: closed once its disposal begins.
  abbrev pub as_group : Scope E R → SubscriptionGroup E R
  as_group s = record {
    closed = s.disposed || s.disposing;
    subscriptions = s.resources;
    snapshot = s.snapshot;
    errors = s.errors;
    result = s.completion;
  }

  abbrev pub seen : Scope E R × List (Effect E R) → SubscriptionGroup E R × List (Effect E R)
  seen x = (as_group x.0, x.1)

  -- The effects of a group that a scope has too: in place of the calls on a closed group, the calls
  -- of dispose wait for the completion, and the call that runs returns also where there are errors.
  abbrev pub erase : List (GroupEffect E R) → List (Effect E R)
  erase [] = []
  erase (accepts r ∷ fx) = Scope.accepts r ∷ erase fx
  erase (refuses r ∷ fx) = Scope.refuses r ∷ erase fx
  erase (begins r ∷ fx) = Scope.begins r ∷ erase fx
  erase (catches e ∷ fx) = Scope.catches e ∷ erase fx
  erase (throws e ∷ fx) = Scope.returns ∷ erase fx
  erase (returns ∷ fx) = Scope.returns ∷ erase fx
  erase (returns_at_once ∷ fx) = erase fx

  erase-append : (xs ys : List (GroupEffect E R)) → erase (xs ++ ys) ≡ erase xs ++ erase ys
  erase-append [] ys = refl
  erase-append (accepts r ∷ fx) ys = ap (λ l. Scope.accepts r ∷ l) (erase-append fx ys)
  erase-append (refuses r ∷ fx) ys = ap (λ l. Scope.refuses r ∷ l) (erase-append fx ys)
  erase-append (begins r ∷ fx) ys = ap (λ l. Scope.begins r ∷ l) (erase-append fx ys)
  erase-append (catches e ∷ fx) ys = ap (λ l. Scope.catches e ∷ l) (erase-append fx ys)
  erase-append (throws e ∷ fx) ys = ap (λ l. Scope.returns ∷ l) (erase-append fx ys)
  erase-append (returns ∷ fx) ys = ap (λ l. Scope.returns ∷ l) (erase-append fx ys)
  erase-append (returns_at_once ∷ fx) ys = erase-append fx ys

  abbrev erased :
      SubscriptionGroup E R × List (GroupEffect E R) → SubscriptionGroup E R × List (Effect E R)
  erased x = (x.0, erase x.1)

  loop-seen :
      (snapshot : List R) (errors : List E) (s : Scope E R)
      → erased (unsubscribe_from snapshot errors (as_group (flagged false true s)))
        ≡ seen (dispose_from snapshot errors (flagged false true s))
  loop-seen [] [] s = refl
  loop-seen [] (e ∷ errors) s = refl
  loop-seen (r ∷ rest) errors s = refl

  add-seen :
      (r : R) (s : Scope E R) (ts bs : List R) (es : List E)
      → Unwinds s ts bs es
      → erased (add r (as_group s)) ≡ seen (Scope.add r s)
  unfolding add Scope.add
  add-seen r s ts bs es = cases s.disposed s.disposing
    where
      cases :
          (d g : Bool)
          → Unwinds (flagged d g s) ts bs es
          → erased (add r (as_group (flagged d g s))) ≡ seen (Scope.add r (flagged d g s))
      cases false false h = refl
      cases false true h = refl
      cases true false h = refl
      cases true true h = elim h [ ]

  unsubscribe-seen :
      (s : Scope E R) (ts bs : List R) (es : List E)
      → Unwinds s ts bs es
      → erased (unsubscribe (as_group s)) ≡ seen (dispose s)
  unfolding unsubscribe dispose
  unsubscribe-seen s ts bs es = cases s.disposed s.disposing
    where
      cases :
          (d g : Bool)
          → Unwinds (flagged d g s) ts bs es
          → erased (unsubscribe (as_group (flagged d g s))) ≡ seen (dispose (flagged d g s))
      cases false false h =
          let t : Scope E R = record s {
            aborted = true;
            completion = ensure_completion s.completion;
            resources = [];
          } in
          ap
            (λ c. erased (
              unsubscribe_from (reverse s.resources) []
                (record (as_group (flagged false true t)) { result = c })))
            (sym (ap ensure_completion h.4))
          ∙ loop-seen (reverse s.resources) [] t
      cases false true h =
          ap (λ c. (record (as_group (flagged false true s)) { result = c }, []))
            (h.2 ∙ sym (ap ensure_completion h.2))
      cases true false h =
          ap (λ c. (record (as_group (flagged true false s)) { result = c }, []))
            (h.2 ∙ sym (ap ensure_completion h.2))
      cases true true h = elim h [ ]

  settled-seen :
      (result : Option E) (s : Scope E R) (ts bs : List R) (es : List E)
      → Unwinds s ts bs es
      → erased (settled result s.snapshot (as_group s)) ≡ seen (Scope.settled result s.snapshot s)
  settled-seen result s ts bs es = cases s.disposed s.disposing result s.snapshot
    where
      at : Bool → Bool → List R → Scope E R
      at d g l = record s { disposed = d; disposing = g; snapshot = l }

      cases :
          (d g : Bool) (result : Option E) (l : List R)
          → Unwinds (at d g l) ts bs es
          → erased (settled result l (as_group (at d g l)))
            ≡ seen (Scope.settled result l (at d g l))
      cases d g result [] h = refl
      cases false false result (r ∷ rest) h = absurd (omega (arith, ap length h.1))
      cases false true none (r ∷ rest) h = loop-seen rest s.errors (record s { snapshot = rest })
      cases false true (some e) (r ∷ rest) h =
          ap (λ x. (x.0, Scope.catches e ∷ x.1))
            (loop-seen rest (s.errors ++ e ∷ []) (record s { snapshot = rest }))
      cases true false result (r ∷ rest) h = absurd (omega (arith, ap length h.1))
      cases true true result (r ∷ rest) h = elim h [ ]

  step-seen :
      (e : Event E R) (s : Scope E R) (ts bs : List R) (es : List E)
      → Unwinds s ts bs es
      → erased (step e (as_group s)) ≡ seen (Scope.step e s)
  unfolding step Scope.step
  step-seen (adds r) s ts bs es h = add-seen r s ts bs es h
  step-seen disposes s ts bs es h = unsubscribe-seen s ts bs es h
  step-seen (settles result) s ts bs es h = settled-seen result s ts bs es h

  run-seen :
      (events : List (Event E R)) (s : Scope E R) (ts bs : List R) (es : List E)
      → Unwinds s ts bs es
      → erased (run events (as_group s)) ≡ seen (Scope.run events s)
  unfolding run Scope.run
  run-seen [] s ts bs es h = refl
  run-seen (e ∷ events) s ts bs es h =
      let now = step e (as_group s) in
      ap (λ l. ((run events now.0).0, l)) (erase-append now.1 (run events now.0).1)
      ∙ ap (λ x. (x.0, erase now.1 ++ x.1))
          (ap (λ g. erased (run events g)) (ap (λ x. x.0) (step-seen e s ts bs es h))
            ∙ run-seen events (Scope.step e s).0 _ _ _ (step-After e s ts bs es h))
      ∙ ap
          (λ l. (
            as_group (Scope.run events (Scope.step e s).0).0,
            l ++ (Scope.run events (Scope.step e s).0).1,
          ))
          (ap (λ x. x.1) (step-seen e s ts bs es h))

  -- After every history, against a scope on the same calls: the group's state is the scope's, closed
  -- once disposal begins; it has done to the outside what the scope has, in the same order, but that
  -- its call that runs throws where the scope's dispose returns; what that call ends with, a return
  -- or the error that it throws, is what the completion of the scope is settled with; and all its
  -- later calls return at once, where those of the scope wait for the completion.
  pub run-as_group :
      (events : List (Event E R))
      → let x = run events (new_group {E = E} {R = R}) in
        let y = Scope.run events (new_scope {E = E} {R = R}) in
        (x.0 ≡ as_group y.0)
        × (erase x.1 ≡ y.1)
        × (endings x.1 ≡ settlement y.0.completion)
        × (repeats x.1 ≡ calls events - 1)
  run-as_group events =
      let same = run-seen events new_scope [] [] [] (refl, refl, refl, refl, refl) in
      let (ending, repeat) = run-new_group-Ends events in
      let state = ap (λ z. z.0) same in
      (state, ap (λ z. z.1) same, sym ending ∙ ap (λ g. settlement g.result) state, repeat)
