-- ===== src/Tests/Disposing.antt =====
-- A scope with three resources, one of which throws when it is disposed of.
use fitz_ts.Base.{ℕ, ◌-◌, ◌≡◌, refl, [], ◌∷◌, List, some, none}
use fitz_ts.Lifecycle.Scope.{Scope, Event, adds, disposes, settles, run, new_scope, rejected}
use fitz_ts.Lifecycle.Group
use fitz_ts.Lifecycle.Group.{new_group}
use fitz_ts.Lifecycle.Group.Refines.{as_group, erase, run-as_group}
use fitz_ts.Lifecycle.Group.Endings.{endings, repeats, settlement, calls}
use fitz_ts.Lifecycle.Scope.Unwinding.{Unwinds, taken, begun, caught, run-new_scope-Unwinds}
use fitz_ts.Lifecycle.Scope.Ends.{IsDisposed, run-disposes}

abbrev history : List (Event ℕ ℕ)
history = adds 1 ∷ adds 2 ∷ adds 3 ∷ disposes ∷ adds 4 ∷ settles none ∷ settles (some 9) ∷ []

reversed : begun (run history new_scope).1 ≡ 3 ∷ 2 ∷ 1 ∷ []
unfolding run fitz_ts.Lifecycle.Scope.step fitz_ts.Lifecycle.Scope.add
    fitz_ts.Lifecycle.Scope.dispose
reversed = refl

run-new_scope-Unwinds_example :
    Unwinds
      (run history new_scope).0
      (taken (run history new_scope).1)
      (begun (run history new_scope).1)
      (caught (run history new_scope).1)
run-new_scope-Unwinds_example = run-new_scope-Unwinds history

abbrev three : Scope ℕ ℕ
three = record (new_scope {E = ℕ} {R = ℕ}) { resources = 1 ∷ 2 ∷ 3 ∷ [] }

run-disposes_example :
    IsDisposed
      (run (disposes ∷ settles none ∷ settles (some 9) ∷ settles (some 7) ∷ []) three)
      (3 ∷ 2 ∷ 1 ∷ [])
      (9 ∷ 7 ∷ [])
run-disposes_example = run-disposes three (none ∷ some 9 ∷ some 7 ∷ []) refl refl refl

run-as_group_example :
    let x = Group.run history new_group in
    let y = run history new_scope in
    (x.0 ≡ as_group y.0)
    × (erase x.1 ≡ y.1)
    × (endings x.1 ≡ settlement y.0.completion)
    × (repeats x.1 ≡ calls history - 1)
run-as_group_example = run-as_group history

-- The second of three calls comes while the first one runs, and the third one after its end.
abbrev again : List (Event ℕ ℕ)
again = adds 1 ∷ disposes ∷ disposes ∷ settles (some 9) ∷ disposes ∷ []

called_again :
    (Group.run again new_group).1
    ≡ Group.accepts 1
      ∷ Group.begins 1
      ∷ Group.returns_at_once
      ∷ Group.catches 9
      ∷ Group.throws 9
      ∷ Group.returns_at_once
      ∷ []
unfolding Group.run Group.step Group.add Group.unsubscribe
called_again = refl
