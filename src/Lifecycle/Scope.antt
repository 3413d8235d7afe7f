-- ===== src/Lifecycle/Scope.antt =====
-- src/core/lifecycle.ts: scopes of resources. A resource is known by its identity; what its
-- disposal does is outside, and the event that it settles says whether it threw.
pub mod Unwinding
pub mod Ends
use mathlib.Core.List.{reverse}
use fitz_ts.Base.{List, [], ◌∷◌, ◌++◌, Option, some, none, Bool, true, false, ◌||◌, if◌then◌else◌}

-- The deferred of `completion`, without null.
pub data Completion (E : Type 0) : Type 0 where
  waiting resolved : Completion E
  rejected : E → Completion E

-- `snapshot` and `errors` are those of the dispose call that runs; the head of `snapshot` is the
-- resource whose disposal is awaited. `aborted` is the signal's.
pub record Scope (E R : Type 0) : Type 0 where
  pub disposed : Bool
  pub disposing : Bool
  pub aborted : Bool
  pub completion : Option (Completion E)
  pub resources : List R
  pub snapshot : List R
  pub errors : List E

-- What a step does for those outside: a resource is taken or refused, its disposal begins, an error
-- is caught, and the dispose call that ran returns.
pub data Effect (E R : Type 0) : Type 0 where
  accepts refuses begins : R → Effect E R
  catches : E → Effect E R
  returns : Effect E R

pub data Event (E R : Type 0) : Type 0 where
  adds : R → Event E R
  disposes : Event E R
  settles : Option E → Event E R

abbrev pub ensure_completion : {E : Type 0} → Option (Completion E) → Option (Completion E)
ensure_completion none = some waiting
ensure_completion (some c) = some c

-- What the deferred is settled with.
abbrev pub outcome : {E : Type 0} → List E → Completion E
outcome [] = resolved
outcome (e ∷ errors) = rejected e

module _ {E R : Type 0} where
  abbrev pub new_scope : Scope E R
  new_scope = record {
    disposed = false;
    disposing = false;
    aborted = false;
    completion = none;
    resources = [];
    snapshot = [];
    errors = [];
  }

  unfoldable pub add : R → Scope E R → Scope E R × List (Effect E R)
  add resource s =
      if s.disposed || s.disposing
      then (s, refuses resource ∷ [])
      else (record s { resources = s.resources ++ resource ∷ [] }, accepts resource ∷ [])

  -- The loop over the snapshot: the next disposal begins, or dispose ends.
  abbrev pub dispose_from : List R → List E → Scope E R → Scope E R × List (Effect E R)
  dispose_from (r ∷ rest) errors s =
      (record s { snapshot = r ∷ rest; errors = errors }, begins r ∷ [])
  dispose_from [] errors s = (
    record s {
      snapshot = [];
      errors = errors;
      disposed = true;
      disposing = false;
      completion = some (outcome errors);
    },
    returns ∷ [],
  )

  unfoldable pub dispose : Scope E R → Scope E R × List (Effect E R)
  dispose s =
      if s.disposed || s.disposing
      then (record s { completion = ensure_completion s.completion }, [])
      else dispose_from (reverse s.resources) [] (record s {
        disposing = true;
        aborted = true;
        completion = ensure_completion s.completion;
        resources = [];
      })

  -- The awaited disposal settles.
  abbrev pub after_dispose : Option E → Scope E R → Scope E R × List (Effect E R)
  after_dispose none s = dispose_from s.snapshot s.errors s
  after_dispose (some e) s =
      let next = dispose_from s.snapshot (s.errors ++ e ∷ []) s in (next.0, catches e ∷ next.1)

  abbrev pub settled : Option E → List R → Scope E R → Scope E R × List (Effect E R)
  settled result [] s = (s, [])
  settled result (r ∷ rest) s = after_dispose result (record s { snapshot = rest })

  unfoldable pub step : Event E R → Scope E R → Scope E R × List (Effect E R)
  step (adds r) s = add r s
  step disposes s = dispose s
  step (settles result) s = settled result s.snapshot s

  -- A history of events, with all that it does.
  unfoldable pub run : List (Event E R) → Scope E R → Scope E R × List (Effect E R)
  run [] s = (s, [])
  run (e ∷ events) s =
      let now = step e s in let later = run events now.0 in (later.0, now.1 ++ later.1)
