-- ===== src/Lifecycle/Group.antt =====
-- src/core/lifecycle.ts, createSubscriptionGroupInternal: the events are those of a scope, where
-- unsubscribe stands for dispose.
pub mod Endings
pub mod Refines
use mathlib.Core.List.{reverse}
use fitz_ts.Base.{List, [], ◌∷◌, ◌++◌, Option, some, none, Bool, true, false, if◌then◌else◌}
use fitz_ts.Lifecycle.Scope.{Completion, waiting, Event, adds, disposes, settles, outcome}

-- What a step does for those outside. The unsubscribe call that runs returns, or throws the first
-- error; a call on a closed group returns at once.
pub data GroupEffect (E R : Type 0) : Type 0 where
  accepts refuses begins : R → GroupEffect E R
  catches throws : E → GroupEffect E R
  returns returns_at_once : GroupEffect E R

-- `snapshot`, `errors` and `result` are those of the unsubscribe call that runs, `result` being its
-- promise; the head of `snapshot` is the subscription whose end is awaited.
pub record SubscriptionGroup (E R : Type 0) : Type 0 where
  pub closed : Bool
  pub subscriptions : List R
  pub snapshot : List R
  pub errors : List E
  pub result : Option (Completion E)

module _ {E R : Type 0} where
  abbrev pub new_group : SubscriptionGroup E R
  new_group = record {
    closed = false;
    subscriptions = [];
    snapshot = [];
    errors = [];
    result = none;
  }

  unfoldable pub add : R → SubscriptionGroup E R → SubscriptionGroup E R × List (GroupEffect E R)
  add subscription g = if g.closed then (g, refuses subscription ∷ []) else (
    record g { subscriptions = g.subscriptions ++ subscription ∷ [] },
    accepts subscription ∷ [],
  )

  -- `if (errors.length > 0) throw errors[0]`
  abbrev pub ended : List E → GroupEffect E R
  ended [] = returns
  ended (e ∷ errors) = throws e

  -- The loop over the snapshot: the next subscription is ended, or unsubscribe ends.
  abbrev pub unsubscribe_from :
      List R → List E → SubscriptionGroup E R → SubscriptionGroup E R × List (GroupEffect E R)
  unsubscribe_from (r ∷ rest) errors g =
      (record g { snapshot = r ∷ rest; errors = errors }, begins r ∷ [])
  unsubscribe_from [] errors g = (
    record g { snapshot = []; errors = errors; result = some (outcome errors) },
    ended errors ∷ [],
  )

  unfoldable pub unsubscribe :
      SubscriptionGroup E R → SubscriptionGroup E R × List (GroupEffect E R)
  unsubscribe g =
      if g.closed
      then (g, returns_at_once ∷ [])
      else unsubscribe_from (reverse g.subscriptions) []
          (record g { closed = true; subscriptions = []; result = some waiting })

  abbrev pub after_unsubscribe :
      Option E → SubscriptionGroup E R → SubscriptionGroup E R × List (GroupEffect E R)
  after_unsubscribe none g = unsubscribe_from g.snapshot g.errors g
  after_unsubscribe (some e) g =
      let next = unsubscribe_from g.snapshot (g.errors ++ e ∷ []) g in (next.0, catches e ∷ next.1)

  abbrev pub settled :
      Option E → List R → SubscriptionGroup E R → SubscriptionGroup E R × List (GroupEffect E R)
  settled result [] g = (g, [])
  settled result (r ∷ rest) g = after_unsubscribe result (record g { snapshot = rest })

  unfoldable pub step :
      Event E R → SubscriptionGroup E R → SubscriptionGroup E R × List (GroupEffect E R)
  step (adds r) g = add r g
  step disposes g = unsubscribe g
  step (settles result) g = settled result g.snapshot g

  unfoldable pub run :
      List (Event E R) → SubscriptionGroup E R → SubscriptionGroup E R × List (GroupEffect E R)
  run [] g = (g, [])
  run (e ∷ events) g =
      let now = step e g in let later = run events now.0 in (later.0, now.1 ++ later.1)
