-- ===== src/Domains/Subscription.antt =====
-- src/domains/internal/subscription-handle.ts, createSubscriptionController: one step is a call, the
-- abort, or that a request to unsubscribe settles, with the turns in which that is taken note of.
pub mod Settling
use fitz_ts.Base.{ℕ, List, [], ◌∷◌, Option, some, none, Bool, true, false, if◌then◌else◌}

-- Who started the request that runs.
pub data Caller : Type 0 where
  by_unsubscribe by_fail : Caller

-- `completion` is `none` while the promise is open, and then what `some` says: `none` that it is
-- resolved, and `some` an error that it is rejected. `running` is the request that `pending` awaits.
pub record SubscriptionController : Type 0 where
  pub active : Bool
  pub terminal_failure : Bool
  pub locally_completed : Bool
  pub running : Option Caller
  pub listening : Bool
  pub completion : Option (Option ℕ)

-- A promise keeps its first settlement.
abbrev pub settle : Option ℕ → Option (Option ℕ) → Option (Option ℕ)
settle outcome none = some outcome
settle outcome (some settled) = some settled

-- The Boolean of a step is whether it calls unsubscribeFn.
unfoldable pub unsubscribe : SubscriptionController → SubscriptionController × Bool
unsubscribe c =
    if c.active
    then (record c { active = false; listening = false; running = some by_unsubscribe }, true)
    else (c, false)

unfoldable pub fail : ℕ → SubscriptionController → SubscriptionController × Bool
fail error c =
    if c.active
    then (
      record c {
        active = false;
        terminal_failure = true;
        listening = false;
        completion = settle (some error) c.completion;
        running = some by_fail;
      },
      true,
    )
    else (c, false)

unfoldable pub complete_local : SubscriptionController → SubscriptionController
complete_local c = if c.terminal_failure then c else record c {
  locally_completed = true;
  active = false;
  listening = false;
  completion = settle none c.completion;
}

-- The signal is aborted; its listener is called once.
unfoldable pub on_abort : SubscriptionController → SubscriptionController × Bool
on_abort c = if c.listening then unsubscribe (record c { listening = false }) else (c, false)

-- The request of `unsubscribe` settles.
unfoldable pub unsubscribe_settled : Bool → SubscriptionController → SubscriptionController
unsubscribe_settled true c = record c {
  running = none;
  completion = if c.terminal_failure then c.completion else settle none c.completion;
}
unsubscribe_settled false c = record c {
  running = none;
  active = if c.locally_completed then c.active else true;
}

abbrev pub settled_of : Option Caller → Bool → SubscriptionController → SubscriptionController
settled_of none succeeded c = c
settled_of (some by_unsubscribe) succeeded c = unsubscribe_settled succeeded c
settled_of (some by_fail) succeeded c = record c { running = none }

unfoldable pub request_settled : Bool → SubscriptionController → SubscriptionController
request_settled succeeded c = settled_of c.running succeeded c

abbrev pub new_controller : Bool → SubscriptionController
new_controller listening = record {
  active = true;
  terminal_failure = false;
  locally_completed = false;
  running = none;
  listening = listening;
  completion = none;
}

-- A signal may be there, and may be aborted already.
unfoldable pub create_subscription_controller :
    (has_signal aborted : Bool) → SubscriptionController × Bool
create_subscription_controller false aborted = (new_controller false, false)
create_subscription_controller true true = unsubscribe (new_controller false)
create_subscription_controller true false = (new_controller true, false)

pub data Event : Type 0 where
  unsubscribes : Event
  fails : (error : ℕ) → Event
  completes aborts : Event
  settles : (succeeded : Bool) → Event

unfoldable pub step : Event → SubscriptionController → SubscriptionController × Bool
step unsubscribes c = unsubscribe c
step (fails error) c = fail error c
step completes c = (complete_local c, false)
step aborts c = on_abort c
step (settles succeeded) c = (request_settled succeeded c, false)
