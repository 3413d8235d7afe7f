-- ===== src/Tests/Subscribing.antt =====
-- A subscription whose request to unsubscribe is rejected, and which is then tried again.
use fitz_ts.Base.{◌+◌, ◌≡◌, ◌⊎◌, refl, [], ◌∷◌, List, none, true, false}
use fitz_ts.Domains.Subscription.{
  Event, unsubscribes, fails, completes, aborts, settles, create_subscription_controller,
}
use fitz_ts.Domains.Subscription.Settling.{run, runs, ended, settled, run-ended}

abbrev history : List Event
history =
    unsubscribes
    ∷ aborts
    ∷ unsubscribes
    ∷ settles false
    ∷ unsubscribes
    ∷ settles true
    ∷ fails 4
    ∷ []

requests_of_history : (run history (create_subscription_controller true false)).1 ≡ 2
unfolding run create_subscription_controller fitz_ts.Domains.Subscription.step
    fitz_ts.Domains.Subscription.unsubscribe fitz_ts.Domains.Subscription.on_abort
    fitz_ts.Domains.Subscription.request_settled fitz_ts.Domains.Subscription.unsubscribe_settled
    fitz_ts.Domains.Subscription.fail
requests_of_history = refl

run-ended_example :
    let first = create_subscription_controller true false in
    let last = run history first in
    (last.1 ≡ ended history first.0 + runs last.0.running)
    × ((last.0.active ≡ false) ⊎ ((last.0.running ≡ none) × (last.0.completion ≡ none)))
    × ((last.0.active ≡ true) ⊎ ((runs last.0.running ≡ 1) ⊎ (settled last.0.completion ≡ true)))
run-ended_example = run-ended true false history
