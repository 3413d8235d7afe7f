-- ===== src/Tests/Noticing.antt =====
-- Notices that come before, during and after a subscription.
use fitz_ts.Base.{ℕ, ◌≡◌, refl, [], ◌∷◌, ◌++◌, List, some, true}
use fitz_ts.Domains.Pending.{waiting}
use fitz_ts.Domains.Pending.Passing.{passed}
use fitz_ts.Domains.Notice.{
  Event, subscribes, starts_unsubscribe, ends_unsubscribe, notifies, new_notices, resolve, run,
}
use fitz_ts.Domains.Notice.Delivery.{AllFit, arrivals, run-arrivals}

abbrev history : List (Event ℕ)
history =
    notifies 7 1
    ∷ notifies 7 2
    ∷ subscribes 100 7
    ∷ notifies 7 3
    ∷ starts_unsubscribe 100 1
    ∷ ends_unsubscribe 100 1 0 true
    ∷ notifies 7 4
    ∷ []

before_and_after : passed 7 (run history new_notices).1 ≡ 1 ∷ 2 ∷ 3 ∷ []
unfolding run new_notices fitz_ts.Domains.Notice.step fitz_ts.Domains.Notice.notify
    fitz_ts.Domains.Notice.add_local_subscription fitz_ts.Domains.Notice.end_unsubscribe
    fitz_ts.Domains.Notice.start_unsubscribe fitz_ts.Domains.Notice.has
    fitz_ts.Domains.Notice.without fitz_ts.Domains.Pending.dispatch_or_queue
    fitz_ts.Domains.Pending.flush fitz_ts.Domains.Pending.remove_pending fitz_ts.Base.Assoc.lookup
    fitz_ts.Base.Assoc.insert fitz_ts.Base.Assoc.remove
before_and_after = refl

run-arrivals_example :
    (passed 7 (run history new_notices).1 ++ waiting 7 (run history new_notices).0.pending
      ≡ arrivals history 7)
    × ((hs : List ℕ)
        → resolve
            (run history new_notices).0.subscriptions_by_pattern
            (run history new_notices).0.patterns_by_sub_id
            7
          ≡ some hs
        → waiting 7 (run history new_notices).0.pending ≡ [])
    × AllFit history new_notices
run-arrivals_example = run-arrivals history 7
