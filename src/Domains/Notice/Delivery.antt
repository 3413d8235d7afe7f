-- ===== src/Domains/Notice/Delivery.antt =====
-- src/domains/notice/client.ts: no notification is lost, doubled or overtaken.
use fitz_ts.Base.{ℕ, ◌≡◌, refl, sym, ap, ◌∙◌, List, [], ◌∷◌, ◌++◌, append_assoc, All, some}
use fitz_ts.Base.Assoc.{lookup}
use fitz_ts.Domains.Pending.{Effect, waiting, remove_pending}
use fitz_ts.Domains.Pending.Passing.{passed, passed-append, all_of, of_sub, remove_pending-all_of}
use fitz_ts.Domains.Notice.{
  Subscription, Notices, resolve, set_all, new_notices, learn, learn_all, restore, remove_all,
  unsubscribe_all, Event, subscribes, starts_unsubscribe, ends_unsubscribe, notifies, restores,
  unsubscribes_all, step, run,
}
use fitz_ts.Domains.Notice.Links.{IsSound, resolve-known, nothing_known}
use fitz_ts.Domains.Notice.Receivers.{Fits, removes, step-Fits}
use fitz_ts.Domains.Notice.Operations.{
  Keeps, nothing, keeps, learn-Keeps, same-Keeps, add_local_subscription-Keeps,
  start_unsubscribe-Keeps, end_unsubscribe-Keeps, notify-Keeps,
}

module _ {N : Type 0} where
  -- Two operations, one after the other.
  then-Keeps :
      (pending : List (ℕ × List N)) (x y : Notices N × List (Effect N)) (a b : ℕ → List N)
      → Keeps pending x a
      → Keeps x.0.pending y b
      → Keeps pending (y.0, x.1 ++ y.1) (λ s. a s ++ b s)
  then-Keeps pending x y a b h k = record {
    sound = k.sound;
    passing = λ s.
        ap (λ l. l ++ waiting s y.0.pending) (passed-append s x.1 y.1)
        ∙ append_assoc (passed s x.1) (passed s y.1) (waiting s y.0.pending)
        ∙ ap (λ l. passed s x.1 ++ l) (k.passing s)
        ∙ sym (append_assoc (passed s x.1) (waiting s x.0.pending) (b s))
        ∙ ap (λ l. l ++ b s) (h.passing s)
        ∙ append_assoc (waiting s pending) (a s) (b s);
  }

  learn_all-Keeps :
      (entries : List (ℕ × Subscription)) (c : Notices N)
      → IsSound c
      → Keeps c.pending (learn_all entries c) nothing
  unfolding learn_all
  learn_all-Keeps [] c v = same-Keeps c v
  learn_all-Keeps ((pattern, st) ∷ entries) c v =
      let now = learn pattern (lookup pattern c.subscriptions_by_pattern) c in
      let first : Keeps c.pending now nothing = learn-Keeps c pattern v in
      then-Keeps c.pending now (learn_all entries now.0) nothing nothing first
        (learn_all-Keeps entries now.0 first.sound)

  restore-Keeps :
      (restored : List (ℕ × Subscription)) (c : Notices N)
      → Keeps c.pending (restore restored c) nothing
  unfolding restore
  restore-Keeps restored c =
      learn_all-Keeps (set_all restored [])
        (record c { subscriptions_by_pattern = set_all restored []; patterns_by_sub_id = [] })
        (record {
          linked = λ s p k. absurd (nothing_known s p k);
          clear = λ s p k. absurd (nothing_known s p k);
        })

  remove_all-passing :
      (s : ℕ) (entries : List (ℕ × Subscription)) (pending : List (ℕ × List N))
      → all_of s (remove_all entries pending) ≡ waiting s pending
  unfolding remove_all
  remove_all-passing s [] pending = refl
  remove_all-passing s ((pattern, st) ∷ entries) pending =
      let x = remove_pending st.sub_id pending in
      let y = remove_all entries x.0 in
      ap (λ l. l ++ waiting s y.0) (passed-append s x.1 y.1)
      ∙ append_assoc (passed s x.1) (passed s y.1) (waiting s y.0)
      ∙ ap (λ l. passed s x.1 ++ l) (remove_all-passing s entries x.0)
      ∙ remove_pending-all_of s st.sub_id pending

  unsubscribe_all-Keeps : (c : Notices N) → Keeps c.pending (unsubscribe_all c) nothing
  unfolding unsubscribe_all
  unsubscribe_all-Keeps c =
      keeps c (unsubscribe_all c) (λ s p k. absurd (nothing_known s p k))
        (λ s p k. absurd (nothing_known s p k))
        (λ s. remove_all-passing s c.subscriptions_by_pattern c.pending)

  -- The notifications for `s` that an event brings.
  abbrev pub brings : Event N → ℕ → List N
  brings (notifies t n) s = of_sub s t n
  brings _ s = []

  step-Keeps : (e : Event N) (c : Notices N) → IsSound c → Keeps c.pending (step e c) (brings e)
  unfolding step
  step-Keeps (subscribes pattern sub_id) c v = add_local_subscription-Keeps c pattern sub_id v
  step-Keeps (starts_unsubscribe pattern handler) c v = start_unsubscribe-Keeps c pattern handler v
  step-Keeps (ends_unsubscribe pattern handler ref confirmed) c v =
      end_unsubscribe-Keeps c pattern handler ref confirmed v
  step-Keeps (notifies t n) c v = notify-Keeps c t n v
  step-Keeps (restores restored) c v = restore-Keeps restored c
  step-Keeps unsubscribes_all c v = unsubscribe_all-Keeps c

  abbrev pub arrivals : List (Event N) → ℕ → List N
  arrivals [] s = []
  arrivals (e ∷ events) s = brings e s ++ arrivals events s

  run-Keeps :
      (events : List (Event N)) (c : Notices N)
      → IsSound c
      → Keeps c.pending (run events c) (arrivals events)
  unfolding run
  run-Keeps [] c v = same-Keeps c v
  run-Keeps (e ∷ events) c v =
      let now = step e c in
      let first = step-Keeps e c v in
      then-Keeps c.pending now (run events now.0) (brings e) (arrivals events) first
        (run-Keeps events now.0 first.sound)

  new_notices-IsSound : IsSound (new_notices {N = N})
  unfolding new_notices
  new_notices-IsSound = record {
    linked = λ s p k. absurd (nothing_known s p k);
    clear = λ s p k. absurd (nothing_known s p k);
  }

  -- What each step of a history does for those outside fits.
  abbrev pub AllFit : List (Event N) → Notices N → Type 0
  AllFit [] c = Unit {0}
  AllFit (e ∷ events) c =
      All (Fits (removes e) (step e c).0.subscriptions_by_pattern) (step e c).1
      × AllFit events (step e c).0

  run-AllFit : (events : List (Event N)) (c : Notices N) → IsSound c → AllFit events c
  run-AllFit [] c v = tt
  run-AllFit (e ∷ events) c v =
      let k = step-Keeps e c v in (step-Fits e c v k.sound, run-AllFit events (step e c).0 k.sound)

  -- After every history of subscriptions, unsubscriptions, restorations and notifications: for each
  -- identifier, the notifications that left the buffer or never came into it, dispatched or thrown
  -- away, and those that still wait are together those that arrived, each once and in the order in
  -- which they arrived; none waits for an identifier that leads to a subscription; and in each step,
  -- what is dispatched goes to the handlers of a subscription with the notification's identifier
  -- that the client has after the step, and nothing is thrown away but by a confirmed unsubscription
  -- or by unsubscribing from all.
  pub run-arrivals :
      (events : List (Event N)) (s : ℕ)
      → let x = run events (new_notices {N = N}) in
        (passed s x.1 ++ waiting s x.0.pending ≡ arrivals events s)
        × ((hs : List ℕ)
            → resolve x.0.subscriptions_by_pattern x.0.patterns_by_sub_id s ≡ some hs
            → waiting s x.0.pending ≡ [])
        × AllFit events (new_notices {N = N})
  unfolding new_notices lookup
  run-arrivals events s =
      let k = run-Keeps events new_notices new_notices-IsSound in
      (
        k.passing s,
        λ hs r. let known = resolve-known _ _ s hs r in k.sound.clear s known.0 known.1,
        run-AllFit events new_notices new_notices-IsSound,
      )
