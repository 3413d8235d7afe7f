-- ===== src/Domains/Notice/Receivers.antt =====
-- src/domains/notice/client.ts: who gets a notification, and when one is thrown away.
use mathlib.Core.Path.{subst}
use fitz_ts.Base.{
  ℕ, ◌≡◌, refl, sym, ap, ◌∙◌, List, [], ◌∷◌, All, All-append, length, Option, some, none, Bool,
  true, false, ltb, ◌==◌, if◌then◌else◌,
}
use fitz_ts.Base.Assoc.{lookup, insert, remove, some-injective}
use fitz_ts.Domains.Pending.{
  Effect, dispatches, drops, waiting, dispatch_all, flush_to, flush, dispatch_or_queue_to,
  dispatch_or_queue, drop_all, remove_pending,
}
use fitz_ts.Domains.Notice.{
  Subscription, Notices, handlers_of, subscription_of, resolve, without, set_all, deleted,
  with_handler, add_local_subscription, delete_empty, end_of, end_unsubscribe, notify, learn,
  learn_all, restore, remove_all, unsubscribe_all, Event, subscribes, starts_unsubscribe,
  ends_unsubscribe, notifies, restores, unsubscribes_all, step,
}
use fitz_ts.Domains.Notice.Links.{IsLinked, IsSound, resolve-known, nothing_known}
use fitz_ts.Domains.Notice.Operations.{learn-Keeps}

-- A subscription of `subs` with the identifier `s` has the handlers `hs`.
abbrev pub Holder : List (ℕ × Subscription) → ℕ → List ℕ → Type 0
Holder subs s hs =
    (p : ℕ) × (st : Subscription) × (lookup p subs ≡ some st) × (st.sub_id ≡ s) × (st.handlers ≡ hs)

resolve-Holder :
    (subs : List (ℕ × Subscription)) (patterns : List (ℕ × ℕ)) (s : ℕ) (hs : List ℕ)
    → IsLinked subs patterns
    → resolve subs patterns s ≡ some hs
    → Holder subs s hs
resolve-Holder subs patterns s hs linked e =
    let (p, known) = resolve-known subs patterns s hs e in
    let (st, found, same) = linked s p known in
    (
      p,
      st,
      found,
      same,
      some-injective st.handlers hs
          (sym (ap (λ o. handlers_of (subscription_of o subs)) known ∙ ap handlers_of found) ∙ e),
    )

module _ {N : Type 0} where
  -- A dispatch goes to the handlers of a subscription with its identifier; a notification is thrown
  -- away only where subscriptions are removed.
  abbrev pub Fits : Bool → List (ℕ × Subscription) → Effect N → Type 0
  Fits removing subs (dispatches s hs n) = Holder subs s hs
  Fits removing subs (drops s n) = removing ≡ true

  abbrev pub removes : Event N → Bool
  removes (ends_unsubscribe pattern handler ref confirmed) = confirmed
  removes unsubscribes_all = true
  removes _ = false

  flush-Fits :
      (removing : Bool) (subs : List (ℕ × Subscription)) (patterns : List (ℕ × ℕ)) (t : ℕ)
      (pending : List (ℕ × List N))
      → IsLinked subs patterns
      → All (Fits removing subs) (flush (resolve subs patterns) t pending).1
  unfolding flush
  flush-Fits removing subs patterns t pending linked =
      cases (resolve subs patterns t) (waiting t pending) refl
    where
      dispatched :
          (hs : List ℕ) (ns : List N)
          → Holder subs t hs
          → All (Fits removing subs) (dispatch_all t hs ns)
      dispatched hs [] h = tt
      dispatched hs (n ∷ ns) h = (h, dispatched hs ns h)

      cases :
          (o : Option (List ℕ)) (ns : List N)
          → resolve subs patterns t ≡ o
          → All (Fits removing subs) (flush_to o t ns pending).1
      cases none ns e = tt
      cases (some hs) [] e = tt
      cases (some hs) (n ∷ ns) e =
          dispatched hs (n ∷ ns) (resolve-Holder subs patterns t hs linked e)

  notify-Fits :
      (c : Notices N) (t : ℕ) (n : N)
      → IsSound c
      → All (Fits false (notify t n c).0.subscriptions_by_pattern) (notify t n c).1
  unfolding notify dispatch_or_queue
  notify-Fits c t n v = cases (resolve c.subscriptions_by_pattern c.patterns_by_sub_id t) refl
    where
      cases :
          (o : Option (List ℕ))
          → resolve c.subscriptions_by_pattern c.patterns_by_sub_id t ≡ o
          → All (Fits false c.subscriptions_by_pattern) (dispatch_or_queue_to o t n c.pending).1
      cases none e = tt
      cases (some hs) e =
          (resolve-Holder c.subscriptions_by_pattern c.patterns_by_sub_id t hs v.linked e, tt)

  add-Fits :
      (c : Notices N) (pattern t : ℕ)
      → IsSound (add_local_subscription pattern t c).0
      → All
          (Fits false (add_local_subscription pattern t c).0.subscriptions_by_pattern)
          (add_local_subscription pattern t c).1
  unfolding add_local_subscription
  add-Fits c pattern t v =
      let now = with_handler pattern t (lookup pattern c.subscriptions_by_pattern) c in
      flush-Fits false now.subscriptions_by_pattern now.patterns_by_sub_id t now.pending v.linked

  drop_all-Fits :
      (subs : List (ℕ × Subscription)) (t : ℕ) (ns : List N) → All (Fits true subs) (drop_all t ns)
  drop_all-Fits subs t [] = tt
  drop_all-Fits subs t (n ∷ ns) = (refl, drop_all-Fits subs t ns)

  abbrev Fit : Bool → Notices N × List (Effect N) → Type 0
  Fit removing x = All (Fits removing x.0.subscriptions_by_pattern) x.1

  deleted-Fit : (c : Notices N) (pattern : ℕ) (st : Subscription) → Fit true (deleted pattern st c)
  unfolding remove_pending
  deleted-Fit c pattern st =
      drop_all-Fits (remove pattern c.subscriptions_by_pattern) st.sub_id
        (waiting st.sub_id c.pending)

  end-Fit :
      (c : Notices N) (pattern handler ref : ℕ) (confirmed : Bool)
      → Fit confirmed (end_unsubscribe pattern handler ref confirmed c)
  unfolding end_unsubscribe
  end-Fit c pattern handler ref confirmed =
      cases confirmed (lookup pattern c.subscriptions_by_pattern)
    where
      emptied :
          (b : Bool) (st : Subscription)
          → Fit true (
              if b
              then (
                record c {
                  subscriptions_by_pattern = insert pattern st c.subscriptions_by_pattern;
                },
                [],
              )
              else deleted pattern st c)
      emptied true st = tt
      emptied false st = deleted-Fit c pattern st

      found :
          (same confirmed : Bool) (st kept : Subscription)
          → Fit confirmed (
              if same
              then if confirmed then delete_empty pattern st c else (
                record c {
                  subscriptions_by_pattern = insert pattern kept c.subscriptions_by_pattern;
                },
                [],
              )
              else (c, []))
      found true true st kept = emptied (ltb 0 (length st.handlers)) st
      found true false st kept = tt
      found false confirmed st kept = tt

      cases :
          (confirmed : Bool) (o : Option Subscription)
          → Fit confirmed (end_of pattern handler ref confirmed o c)
      cases confirmed none = tt
      cases confirmed (some st) =
          found (st.ref == ref) confirmed
            (record st { handlers = without handler st.handlers; pending_unsubscribe = false })
            (record st { pending_unsubscribe = false })

  learn-subscriptions :
      (c : Notices N) (pattern : ℕ) (o : Option Subscription)
      → (learn pattern o c).0.subscriptions_by_pattern ≡ c.subscriptions_by_pattern
  learn-subscriptions c pattern none = refl
  learn-subscriptions c pattern (some st) = refl

  learn-Fits :
      (c : Notices N) (pattern : ℕ) (o : Option Subscription)
      → IsSound (learn pattern o c).0
      → All (Fits false c.subscriptions_by_pattern) (learn pattern o c).1
  learn-Fits c pattern none v = tt
  learn-Fits c pattern (some st) v =
      flush-Fits false c.subscriptions_by_pattern (insert st.sub_id pattern c.patterns_by_sub_id)
        st.sub_id c.pending v.linked

  learn_all-Fits :
      (entries : List (ℕ × Subscription)) (c : Notices N) (subs : List (ℕ × Subscription))
      → c.subscriptions_by_pattern ≡ subs
      → IsSound c
      → ((learn_all entries c).0.subscriptions_by_pattern ≡ subs)
        × All (Fits false subs) (learn_all entries c).1
  unfolding learn_all
  learn_all-Fits [] c subs e v = (e, tt)
  learn_all-Fits ((pattern, st) ∷ entries) c subs e v =
      let o = lookup pattern c.subscriptions_by_pattern in
      let now = learn pattern o c in
      let k = learn-Keeps c pattern v in
      let (same, rest) =
        learn_all-Fits entries now.0 subs (learn-subscriptions c pattern o ∙ e) k.sound in
      (
        same,
        All-append (Fits false subs) now.1 (learn_all entries now.0).1
            (subst (λ l. All (Fits false l) now.1) e (learn-Fits c pattern o k.sound)) rest,
      )

  restore-Fit :
      (restored : List (ℕ × Subscription)) (c : Notices N) → Fit false (restore restored c)
  unfolding restore
  restore-Fit restored c =
      let subs = set_all restored [] in
      let now = record c { subscriptions_by_pattern = subs; patterns_by_sub_id = [] } in
      let (same, fits) = learn_all-Fits subs now subs refl (record {
        linked = λ s p k. absurd (nothing_known s p k);
        clear = λ s p k. absurd (nothing_known s p k);
      }) in
      subst (λ l. All (Fits false l) (learn_all subs now).1) (sym same) fits

  remove_all-Fits :
      (entries subs : List (ℕ × Subscription)) (pending : List (ℕ × List N))
      → All (Fits true subs) (remove_all entries pending).1
  unfolding remove_all remove_pending
  remove_all-Fits [] subs pending = tt
  remove_all-Fits ((pattern, st) ∷ entries) subs pending =
      All-append (Fits true subs) (drop_all st.sub_id (waiting st.sub_id pending))
        (remove_all entries (remove st.sub_id pending)).1
        (drop_all-Fits subs st.sub_id (waiting st.sub_id pending))
        (remove_all-Fits entries subs (remove st.sub_id pending))

  pub step-Fits :
      (e : Event N) (c : Notices N)
      → IsSound c
      → IsSound (step e c).0
      → All (Fits (removes e) (step e c).0.subscriptions_by_pattern) (step e c).1
  unfolding step unsubscribe_all
  step-Fits (subscribes pattern sub_id) c v w = add-Fits c pattern sub_id w
  step-Fits (starts_unsubscribe pattern handler) c v w = tt
  step-Fits (ends_unsubscribe pattern handler ref confirmed) c v w =
      end-Fit c pattern handler ref confirmed
  step-Fits (notifies t n) c v w = notify-Fits c t n v
  step-Fits (restores restored) c v w = restore-Fit restored c
  step-Fits unsubscribes_all c v w = remove_all-Fits c.subscriptions_by_pattern [] c.pending
