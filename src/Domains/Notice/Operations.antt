-- ===== src/Domains/Notice/Operations.antt =====
-- src/domains/notice/client.ts: what each operation does to the maps and to what waits.
use mathlib.Core.Path.{subst}
use fitz_ts.Base.{
  ℕ, ◌+◌, ◌≡◌, ◌≢◌, refl, sym, ap, ◌∙◌, List, [], ◌∷◌, ◌++◌, length, append-nil, Option, some, none,
  Bool, true, false, ltb, ◌==◌, if◌then◌else◌, arith, Bool-cases, inl, inr,
}
use fitz_ts.Base.Assoc.{lookup, insert, remove, lookup-insert, lookup-insert_other}
use fitz_ts.Domains.Pending.{
  Effect, or_empty, waiting, flush, dispatch_or_queue_to, dispatch_or_queue, remove_pending,
}
use fitz_ts.Domains.Pending.Passing.{
  passed, all_of, of_sub, flush-all_of, remove_pending-all_of, dispatch_or_queue-all_of,
  flush-waiting, waiting_nothing,
}
use fitz_ts.Domains.Notice.{
  Subscription, Notices, handlers_of, subscription_of, resolve, has, without, deleted, flushed,
  with_handler, add_local_subscription, start_of, start_unsubscribe, delete_empty, end_of,
  end_unsubscribe, notify, learn,
}
use fitz_ts.Domains.Notice.Links.{
  IsLinked, IsClear, IsSound, insert-IsLinked, create-IsLinked, remove-IsLinked, resolve-known,
  resolve-unknown, remove-IsClear, learn-IsLinked,
}

-- What an operation makes sound, and what it passes on: `arrived s` is what came in of `s`.
module _ {N : Type 0} where
  pub record Keeps (pending : List (ℕ × List N)) (x : Notices N × List (Effect N))
      (arrived : ℕ → List N) : Type 0 where
    pub sound : IsSound x.0
    pub passing : (s : ℕ) → passed s x.1 ++ waiting s x.0.pending ≡ waiting s pending ++ arrived s

  abbrev pub nothing : ℕ → List N
  nothing s = []

  -- Only the pending notifications of `t` are touched, and none of them is lost.
  abbrev pub Passes : List (ℕ × List N) → List (ℕ × List N) × List (Effect N) → Type 0
  Passes pending x = (s : ℕ) → all_of s x ≡ waiting s pending

  pub keeps :
      (c : Notices N) (x : Notices N × List (Effect N))
      → IsLinked x.0.subscriptions_by_pattern x.0.patterns_by_sub_id
      → IsClear x.0.patterns_by_sub_id x.0.pending
      → Passes c.pending (x.0.pending, x.1)
      → Keeps c.pending x nothing
  keeps c x l k p = record {
    sound = record { linked = l; clear = k };
    passing = λ s. p s ∙ sym (append-nil (waiting s c.pending));
  }

  pub Passes-IsClear :
      (patterns : List (ℕ × ℕ)) (pending : List (ℕ × List N))
      (x : List (ℕ × List N) × List (Effect N))
      → Passes pending x
      → IsClear patterns pending
      → IsClear patterns x.0
  Passes-IsClear patterns pending x p h s q k = waiting_nothing s x pending (p s) (h s q k)

  -- A new identifier is clear once it is flushed.
  pub flush-IsClear :
      (subs : List (ℕ × Subscription)) (patterns : List (ℕ × ℕ)) (pending : List (ℕ × List N))
      (pattern : ℕ) (st : Subscription)
      → lookup pattern subs ≡ some st
      → IsClear patterns pending
      → IsClear
          (insert st.sub_id pattern patterns)
          (flush (resolve subs (insert st.sub_id pattern patterns)) st.sub_id pending).0
  flush-IsClear subs patterns pending pattern st e h s q k = elim (Bool-cases (st.sub_id == s)) [
    | inl here ↦
        let known =
          ap (λ o. handlers_of (subscription_of o subs)) (lookup-insert st.sub_id pattern patterns)
          ∙ ap handlers_of e in
        ap (λ i. waiting i (flush now st.sub_id pending).0) (sym (ground arith))
        ∙ flush-waiting now st.sub_id pending st.handlers known
    | inr there ↦
        let other_id : st.sub_id ≢ s = ground arith in
        waiting_nothing s (flush now st.sub_id pending) pending
          (flush-all_of now s st.sub_id pending)
          (h s q (sym (lookup-insert_other s st.sub_id pattern patterns other_id) ∙ k))
  ]
    where
      now : ℕ → Option (List ℕ)
      now = resolve subs (insert st.sub_id pattern patterns)

  -- A flush of any identifier.
  pub flushed-Keeps : (c : Notices N) (t : ℕ) → IsSound c → Keeps c.pending (flushed t c) nothing
  flushed-Keeps c t v =
      keeps c (flushed t c) v.linked
        (Passes-IsClear c.patterns_by_sub_id c.pending (flush now t c.pending) passes v.clear)
        passes
    where
      now : ℕ → Option (List ℕ)
      now = resolve c.subscriptions_by_pattern c.patterns_by_sub_id

      passes : Passes c.pending (flush now t c.pending)
      passes s = flush-all_of now s t c.pending

  -- A new subscription, or its new identifier.
  pub learned-Keeps :
      (c : Notices N) (pattern : ℕ) (st : Subscription)
      → lookup pattern c.subscriptions_by_pattern ≡ some st
      → IsLinked c.subscriptions_by_pattern (insert st.sub_id pattern c.patterns_by_sub_id)
      → IsClear c.patterns_by_sub_id c.pending
      → Keeps c.pending (learn pattern (some st) c) nothing
  learned-Keeps c pattern st e l k =
      keeps c (learn pattern (some st) c) l
        (flush-IsClear c.subscriptions_by_pattern c.patterns_by_sub_id c.pending pattern st e k)
        (λ s. flush-all_of _ s st.sub_id c.pending)

  pub same-Keeps : (c : Notices N) → IsSound c → Keeps c.pending (c, []) nothing
  same-Keeps c v = keeps c (c, []) v.linked v.clear (λ s. refl)

  -- A subscription is replaced by one with the same identifier.
  pub replaced-Keeps :
      (c : Notices N) (pattern : ℕ) (st st' : Subscription)
      → lookup pattern c.subscriptions_by_pattern ≡ some st
      → st'.sub_id ≡ st.sub_id
      → IsSound c
      → Keeps c.pending
          (
            record c { subscriptions_by_pattern = insert pattern st' c.subscriptions_by_pattern },
            [],
          )
          nothing
  replaced-Keeps c pattern st st' e same v =
      keeps c _
        (insert-IsLinked c.subscriptions_by_pattern c.patterns_by_sub_id pattern st st' e same
          v.linked)
        v.clear (λ s. refl)

  pub add_local_subscription-Keeps :
      (c : Notices N) (pattern sub_id : ℕ)
      → IsSound c
      → Keeps c.pending (add_local_subscription pattern sub_id c) nothing
  unfolding add_local_subscription
  add_local_subscription-Keeps c pattern sub_id v =
      cases (lookup pattern c.subscriptions_by_pattern) refl
    where
      cases :
          (o : Option Subscription)
          → lookup pattern c.subscriptions_by_pattern ≡ o
          → Keeps c.pending (flushed sub_id (with_handler pattern sub_id o c)) nothing
      cases none e =
          let st : Subscription = record {
            sub_id = sub_id;
            handlers = c.next_handler_id ∷ [];
            generation = c.generation + 1;
            pending_unsubscribe = false;
            ref = c.next_ref;
          } in
          learned-Keeps
            (record c {
              subscriptions_by_pattern = insert pattern st c.subscriptions_by_pattern;
              next_handler_id = c.next_handler_id + 1;
              generation = c.generation + 1;
              next_ref = c.next_ref + 1;
            })
            pattern st (lookup-insert pattern st c.subscriptions_by_pattern)
            (create-IsLinked c.subscriptions_by_pattern c.patterns_by_sub_id pattern st e v.linked)
            v.clear
      cases (some st) e =
          let st' : Subscription = record st { handlers = st.handlers ++ c.next_handler_id ∷ [] } in
          flushed-Keeps (with_handler pattern sub_id (some st) c) sub_id (record {
            linked =
                insert-IsLinked c.subscriptions_by_pattern c.patterns_by_sub_id pattern st st' e
                  refl v.linked;
            clear = v.clear;
          })

  pub start_unsubscribe-Keeps :
      (c : Notices N) (pattern handler : ℕ)
      → IsSound c
      → Keeps c.pending (start_unsubscribe pattern handler c, []) nothing
  unfolding start_unsubscribe
  start_unsubscribe-Keeps c pattern handler v =
      cases (lookup pattern c.subscriptions_by_pattern) refl
    where
      less : Bool → Subscription → Subscription
      less b st =
          if b
          then record st { handlers = without handler st.handlers }
          else record st { pending_unsubscribe = true }

      less_id : (b : Bool) (st : Subscription) → (less b st).sub_id ≡ st.sub_id
      less_id true st = refl
      less_id false st = refl

      found :
          (b : Bool) (st : Subscription)
          → lookup pattern c.subscriptions_by_pattern ≡ some st
          → Keeps c.pending
              (
                if b
                    then record c {
                      subscriptions_by_pattern =
                          insert pattern
                            (less (ltb 1 (length st.handlers)) st)
                            c.subscriptions_by_pattern;
                    }
                    else c,
                [],
              )
              nothing
      found true st e =
          replaced-Keeps c pattern st (less (ltb 1 (length st.handlers)) st) e
            (less_id (ltb 1 (length st.handlers)) st) v
      found false st e = same-Keeps c v

      cases :
          (o : Option Subscription)
          → lookup pattern c.subscriptions_by_pattern ≡ o
          → Keeps c.pending (start_of pattern handler o c, []) nothing
      cases none e = same-Keeps c v
      cases (some st) e = found (has handler st.handlers) st e

  pub deleted-Keeps :
      (c : Notices N) (pattern : ℕ) (st st' : Subscription)
      → lookup pattern c.subscriptions_by_pattern ≡ some st
      → st'.sub_id ≡ st.sub_id
      → IsSound c
      → Keeps c.pending (deleted pattern st' c) nothing
  deleted-Keeps c pattern st st' e same v =
      keeps c (deleted pattern st' c)
        (subst
          (λ i.
            IsLinked (remove pattern c.subscriptions_by_pattern) (remove i c.patterns_by_sub_id))
          (sym same)
          (remove-IsLinked c.subscriptions_by_pattern c.patterns_by_sub_id pattern st e v.linked))
        (Passes-IsClear (remove st'.sub_id c.patterns_by_sub_id) c.pending
          (remove_pending st'.sub_id c.pending) passes
          (remove-IsClear c.patterns_by_sub_id st'.sub_id c.pending v.clear))
        passes
    where
      passes : Passes c.pending (remove_pending st'.sub_id c.pending)
      passes s = remove_pending-all_of s st'.sub_id c.pending

  pub end_unsubscribe-Keeps :
      (c : Notices N) (pattern handler ref : ℕ) (confirmed : Bool)
      → IsSound c
      → Keeps c.pending (end_unsubscribe pattern handler ref confirmed c) nothing
  unfolding end_unsubscribe
  end_unsubscribe-Keeps c pattern handler ref confirmed v =
      cases (lookup pattern c.subscriptions_by_pattern) refl
    where
      less : Subscription → Subscription
      less st = record st { handlers = without handler st.handlers; pending_unsubscribe = false }

      emptied :
          (b : Bool) (st : Subscription)
          → lookup pattern c.subscriptions_by_pattern ≡ some st
          → Keeps c.pending
              (if b
                then (
                  record c {
                    subscriptions_by_pattern = insert pattern (less st) c.subscriptions_by_pattern;
                  },
                  [],
                )
                else deleted pattern (less st) c)
              nothing
      emptied true st e = replaced-Keeps c pattern st (less st) e refl v
      emptied false st e = deleted-Keeps c pattern st (less st) e refl v

      found :
          (same confirmed : Bool) (st : Subscription)
          → lookup pattern c.subscriptions_by_pattern ≡ some st
          → Keeps c.pending
              (if same
                then if confirmed then delete_empty pattern (less st) c else (
                  record c {
                    subscriptions_by_pattern =
                        insert pattern
                          (record st { pending_unsubscribe = false })
                          c.subscriptions_by_pattern;
                  },
                  [],
                )
                else (c, []))
              nothing
      found true true st e = emptied (ltb 0 (length (without handler st.handlers))) st e
      found true false st e =
          replaced-Keeps c pattern st (record st { pending_unsubscribe = false }) e refl v
      found false confirmed st e = same-Keeps c v

      cases :
          (o : Option Subscription)
          → lookup pattern c.subscriptions_by_pattern ≡ o
          → Keeps c.pending (end_of pattern handler ref confirmed o c) nothing
      cases none e = same-Keeps c v
      cases (some st) e = found (st.ref == ref) confirmed st e

  pub notify-Keeps :
      (c : Notices N) (t : ℕ) (n : N)
      → IsSound c
      → Keeps c.pending (notify t n c) (λ s. of_sub s t n)
  unfolding notify dispatch_or_queue
  notify-Keeps c t n v = record {
    sound = record { linked = v.linked; clear = λ s p k. still (now t) refl s p k };
    passing = λ s. dispatch_or_queue-all_of now s t n c.pending (λ hs r.
        let known = resolve-known c.subscriptions_by_pattern c.patterns_by_sub_id s hs r in
        v.clear s known.0 known.1);
  }
    where
      now : ℕ → Option (List ℕ)
      now = resolve c.subscriptions_by_pattern c.patterns_by_sub_id

      still :
          (o : Option (List ℕ))
          → now t ≡ o
          → IsClear c.patterns_by_sub_id (dispatch_or_queue_to o t n c.pending).0
      still none e s p k =
          let ne : t ≢ s = λ q.
            resolve-unknown c.subscriptions_by_pattern c.patterns_by_sub_id s p v.linked
              (ap now (sym q) ∙ e) k in
          ap or_empty (lookup-insert_other s t (waiting t c.pending ++ n ∷ []) c.pending ne)
          ∙ v.clear s p k
      still (some hs) e s p k = v.clear s p k

  -- One round of the loop of `restoreSubscriptions`.
  pub learn-Keeps :
      (c : Notices N) (pattern : ℕ)
      → IsSound c
      → Keeps c.pending (learn pattern (lookup pattern c.subscriptions_by_pattern) c) nothing
  learn-Keeps c pattern v = cases (lookup pattern c.subscriptions_by_pattern) refl
    where
      cases :
          (o : Option Subscription)
          → lookup pattern c.subscriptions_by_pattern ≡ o
          → Keeps c.pending (learn pattern o c) nothing
      cases none e = same-Keeps c v
      cases (some s) e =
          learned-Keeps c pattern s e
            (learn-IsLinked c.subscriptions_by_pattern c.patterns_by_sub_id pattern s e v.linked)
            v.clear
