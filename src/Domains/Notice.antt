-- ===== src/Domains/Notice.antt =====
-- src/domains/notice/client.ts: the subscriptions of a client, and the notifications for them. A
-- pattern is known by a number, equal numbers being equal strings; what the broker answers and when
-- it answers are events.
pub mod Links
pub mod Operations
pub mod Receivers
pub mod Delivery
use fitz_ts.Base.{
  ℕ, ◌+◌, List, [], ◌∷◌, ◌++◌, length, map, Option, some, none, Bool, true, false, ltb, ◌==◌, ◌||◌,
  if◌then◌else◌,
}
use fitz_ts.Base.Assoc.{lookup, insert, remove}
use fitz_ts.Domains.Pending.{Effect, flush, dispatch_or_queue, remove_pending}

-- `ref` tells the objects apart that isCurrentEmptyState compares; `pending_unsubscribe` is whether
-- that field is set.
pub record Subscription : Type 0 where
  pub sub_id : ℕ
  pub handlers : List ℕ
  pub generation : ℕ
  pub pending_unsubscribe : Bool
  pub ref : ℕ

pub record Notices (N : Type 0) : Type 0 where
  pub subscriptions_by_pattern : List (ℕ × Subscription)
  pub patterns_by_sub_id : List (ℕ × ℕ)
  pub pending : List (ℕ × List N)
  pub next_handler_id : ℕ
  pub generation : ℕ
  pub next_ref : ℕ

abbrev pub handlers_of : Option Subscription → Option (List ℕ)
handlers_of none = none
handlers_of (some s) = some s.handlers

abbrev pub subscription_of : Option ℕ → List (ℕ × Subscription) → Option Subscription
subscription_of none subscriptions = none
subscription_of (some pattern) subscriptions = lookup pattern subscriptions

-- The resolver of the buffer.
abbrev pub resolve : List (ℕ × Subscription) → List (ℕ × ℕ) → ℕ → Option (List ℕ)
resolve subscriptions patterns sub_id =
    handlers_of (subscription_of (lookup sub_id patterns) subscriptions)

unfoldable pub has : ℕ → List ℕ → Bool
has h [] = false
has h (x ∷ xs) = x == h || has h xs

unfoldable pub without : ℕ → List ℕ → List ℕ
without h [] = []
without h (x ∷ xs) = let rest = without h xs in if x == h then rest else x ∷ rest

-- `entries.set` of each.
unfoldable pub set_all : List (ℕ × Subscription) → List (ℕ × Subscription) → List (ℕ × Subscription)
set_all [] m = m
set_all ((pattern, s) ∷ entries) m = set_all entries (insert pattern s m)

module _ {N : Type 0} where
  unfoldable pub new_notices : Notices N
  new_notices = record {
    subscriptions_by_pattern = [];
    patterns_by_sub_id = [];
    pending = [];
    next_handler_id = 1;
    generation = 0;
    next_ref = 0;
  }

  abbrev pub flushed : ℕ → Notices N → Notices N × List (Effect N)
  flushed sub_id c =
      let r = flush (resolve c.subscriptions_by_pattern c.patterns_by_sub_id) sub_id c.pending in
      (record c { pending = r.0 }, r.1)

  -- `addLocalSubscription` up to its flush; its controller is outside.
  abbrev pub with_handler : ℕ → ℕ → Option Subscription → Notices N → Notices N
  with_handler pattern sub_id none c = record c {
    subscriptions_by_pattern =
        insert pattern
          (record {
            sub_id = sub_id;
            handlers = c.next_handler_id ∷ [];
            generation = c.generation + 1;
            pending_unsubscribe = false;
            ref = c.next_ref;
          })
          c.subscriptions_by_pattern;
    patterns_by_sub_id = insert sub_id pattern c.patterns_by_sub_id;
    next_handler_id = c.next_handler_id + 1;
    generation = c.generation + 1;
    next_ref = c.next_ref + 1;
  }
  with_handler pattern sub_id (some s) c = record c {
    subscriptions_by_pattern =
        insert pattern (record s { handlers = s.handlers ++ c.next_handler_id ∷ [] })
          c.subscriptions_by_pattern;
    next_handler_id = c.next_handler_id + 1;
  }

  unfoldable pub add_local_subscription : ℕ → ℕ → Notices N → Notices N × List (Effect N)
  add_local_subscription pattern sub_id c =
      flushed sub_id (with_handler pattern sub_id (lookup pattern c.subscriptions_by_pattern) c)

  abbrev pub start_of : ℕ → ℕ → Option Subscription → Notices N → Notices N
  start_of pattern handler none c = c
  start_of pattern handler (some s) c =
      if has handler s.handlers
      then record c {
        subscriptions_by_pattern =
            insert pattern
              (if ltb 1 (length s.handlers)
                then record s { handlers = without handler s.handlers }
                else record s { pending_unsubscribe = true })
              c.subscriptions_by_pattern;
      }
      else c

  -- `unsubscribe` up to its await.
  unfoldable pub start_unsubscribe : ℕ → ℕ → Notices N → Notices N
  start_unsubscribe pattern handler c =
      start_of pattern handler (lookup pattern c.subscriptions_by_pattern) c

  abbrev pub deleted : ℕ → Subscription → Notices N → Notices N × List (Effect N)
  deleted pattern s c =
      let r = remove_pending s.sub_id c.pending in
      (
        record c {
          subscriptions_by_pattern = remove pattern c.subscriptions_by_pattern;
          patterns_by_sub_id = remove s.sub_id c.patterns_by_sub_id;
          pending = r.0;
        },
        r.1,
      )

  -- The rest of `unsubscribe`, of the object `ref`: the broker has confirmed, or has not.
  abbrev pub delete_empty : ℕ → Subscription → Notices N → Notices N × List (Effect N)
  delete_empty pattern s c =
      if ltb 0 (length s.handlers)
      then (record c { subscriptions_by_pattern = insert pattern s c.subscriptions_by_pattern }, [])
      else deleted pattern s c

  abbrev pub end_of :
      ℕ → ℕ → ℕ → Bool → Option Subscription → Notices N → Notices N × List (Effect N)
  end_of pattern handler ref confirmed none c = (c, [])
  end_of pattern handler ref confirmed (some s) c =
      if s.ref == ref
      then if confirmed
        then delete_empty pattern
            (record s { handlers = without handler s.handlers; pending_unsubscribe = false }) c
        else (
          record c {
            subscriptions_by_pattern =
                insert pattern (record s { pending_unsubscribe = false })
                  c.subscriptions_by_pattern;
          },
          [],
        )
      else (c, [])

  unfoldable pub end_unsubscribe : ℕ → ℕ → ℕ → Bool → Notices N → Notices N × List (Effect N)
  end_unsubscribe pattern handler ref confirmed c =
      end_of pattern handler ref confirmed (lookup pattern c.subscriptions_by_pattern) c

  unfoldable pub notify : ℕ → N → Notices N → Notices N × List (Effect N)
  notify sub_id n c =
      let r =
        dispatch_or_queue (resolve c.subscriptions_by_pattern c.patterns_by_sub_id) sub_id n
          c.pending in
      (record c { pending = r.0 }, r.1)

  -- One round of the loop of `restoreSubscriptions`.
  abbrev pub learn : ℕ → Option Subscription → Notices N → Notices N × List (Effect N)
  learn pattern none c = (c, [])
  learn pattern (some s) c =
      flushed s.sub_id
        (record c { patterns_by_sub_id = insert s.sub_id pattern c.patterns_by_sub_id })

  unfoldable pub learn_all : List (ℕ × Subscription) → Notices N → Notices N × List (Effect N)
  learn_all [] c = (c, [])
  learn_all ((pattern, s) ∷ entries) c =
      let now = learn pattern (lookup pattern c.subscriptions_by_pattern) c in
      let later = learn_all entries now.0 in (later.0, now.1 ++ later.1)

  -- `restoreSubscriptions`, after its entries are restored.
  unfoldable pub restore : List (ℕ × Subscription) → Notices N → Notices N × List (Effect N)
  restore restored c =
      let subscriptions = set_all restored [] in
      learn_all subscriptions
        (record c { subscriptions_by_pattern = subscriptions; patterns_by_sub_id = [] })

  -- The loop over the subscriptions of `unsubscribeAll`.
  unfoldable pub remove_all :
      List (ℕ × Subscription) → List (ℕ × List N) → List (ℕ × List N) × List (Effect N)
  remove_all [] pending = (pending, [])
  remove_all ((pattern, s) ∷ entries) pending =
      let now = remove_pending s.sub_id pending in
      let later = remove_all entries now.0 in (later.0, now.1 ++ later.1)

  -- `unsubscribeAll`, once it is confirmed.
  unfoldable pub unsubscribe_all : Notices N → Notices N × List (Effect N)
  unsubscribe_all c =
      let r = remove_all c.subscriptions_by_pattern c.pending in
      (record c { subscriptions_by_pattern = []; patterns_by_sub_id = []; pending = r.0 }, r.1)

pub data Event (N : Type 0) : Type 0 where
  subscribes : (pattern sub_id : ℕ) → Event N
  starts_unsubscribe : (pattern handler : ℕ) → Event N
  ends_unsubscribe : (pattern handler ref : ℕ) → (confirmed : Bool) → Event N
  notifies : (sub_id : ℕ) → N → Event N
  restores : List (ℕ × Subscription) → Event N
  unsubscribes_all : Event N

module _ {N : Type 0} where
  unfoldable pub step : Event N → Notices N → Notices N × List (Effect N)
  step (subscribes pattern sub_id) c = add_local_subscription pattern sub_id c
  step (starts_unsubscribe pattern handler) c = (start_unsubscribe pattern handler c, [])
  step (ends_unsubscribe pattern handler ref confirmed) c =
      end_unsubscribe pattern handler ref confirmed c
  step (notifies sub_id n) c = notify sub_id n c
  step (restores restored) c = restore restored c
  step unsubscribes_all c = unsubscribe_all c

  unfoldable pub run : List (Event N) → Notices N → Notices N × List (Effect N)
  run [] c = (c, [])
  run (e ∷ events) c =
      let now = step e c in let later = run events now.0 in (later.0, now.1 ++ later.1)
