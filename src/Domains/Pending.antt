-- ===== src/Domains/Pending.antt =====
-- src/domains/internal/pending-notifications.ts: notifications that arrive before their subscription
-- is known. `resolve` is resolveSubscription, a subscription being the identities of its handlers.
pub mod Passing
use fitz_ts.Base.{ℕ, List, [], ◌∷◌, ◌++◌, map, Option, some, none}
use fitz_ts.Base.Assoc.{lookup, insert, remove}

-- What is done with a notification of a subscription: it goes to all handlers, or is thrown away.
pub data Effect (N : Type 0) : Type 0 where
  dispatches : (sub_id : ℕ) → List ℕ → N → Effect N
  drops : (sub_id : ℕ) → N → Effect N

module _ {N : Type 0} where
  abbrev pub or_empty : Option (List N) → List N
  or_empty none = []
  or_empty (some ns) = ns

  -- What is buffered for a subscription.
  abbrev pub waiting : ℕ → List (ℕ × List N) → List N
  waiting sub_id pending = or_empty (lookup sub_id pending)

  abbrev pub queue : ℕ → N → List (ℕ × List N) → List (ℕ × List N)
  queue sub_id n pending = insert sub_id (waiting sub_id pending ++ n ∷ []) pending

  abbrev pub dispatch_all : ℕ → List ℕ → List N → List (Effect N)
  dispatch_all sub_id handlers [] = []
  dispatch_all sub_id handlers (n ∷ ns) =
      dispatches sub_id handlers n ∷ dispatch_all sub_id handlers ns

  abbrev pub flush_to :
      Option (List ℕ) → ℕ → List N → List (ℕ × List N) → List (ℕ × List N) × List (Effect N)
  flush_to none sub_id ns pending = (pending, [])
  flush_to (some handlers) sub_id [] pending = (pending, [])
  flush_to (some handlers) sub_id (n ∷ ns) pending =
      (remove sub_id pending, dispatch_all sub_id handlers (n ∷ ns))

  unfoldable pub flush :
      (ℕ → Option (List ℕ)) → ℕ → List (ℕ × List N) → List (ℕ × List N) × List (Effect N)
  flush resolve sub_id pending = flush_to (resolve sub_id) sub_id (waiting sub_id pending) pending

  abbrev pub dispatch_or_queue_to :
      Option (List ℕ) → ℕ → N → List (ℕ × List N) → List (ℕ × List N) × List (Effect N)
  dispatch_or_queue_to none sub_id n pending = (queue sub_id n pending, [])
  dispatch_or_queue_to (some handlers) sub_id n pending =
      (pending, dispatches sub_id handlers n ∷ [])

  unfoldable pub dispatch_or_queue :
      (ℕ → Option (List ℕ)) → ℕ → N → List (ℕ × List N) → List (ℕ × List N) × List (Effect N)
  dispatch_or_queue resolve sub_id n pending =
      dispatch_or_queue_to (resolve sub_id) sub_id n pending

  abbrev pub drop_all : ℕ → List N → List (Effect N)
  drop_all sub_id [] = []
  drop_all sub_id (n ∷ ns) = drops sub_id n ∷ drop_all sub_id ns

  unfoldable pub remove_pending : ℕ → List (ℕ × List N) → List (ℕ × List N) × List (Effect N)
  remove_pending sub_id pending = (remove sub_id pending, drop_all sub_id (waiting sub_id pending))
