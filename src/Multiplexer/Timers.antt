-- ===== src/Multiplexer/Timers.antt =====
-- src/client/multiplexer.ts: the deadlines of the requests, as a binary heap of entries that know
-- their place, and the one timer that is armed for the earliest. A request is its identity, and time
-- is a number; Infinity and a handle that is undefined are `none`. What is modelled of an entry is
-- its object: one that is not in the array has the place -1.
pub mod Removal
pub mod Expiry
pub mod Clock
pub mod Swap
pub mod Order
pub mod Up
pub mod Down
use fitz_ts.Base.{
  ℕ, zero, suc, ◌+◌, ◌-◌, ◌*◌, ◌/◌, List, [], ◌∷◌, ◌++◌, length, take, set, Option, some, none,
  Bool, true, false, ltb, leb, ◌==◌, ◌&&◌, ◌||◌, if◌then◌else◌,
}

pub record TimeoutEntry : Type 0 where
  pub id : ℕ
  pub deadline : ℕ
  pub timeout_index : ℕ

-- What stands for an entry outside the array; no access of the code is outside.
abbrev pub nobody : TimeoutEntry
nobody = record { id = 0; deadline = 0; timeout_index = 0 }

abbrev pub at : List TimeoutEntry → ℕ → TimeoutEntry
at [] i = nobody
at (x ∷ xs) zero = x
at (x ∷ xs) (suc i) = at xs i

abbrev pub key : List TimeoutEntry → ℕ → ℕ
key entries i = (at entries i).deadline

unfoldable pub swap_timeout_entries : List TimeoutEntry → ℕ → ℕ → List TimeoutEntry
swap_timeout_entries entries left_index right_index =
    let left = at entries left_index in
    let right = at entries right_index in
    set (set entries left_index (record right { timeout_index = left_index })) right_index
      (record left { timeout_index = right_index })

abbrev pub parent : ℕ → ℕ
parent i = (i - 1) / 2

-- The loop moves to the parent, so that `index` rounds are enough.
unfoldable pub heapify_up : ℕ → List TimeoutEntry → ℕ → List TimeoutEntry
heapify_up zero entries index = entries
heapify_up (suc fuel) entries index =
    let rest = heapify_up fuel (swap_timeout_entries entries index (parent index)) (parent index) in
    if ltb 0 index
    then if leb (key entries (parent index)) (key entries index) then entries else rest
    else entries

abbrev pub smaller : List TimeoutEntry → ℕ → ℕ → ℕ
smaller entries child smallest =
    if ltb child (length entries) && ltb (key entries child) (key entries smallest)
    then child
    else smallest

unfoldable pub smallest_of : List TimeoutEntry → ℕ → ℕ
smallest_of entries index = smaller entries (index * 2 + 2) (smaller entries (index * 2 + 1) index)

-- The loop moves to a child, so that as many rounds as there are places from `index` on are enough.
unfoldable pub heapify_down : ℕ → List TimeoutEntry → ℕ → List TimeoutEntry
heapify_down zero entries index = entries
heapify_down (suc fuel) entries index =
    let smallest = smallest_of entries index in
    let rest = heapify_down fuel (swap_timeout_entries entries index smallest) smallest in
    if smallest == index then entries else rest

-- `pop` of what is not empty.
abbrev pub without_last : List TimeoutEntry → List TimeoutEntry
without_last entries = take (length entries - 1) entries

-- From the place of an entry on.
unfoldable pub remove_at : List TimeoutEntry → ℕ → List TimeoutEntry
remove_at entries index =
    let last = at entries (length entries - 1) in
    let kept = without_last entries in
    let moved = set kept index (record last { timeout_index = index }) in
    if index == length kept
    then kept
    else heapify_up index (heapify_down (length kept - index) moved index) index

unfoldable pub find : ℕ → List TimeoutEntry → Option TimeoutEntry
find id [] = none
find id (x ∷ xs) = let rest = find id xs in if x.id == id then some x else rest

abbrev pub remove_found : List TimeoutEntry → Option TimeoutEntry → List TimeoutEntry
remove_found entries none = entries
remove_found entries (some e) =
    if leb (length entries) e.timeout_index then entries else remove_at entries e.timeout_index

-- `removeTimeoutEntry` of a request.
unfoldable pub remove_timeout_entry : List TimeoutEntry → ℕ → List TimeoutEntry
remove_timeout_entry entries id = remove_found entries (find id entries)

-- `armed` is whether timeoutHandle is defined.
pub record Timers : Type 0 where
  pub entries : List TimeoutEntry
  pub armed : Bool
  pub next_timeout_deadline : Option ℕ

unfoldable pub new_timers : Timers
new_timers = record { entries = []; armed = false; next_timeout_deadline = none }

-- `deadline >= nextTimeoutDeadline`
abbrev pub reaches : ℕ → Option ℕ → Bool
reaches deadline none = false
reaches deadline (some next) = leb next deadline

unfoldable pub schedule_timeout : ℕ → Timers → Timers
schedule_timeout deadline t =
    if t.armed && reaches deadline t.next_timeout_deadline
    then t
    else record t { armed = true; next_timeout_deadline = some deadline }

abbrev pub pushed : List TimeoutEntry → ℕ → ℕ → List TimeoutEntry
pushed entries id deadline =
    entries ++ record { id = id; deadline = deadline; timeout_index = length entries } ∷ []

-- The part of `issueRequest` that concerns the timer.
unfoldable pub add_timeout : ℕ → ℕ → Timers → Timers
add_timeout id deadline t = schedule_timeout deadline (record t {
  entries = heapify_up (length t.entries) (pushed t.entries id deadline) (length t.entries);
})

unfoldable pub get_next_timeout_deadline : List TimeoutEntry → Option ℕ
get_next_timeout_deadline [] = none
get_next_timeout_deadline (x ∷ xs) = some x.deadline

abbrev pub is_some : Option ℕ → Bool
is_some none = false
is_some (some deadline) = true

-- The loop of `handleTimeouts`: the entries that are left, and the requests that time out. It takes
-- an entry out in each round, by its place. `rejectRequest` looks for the entry again, which is gone.
unfoldable pub expire : ℕ → ℕ → List TimeoutEntry → List TimeoutEntry × List TimeoutEntry
expire zero now entries = (entries, [])
expire (suc fuel) now [] = ([], [])
expire (suc fuel) now (root ∷ entries) =
    let more = expire fuel now (remove_found (root ∷ entries) (some root)) in
    if leb root.deadline now then (more.0, root ∷ more.1) else (root ∷ entries, [])

unfoldable pub handle_timeouts : ℕ → Timers → Timers × List TimeoutEntry
handle_timeouts now t =
    let r = expire (length t.entries) now t.entries in
    let next = get_next_timeout_deadline r.0 in
    (record { entries = r.0; armed = is_some next; next_timeout_deadline = next }, r.1)

pub data Event : Type 0 where
  issues : (id deadline : ℕ) → Event
  finalizes : (id : ℕ) → Event
  fires : (now : ℕ) → Event
  cancels : Event

unfoldable pub step : Event → Timers → Timers × List TimeoutEntry
step (issues id deadline) t = (add_timeout id deadline t, [])
step (finalizes id) t = (record t { entries = remove_timeout_entry t.entries id }, [])
step (fires now) t = handle_timeouts now t
step cancels t = (new_timers, [])

unfoldable pub run : List Event → Timers → Timers
run [] t = t
run (e ∷ events) t = run events (step e t).0
