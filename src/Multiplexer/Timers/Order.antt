-- ===== src/Multiplexer/Timers/Order.antt =====
-- src/client/multiplexer.ts: the order of a heap of deadlines, the places that its entries know, and
-- how often a request stands in it.
use fitz_ts.Base.{
  ℕ, zero, suc, ◌+◌, ◌<◌, ◌≤◌, ◌≡◌, ◌≢◌, ap, ◌∙◌, List, [], ◌∷◌, length, set, Bool, true, false,
  arith, length-set,
}
use fitz_ts.Multiplexer.Timers.{TimeoutEntry, at, key, swap_timeout_entries, parent}
use fitz_ts.Multiplexer.Timers.Swap.{at-set, length-swap, index-swap}

-- No deadline is before that of the parent.
abbrev pub IsHeap : List TimeoutEntry → Type 0
IsHeap xs = (c : ℕ) → 0 < c → c < length xs → key xs (parent c) ≤ key xs c

abbrev pub IsIndexed : List TimeoutEntry → Type 0
IsIndexed xs = (k : ℕ) → k < length xs → (at xs k).timeout_index ≡ k

-- The children of `i` are in order with its parent.
abbrev pub IsBridged : List TimeoutEntry → ℕ → Type 0
IsBridged xs i =
    (c : ℕ) → 0 < c → c < length xs → parent c ≡ i → 0 < i → key xs (parent i) ≤ key xs c

abbrev pub one : Bool → ℕ
one true = 1
one false = 0

-- How many entries have an identity and a deadline that pass a test.
abbrev pub count : (ℕ → ℕ → Bool) → List TimeoutEntry → ℕ
count p [] = 0
count p (x ∷ xs) = one (p x.id x.deadline) + count p xs

-- The same requests with the same deadlines, each as often.
abbrev pub Same : List TimeoutEntry → List TimeoutEntry → Type 0
Same xs ys = (p : ℕ → ℕ → Bool) → count p xs ≡ count p ys

pub count-set :
    (p : ℕ → ℕ → Bool) (xs : List TimeoutEntry) (i : ℕ) (v : TimeoutEntry)
    → i < length xs
    → count p (set xs i v) + one (p (at xs i).id (at xs i).deadline)
      ≡ count p xs + one (p v.id v.deadline)
count-set p [] i v h = absurd (omega arith)
count-set p (x ∷ xs) zero v h = omega arith
count-set p (x ∷ xs) (suc i) v h = omega (arith, count-set p xs i v)

pub Same-swap :
    (xs : List TimeoutEntry) (i j : ℕ)
    → i < length xs
    → j < length xs
    → i ≢ j
    → Same (swap_timeout_entries xs i j) xs
unfolding swap_timeout_entries
Same-swap xs i j hi hj ne p =
    let right : TimeoutEntry = record (at xs j) { timeout_index = i } in
    let left : TimeoutEntry = record (at xs i) { timeout_index = j } in
    let other : at (set xs i right) j ≡ at xs j = at-set xs i j right hi ∙ ground arith in
    let first = count-set p xs i right hi in
    let second = count-set p (set xs i right) j left (omega (arith, length-set xs i right)) in
    omega (arith, first, second, ap (λ e. one (p e.id e.deadline)) other)

-- What an operation of the heap that moves entries keeps.
pub record Moved (xs ys : List TimeoutEntry) : Type 0 where
  pub heap : IsHeap ys
  pub indexed : IsIndexed ys
  pub same : Same ys xs
  pub size : length ys ≡ length xs

pub swap-IsIndexed :
    (xs : List TimeoutEntry) (i j : ℕ)
    → i < length xs
    → j < length xs
    → IsIndexed xs
    → IsIndexed (swap_timeout_entries xs i j)
swap-IsIndexed xs i j hi hj h k hk =
    ground (arith, index-swap xs i j hi hj k, h k, length-swap xs i j hi hj)

root_least_below :
    (fuel : ℕ) (xs : List TimeoutEntry) (i : ℕ)
    → IsHeap xs
    → i < fuel
    → i < length xs
    → key xs 0 ≤ key xs i
root_least_below zero xs i h f p = absurd (omega arith)
root_least_below (suc fuel) xs i h f p = ground (arith, h i, root_least_below fuel xs (parent i) h)

-- The root has the earliest deadline.
pub root_least : (xs : List TimeoutEntry) (i : ℕ) → IsHeap xs → i < length xs → key xs 0 ≤ key xs i
root_least xs i h p = root_least_below (suc i) xs i h (omega arith) p
