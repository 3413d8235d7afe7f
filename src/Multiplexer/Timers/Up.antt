-- ===== src/Multiplexer/Timers/Up.antt =====
-- src/client/multiplexer.ts, heapifyUp: an entry whose deadline is too early for its place.
use fitz_ts.Base.{
  ℕ, zero, suc, ◌<◌, ◌≤◌, ◌≢◌, refl, ◌∙◌, List, length, ltb, leb, arith, Bool-cases, inl, inr,
}
use fitz_ts.Multiplexer.Timers.{TimeoutEntry, key, swap_timeout_entries, parent, heapify_up}
use fitz_ts.Multiplexer.Timers.Swap.{length-swap, key-swap}
use fitz_ts.Multiplexer.Timers.Order.{
  IsHeap, IsIndexed, IsBridged, Same-swap, Moved, swap-IsIndexed,
}

-- Only the edge above `i` may be out of order.
pub record RisesAt (xs : List TimeoutEntry) (i : ℕ) : Type 0 where
  pub inside : i < length xs
  pub edges : (c : ℕ) → 0 < c → c < length xs → c ≢ i → key xs (parent c) ≤ key xs c
  pub bridged : IsBridged xs i

swap-RisesAt :
    (xs : List TimeoutEntry) (i : ℕ)
    → RisesAt xs i
    → 0 < i
    → key xs i < key xs (parent i)
    → RisesAt (swap_timeout_entries xs i (parent i)) (parent i)
swap-RisesAt xs i v pos below =
    let above : parent i < length xs = omega (arith, v.inside) in
    grind
      (arith, length-swap xs i (parent i) v.inside above, key-swap xs i (parent i) v.inside above)

pub Moved-rfl : (xs : List TimeoutEntry) → IsHeap xs → IsIndexed xs → Moved xs xs
Moved-rfl xs h ix = record { heap = h; indexed = ix; same = λ p. refl; size = refl }

pub Moved-swap :
    (xs ys : List TimeoutEntry) (i j : ℕ)
    → i < length xs
    → j < length xs
    → i ≢ j
    → Moved (swap_timeout_entries xs i j) ys
    → Moved xs ys
Moved-swap xs ys i j hi hj ne m = record {
  heap = m.heap;
  indexed = m.indexed;
  same = λ p. m.same p ∙ Same-swap xs i j hi hj ne p;
  size = m.size ∙ length-swap xs i j hi hj;
}

pub heapify_up-Moved :
    (fuel : ℕ) (xs : List TimeoutEntry) (i : ℕ)
    → i ≤ fuel
    → RisesAt xs i
    → IsIndexed xs
    → Moved xs (heapify_up fuel xs i)
unfolding heapify_up
heapify_up-Moved zero xs i f v ix = Moved-rfl xs (λ c p q. v.edges c p q (omega arith)) ix
heapify_up-Moved (suc fuel) xs i f v ix = elim (Bool-cases (ltb 0 i)) [
  | inl pos ↦ elim (Bool-cases (leb (key xs (parent i)) (key xs i))) [
    | inl settled ↦ rw (pos, settled) (Moved-rfl xs (λ c p q. ground (arith, v.edges c)) ix)
    | inr below ↦
        let above : parent i < length xs = omega (arith, v.inside) in
        let higher : 0 < i = ground arith in
        let early : key xs i < key xs (parent i) = ground arith in
        rw (pos, below)
          (Moved-swap xs _ i (parent i) v.inside above (omega arith) (
            heapify_up-Moved fuel (swap_timeout_entries xs i (parent i)) (parent i) (omega arith)
              (swap-RisesAt xs i v higher early)
              (swap-IsIndexed xs i (parent i) v.inside above ix)))
  ]
  | inr root ↦ rw root (Moved-rfl xs (λ c p q. v.edges c p q (ground arith)) ix)
]
