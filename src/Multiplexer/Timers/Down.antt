-- ===== src/Multiplexer/Timers/Down.antt =====
-- src/client/multiplexer.ts, heapifyDown: an entry whose deadline is too late for its place, or too
-- early, which is left for heapifyUp.
use fitz_ts.Base.{
  ℕ, zero, suc, ◌+◌, ◌<◌, ◌≤◌, ◌≡◌, ◌≢◌, refl, sym, ap, List, length, true, ◌==◌, if◌then◌else◌,
  arith, Bool-cases, inl, inr,
}
use fitz_ts.Multiplexer.Timers.{
  TimeoutEntry, key, swap_timeout_entries, parent, smallest_of, heapify_down,
}
use fitz_ts.Multiplexer.Timers.Swap.{length-swap, key-swap}
use fitz_ts.Multiplexer.Timers.Order.{IsIndexed, IsBridged, Same, Moved, swap-IsIndexed}
use fitz_ts.Multiplexer.Timers.Up.{RisesAt, Moved-rfl, Moved-swap}

-- Only the edges below `i` may be out of order.
pub record SinksAt (xs : List TimeoutEntry) (i : ℕ) : Type 0 where
  pub inside : i < length xs
  pub edges : (c : ℕ) → 0 < c → c < length xs → parent c ≢ i → key xs (parent c) ≤ key xs c
  pub bridged : IsBridged xs i

-- `s` is the place of the earliest among `i` and its children.
pub record IsSmallest (xs : List TimeoutEntry) (i s : ℕ) : Type 0 where
  pub inside : s < length xs
  pub least : (c : ℕ) → 0 < c → c < length xs → parent c ≡ i → key xs s ≤ key xs c
  pub at_most : key xs s ≤ key xs i
  pub child : s ≢ i → (0 < s) × (parent s ≡ i) × (key xs s < key xs i)

smallest_of-IsSmallest :
    (xs : List TimeoutEntry) (i : ℕ) → i < length xs → IsSmallest xs i (smallest_of xs i)
unfolding smallest_of
smallest_of-IsSmallest xs i h = ground arith

swap-SinksAt :
    (xs : List TimeoutEntry) (i s : ℕ)
    → SinksAt xs i
    → IsSmallest xs i s
    → s ≢ i
    → SinksAt (swap_timeout_entries xs i s) s
swap-SinksAt xs i s v m ne =
    let c = m.child ne in
    grind (arith, length-swap xs i s v.inside m.inside, key-swap xs i s v.inside m.inside)

-- Where the smallest is `i` itself its children are in order.
settled :
    (xs : List TimeoutEntry) (i s : ℕ)
    → IsSmallest xs i s
    → (c : ℕ) → 0 < c
    → c < length xs
    → (s == i) ≡ true
    → parent c ≡ i
    → key xs (parent c) ≤ key xs c
settled xs i s m c p q same e =
    let here : s ≡ i = ground arith in
    omega (arith, m.least c p q e, ap (key xs) here, ap (key xs) e)

heapify_down-Moved :
    (fuel : ℕ) (xs : List TimeoutEntry) (i : ℕ)
    → length xs ≤ fuel + i
    → SinksAt xs i
    → IsIndexed xs
    → Moved xs (heapify_down fuel xs i)
unfolding heapify_down
heapify_down-Moved zero xs i f v ix = absurd (omega (arith, v.inside))
heapify_down-Moved (suc fuel) xs i f v ix =
    by_smallest (smallest_of xs i) (smallest_of-IsSmallest xs i v.inside) (λ s m below.
      heapify_down-Moved fuel (swap_timeout_entries xs i s) s
        (omega (arith, length-swap xs i s v.inside m.inside)))
  where
    by_smallest :
        (s : ℕ)
        → IsSmallest xs i s
        → ((s : ℕ)
            → IsSmallest xs i s
            → i < s
            → SinksAt (swap_timeout_entries xs i s) s
            → IsIndexed (swap_timeout_entries xs i s)
            → Moved
                (swap_timeout_entries xs i s)
                (heapify_down fuel (swap_timeout_entries xs i s) s))
        → Moved xs (if s == i then xs else heapify_down fuel (swap_timeout_entries xs i s) s)
    by_smallest s m deeper = elim (Bool-cases (s == i)) [
      | inl same ↦
          rw same
            (Moved-rfl xs (λ c p q. ground (arith, settled xs i s m c p q same, v.edges c)) ix)
      | inr other ↦
          let ne : s ≢ i = ground arith in
          let c = m.child ne in
          rw other (
            Moved-swap xs _ i s v.inside m.inside (λ e. ne (sym e))
              (deeper s m (omega arith) (swap-SinksAt xs i s v m ne)
                (swap-IsIndexed xs i s v.inside m.inside ix)))
    ]

-- Only the edges above and below `i` may be out of order.
pub record IsLoose (xs : List TimeoutEntry) (i : ℕ) : Type 0 where
  pub inside : i < length xs
  pub edges : (c : ℕ) → 0 < c → c < length xs → c ≢ i → parent c ≢ i → key xs (parent c) ≤ key xs c
  pub bridged : IsBridged xs i

-- What heapifyDown leaves to heapifyUp.
pub record Sunk (xs ys : List TimeoutEntry) (i : ℕ) : Type 0 where
  pub rises : RisesAt ys i
  pub indexed : IsIndexed ys
  pub same : Same ys xs
  pub size : length ys ≡ length xs

swap_loose-SinksAt :
    (xs : List TimeoutEntry) (i s : ℕ)
    → IsLoose xs i
    → IsSmallest xs i s
    → s ≢ i
    → SinksAt (swap_timeout_entries xs i s) s
swap_loose-SinksAt xs i s v m ne =
    let c = m.child ne in
    grind (arith, length-swap xs i s v.inside m.inside, key-swap xs i s v.inside m.inside)

Moved→Sunk : (xs ys : List TimeoutEntry) (i : ℕ) → i < length xs → Moved xs ys → Sunk xs ys i
Moved→Sunk xs ys i h m = record {
  rises = record {
    inside = omega (arith, m.size);
    edges = λ c p q ne. m.heap c p q;
    bridged =
        λ c p q e r. omega (arith, m.heap i r (omega (arith, m.size)), m.heap c p q, ap (key ys) e);
  };
  indexed = m.indexed;
  same = m.same;
  size = m.size;
}

pub heapify_down-Sunk :
    (fuel : ℕ) (xs : List TimeoutEntry) (i : ℕ)
    → length xs ≤ fuel + i
    → IsLoose xs i
    → IsIndexed xs
    → Sunk xs (heapify_down fuel xs i) i
unfolding heapify_down
heapify_down-Sunk zero xs i f v ix = absurd (omega (arith, v.inside))
heapify_down-Sunk (suc fuel) xs i f v ix =
    by_smallest (smallest_of xs i) (smallest_of-IsSmallest xs i v.inside)
  where
    by_smallest :
        (s : ℕ)
        → IsSmallest xs i s
        → Sunk xs (if s == i then xs else heapify_down fuel (swap_timeout_entries xs i s) s) i
    by_smallest s m = elim (Bool-cases (s == i)) [
      | inl same ↦ rw same (record {
        rises = record {
          inside = v.inside;
          edges = λ c p q ne. ground (arith, settled xs i s m c p q same, v.edges c);
          bridged = v.bridged;
        };
        indexed = ix;
        same = λ p. refl;
        size = refl;
      })
      | inr other ↦
          let ne : s ≢ i = ground arith in
          let c = m.child ne in
          rw other (
            Moved→Sunk xs _ i v.inside (
              Moved-swap xs _ i s v.inside m.inside (λ e. ne (sym e))
                (heapify_down-Moved fuel (swap_timeout_entries xs i s) s
                  (omega (arith, length-swap xs i s v.inside m.inside))
                  (swap_loose-SinksAt xs i s v m ne) (swap-IsIndexed xs i s v.inside m.inside ix))))
    ]
