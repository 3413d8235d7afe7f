-- ===== src/Multiplexer/Timers/Expiry.antt =====
-- src/client/multiplexer.ts, handleTimeouts: who times out, and in which order.
use fitz_ts.Base.{
  ℕ, zero, suc, ◌+◌, ◌<◌, ◌≤◌, ◌≡◌, refl, List, [], ◌∷◌, length, some, All, Bool, false,
  if◌then◌else◌, ap, ◌∙◌, ltb, leb, arith, Bool-cases, inl, inr,
}
use fitz_ts.Multiplexer.Timers.{TimeoutEntry, at, remove_at, remove_found, expire}
use fitz_ts.Multiplexer.Timers.Order.{IsHeap, IsIndexed, count, root_least}
use fitz_ts.Multiplexer.Timers.Removal.{remove_at-Taken}

-- No entry is due before `d`.
abbrev pub AtLeast : ℕ → List TimeoutEntry → Type 0
AtLeast d xs = All (λ e. d ≤ e.deadline) xs

-- The deadlines of a list ascend.
abbrev pub Ordered : List TimeoutEntry → Type 0
Ordered [] = Unit {0}
Ordered (x ∷ xs) = AtLeast x.deadline xs × Ordered xs

-- At `now`, `out` of the entries `xs` time out, and `ys` are left.
pub record Expired (now : ℕ) (xs ys out : List TimeoutEntry) : Type 0 where
  pub heap : IsHeap ys
  pub indexed : IsIndexed ys
  pub later : All (λ e. now < e.deadline) ys
  pub due : All (λ e. e.deadline ≤ now) out
  pub ordered : Ordered out
  pub counts : (p : ℕ → ℕ → Bool) → count p ys + count p out ≡ count p xs

abbrev pub before : ℕ → ℕ → ℕ → Bool
before d id deadline = ltb deadline d

pub All-at :
    (P : TimeoutEntry → Type 0) (xs : List TimeoutEntry)
    → ((k : ℕ) → k < length xs → P (at xs k))
    → All P xs
All-at P [] h = tt
All-at P (x ∷ xs) h = (h 0 (omega arith), All-at P xs (λ k q. h (suc k) (omega (arith, q))))

pub count-AtLeast : (d : ℕ) (xs : List TimeoutEntry) → AtLeast d xs → count (before d) xs ≡ 0
count-AtLeast d [] h = refl
count-AtLeast d (x ∷ xs) h = ground (arith, count-AtLeast d xs h.1)

pub AtLeast-count : (d : ℕ) (xs : List TimeoutEntry) → count (before d) xs ≡ 0 → AtLeast d xs
AtLeast-count d [] h = tt
AtLeast-count d (x ∷ xs) h = (ground arith, AtLeast-count d xs (ground arith))

remove_root :
    (root : TimeoutEntry) (xs : List TimeoutEntry)
    → IsIndexed (root ∷ xs)
    → remove_found (root ∷ xs) (some root) ≡ remove_at (root ∷ xs) 0
remove_root root xs ix =
    let all = root ∷ xs in
    let inside : leb (length all) 0 ≡ false = ground arith in
    ap (λ i. if leb (length all) i then all else remove_at all i) (ix 0 (omega arith))
    ∙ ap (λ b. if b then all else remove_at all 0) inside

pub expire-Expired :
    (fuel now : ℕ) (xs : List TimeoutEntry)
    → length xs ≤ fuel
    → IsHeap xs
    → IsIndexed xs
    → Expired now xs (expire fuel now xs).0 (expire fuel now xs).1
unfolding expire
expire-Expired zero now [] f h ix = record {
  heap = h;
  indexed = ix;
  later = tt;
  due = tt;
  ordered = tt;
  counts = λ p. omega arith;
}
expire-Expired zero now (x ∷ xs) f h ix = absurd (omega arith)
expire-Expired (suc fuel) now [] f h ix = record {
  heap = h;
  indexed = ix;
  later = tt;
  due = tt;
  ordered = tt;
  counts = λ p. omega arith;
}
expire-Expired (suc fuel) now (root ∷ xs) f h ix =
    let least : AtLeast root.deadline (root ∷ xs) =
      All-at (λ e. root.deadline ≤ e.deadline) (root ∷ xs) (λ k q. root_least (root ∷ xs) k h q) in
    let t = remove_at-Taken (root ∷ xs) h ix 0 (omega arith) in
    let r =
      expire-Expired fuel now (remove_at (root ∷ xs) 0) (omega (arith, t.size)) t.heap t.indexed in
    let taken = remove_root root xs ix in
    elim (Bool-cases (leb root.deadline now)) [
      | inl due ↦
          rw (taken, due)
            (record {
              heap = r.heap;
              indexed = r.indexed;
              later = r.later;
              due = (ground arith, r.due);
              ordered = (
                AtLeast-count root.deadline _ (
                    omega (
                      arith,
                      r.counts (before root.deadline),
                      t.counts (before root.deadline),
                      count-AtLeast root.deadline (root ∷ xs) least,
                    )),
                r.ordered,
              );
              counts = λ p. omega (arith, r.counts p, t.counts p);
            })
      | inr late ↦
          rw (taken, late)
            (record {
              heap = h;
              indexed = ix;
              later =
                  All-at (λ e. now < e.deadline) (root ∷ xs)
                    (λ k q. ground (arith, root_least (root ∷ xs) k h q));
              due = tt;
              ordered = tt;
              counts = λ p. omega arith;
            })
    ]
