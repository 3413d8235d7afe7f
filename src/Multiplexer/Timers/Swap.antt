-- ===== src/Multiplexer/Timers/Swap.antt =====
-- src/client/multiplexer.ts, swapTimeoutEntries: what stands where afterwards.
use fitz_ts.Base.{
  ℕ, zero, suc, ◌<◌, ◌≡◌, refl, ap, ◌∙◌, List, [], ◌∷◌, length, set, Bool, true, false, ◌==◌,
  if◌then◌else◌, arith, length-set,
}
use fitz_ts.Multiplexer.Timers.{TimeoutEntry, at, key, swap_timeout_entries}

pub at-set :
    (xs : List TimeoutEntry) (i k : ℕ) (v : TimeoutEntry)
    → i < length xs
    → at (set xs i v) k ≡ (if i == k then v else at xs k)
at-set [] i k v h = absurd (omega arith)
at-set (x ∷ xs) zero zero v h = refl
at-set (x ∷ xs) zero (suc k) v h = ground arith
at-set (x ∷ xs) (suc i) zero v h = ground arith
at-set (x ∷ xs) (suc i) (suc k) v h = ground (arith, at-set xs i k v)

module _ (xs : List TimeoutEntry) (i j : ℕ) (hi : i < length xs) (hj : j < length xs) where
  abbrev left_at_right : TimeoutEntry
  left_at_right = record (at xs i) { timeout_index = j }

  abbrev right_at_left : TimeoutEntry
  right_at_left = record (at xs j) { timeout_index = i }

  pub length-swap : length (swap_timeout_entries xs i j) ≡ length xs
  unfolding swap_timeout_entries
  length-swap = length-set (set xs i right_at_left) j left_at_right ∙ length-set xs i right_at_left

  pub at-swap :
      (k : ℕ)
      → at (swap_timeout_entries xs i j) k
        ≡ (if j == k then left_at_right else if i == k then right_at_left else at xs k)
  unfolding swap_timeout_entries
  at-swap k =
      at-set (set xs i right_at_left) j k left_at_right
        (omega (arith, length-set xs i right_at_left))
      ∙ ap (λ e. if j == k then left_at_right else e) (at-set xs i k right_at_left hi)

  pub key-swap :
      (k : ℕ)
      → key (swap_timeout_entries xs i j) k
        ≡ (if j == k then key xs i else if i == k then key xs j else key xs k)
  key-swap k = ap (λ e. e.deadline) (at-swap k) ∙ pick (j == k) (i == k)
    where
      pick :
          (a b : Bool)
          → (if a then left_at_right else if b then right_at_left else at xs k).deadline
            ≡ (if a then key xs i else if b then key xs j else key xs k)
      pick true b = refl
      pick false true = refl
      pick false false = refl

  pub index-swap :
      (k : ℕ)
      → (at (swap_timeout_entries xs i j) k).timeout_index
        ≡ (if j == k then j else if i == k then i else (at xs k).timeout_index)
  index-swap k = ap (λ e. e.timeout_index) (at-swap k) ∙ pick (j == k) (i == k)
    where
      pick :
          (a b : Bool)
          → (if a then left_at_right else if b then right_at_left else at xs k).timeout_index
            ≡ (if a then j else if b then i else (at xs k).timeout_index)
      pick true b = refl
      pick false true = refl
      pick false false = refl
