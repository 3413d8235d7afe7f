-- ===== src/Multiplexer/Timers/Removal.antt =====
-- src/client/multiplexer.ts: an entry is put into the heap, and taken out of it.
use mathlib.Core.Path.{subst}
use fitz_ts.Base.{
  ℕ, zero, suc, ◌+◌, ◌-◌, ◌<◌, ◌≡◌, refl, sym, ap, ◌∙◌, List, [], ◌∷◌, ◌++◌, length, take, set,
  some, none, Bool, true, false, ltb, leb, ◌==◌, if◌then◌else◌, arith, Bool-cases, inl, inr,
  length-append, length-take, length-set,
}
use fitz_ts.Multiplexer.Timers.{
  TimeoutEntry, at, key, parent, heapify_up, without_last, remove_at, find, remove_found,
  remove_timeout_entry, pushed,
}
use fitz_ts.Multiplexer.Timers.Swap.{at-set}
use fitz_ts.Multiplexer.Timers.Order.{IsHeap, IsIndexed, one, count, Moved, count-set}
use fitz_ts.Multiplexer.Timers.Up.{RisesAt, heapify_up-Moved}
use fitz_ts.Multiplexer.Timers.Down.{IsLoose, Sunk, heapify_down-Sunk}

pub at-append :
    (xs ys : List TimeoutEntry) (k : ℕ)
    → at (xs ++ ys) k ≡ (if ltb k (length xs) then at xs k else at ys (k - length xs))
at-append [] ys k = ground arith
at-append (x ∷ xs) ys zero = ground arith
at-append (x ∷ xs) ys (suc k) = ground (arith, at-append xs ys k)

at-take : (n : ℕ) (xs : List TimeoutEntry) (k : ℕ) → k < n → at (take n xs) k ≡ at xs k
at-take zero xs k h = absurd (omega arith)
at-take (suc n) [] k h = refl
at-take (suc n) (x ∷ xs) zero h = refl
at-take (suc n) (x ∷ xs) (suc k) h = at-take n xs k (omega arith)

count-append :
    (p : ℕ → ℕ → Bool) (xs ys : List TimeoutEntry) → count p (xs ++ ys) ≡ count p xs + count p ys
count-append p [] ys = omega arith
count-append p (x ∷ xs) ys = omega (arith, count-append p xs ys)

pub count-pushed :
    (p : ℕ → ℕ → Bool) (xs : List TimeoutEntry) (id deadline : ℕ)
    → count p (pushed xs id deadline) ≡ count p xs + one (p id deadline)
count-pushed p xs id deadline = omega (
  arith,
  count-append p xs (record { id = id; deadline = deadline; timeout_index = length xs } ∷ []),
)

count-take :
    (p : ℕ → ℕ → Bool) (n : ℕ) (xs : List TimeoutEntry)
    → length xs ≡ suc n
    → count p xs ≡ count p (take n xs) + one (p (at xs n).id (at xs n).deadline)
count-take p n [] h = absurd (omega arith)
count-take p zero (x ∷ []) h = omega arith
count-take p zero (x ∷ y ∷ xs) h = absurd (omega arith)
count-take p (suc n) (x ∷ xs) h = omega (arith, count-take p n xs (omega arith))

at-append_last : (xs : List TimeoutEntry) (y : TimeoutEntry) → at (xs ++ y ∷ []) (length xs) ≡ y
at-append_last [] y = refl
at-append_last (x ∷ xs) y = at-append_last xs y

-- The entries without that at `i`, whose place is taken by the last.
abbrev replaced : List TimeoutEntry → ℕ → List TimeoutEntry
replaced xs i = set (without_last xs) i (record (at xs (length xs - 1)) { timeout_index = i })

-- What is left of `xs` after an entry is taken out.
pub record Taken (xs : List TimeoutEntry) (e : TimeoutEntry) (ys : List TimeoutEntry) : Type 0 where
  pub heap : IsHeap ys
  pub indexed : IsIndexed ys
  pub counts : (p : ℕ → ℕ → Bool) → count p ys + one (p e.id e.deadline) ≡ count p xs
  pub size : suc (length ys) ≡ length xs

module _ (xs : List TimeoutEntry) (h : IsHeap xs) (ix : IsIndexed xs) where
  pushed-front : (id deadline k : ℕ) → k < length xs → at (pushed xs id deadline) k ≡ at xs k
  pushed-front id deadline k hk = ground (
    arith,
    at-append xs (record { id = id; deadline = deadline; timeout_index = length xs } ∷ []) k,
  )

  length-pushed : (id deadline : ℕ) → length (pushed xs id deadline) ≡ suc (length xs)
  length-pushed id deadline = omega (
    arith,
    length-append xs (record { id = id; deadline = deadline; timeout_index = length xs } ∷ []),
  )

  pushed-RisesAt : (id deadline : ℕ) → RisesAt (pushed xs id deadline) (length xs)
  pushed-RisesAt id deadline = record {
    inside = omega (arith, length-pushed id deadline);
    edges = λ c p q ne.
        let inside : c < length xs = omega (arith, length-pushed id deadline) in
        omega (
          arith,
          h c p inside,
          ap (λ e. e.deadline) (pushed-front id deadline c inside),
          ap (λ e. e.deadline) (pushed-front id deadline (parent c) (omega arith)),
        );
    bridged = λ c p q e r. absurd (omega (arith, length-pushed id deadline));
  }

  pushed-IsIndexed : (id deadline : ℕ) → IsIndexed (pushed xs id deadline)
  pushed-IsIndexed id deadline k hk = elim (Bool-cases (ltb k (length xs))) [
    | inl front ↦
        ap (λ e. e.timeout_index) (pushed-front id deadline k (ground arith)) ∙ ix k (ground arith)
    | inr back ↦
        let last : k ≡ length xs = ground (arith, length-pushed id deadline) in
        ap (λ j. (at (pushed xs id deadline) j).timeout_index) last
        ∙ (ap (λ e. e.timeout_index)
              (at-append_last xs
                (record { id = id; deadline = deadline; timeout_index = length xs }))
            ∙ sym last)
  ]

  length-replaced : (i : ℕ) → length (replaced xs i) ≡ length xs - 1
  length-replaced i =
      length-set (without_last xs) i _ ∙ omega (arith, length-take (length xs - 1) xs)

  at-replaced :
      (i k : ℕ)
      → i < length xs - 1
      → k < length xs - 1
      → at (replaced xs i) k
        ≡ (if i == k then record (at xs (length xs - 1)) { timeout_index = i } else at xs k)
  at-replaced i k hi hk =
      at-set (without_last xs) i k _ (omega (arith, length-take (length xs - 1) xs))
      ∙ ap (λ e. if i == k then record (at xs (length xs - 1)) { timeout_index = i } else e)
          (at-take (length xs - 1) xs k hk)

  key-replaced :
      (i k : ℕ)
      → i < length xs - 1
      → k < length xs - 1
      → key (replaced xs i) k ≡ (if i == k then key xs (length xs - 1) else key xs k)
  key-replaced i k hi hk = ap (λ e. e.deadline) (at-replaced i k hi hk) ∙ pick (i == k)
    where
      pick :
          (b : Bool)
          → (if b then record (at xs (length xs - 1)) { timeout_index = i } else at xs k).deadline
            ≡ (if b then key xs (length xs - 1) else key xs k)
      pick true = refl
      pick false = refl

  index-replaced :
      (i k : ℕ)
      → i < length xs - 1
      → k < length xs - 1
      → (at (replaced xs i) k).timeout_index ≡ (if i == k then i else (at xs k).timeout_index)
  index-replaced i k hi hk = ap (λ e. e.timeout_index) (at-replaced i k hi hk) ∙ pick (i == k)
    where
      pick :
          (b : Bool)
          → (if b
              then record (at xs (length xs - 1)) { timeout_index = i }
              else at xs k).timeout_index
            ≡ (if b then i else (at xs k).timeout_index)
      pick true = refl
      pick false = refl

  replaced-IsIndexed : (i : ℕ) → i < length xs - 1 → IsIndexed (replaced xs i)
  replaced-IsIndexed i hi k hk = ground (arith, index-replaced i k hi, length-replaced i, ix k)

  replaced-IsLoose : (i : ℕ) → i < length xs - 1 → IsLoose (replaced xs i) i
  replaced-IsLoose i hi = grind (arith, key-replaced i, length-replaced i, h)

  without_last-IsHeap : IsHeap (without_last xs)
  without_last-IsHeap c p q =
      let inside : c < length xs - 1 = omega (arith, length-take (length xs - 1) xs) in
      omega (
        arith,
        h c p (omega arith),
        ap (λ e. e.deadline) (at-take (length xs - 1) xs c inside),
        ap (λ e. e.deadline) (at-take (length xs - 1) xs (parent c) (omega arith)),
      )

  without_last-IsIndexed : IsIndexed (without_last xs)
  without_last-IsIndexed k hk =
      ap (λ e. e.timeout_index)
        (at-take (length xs - 1) xs k (omega (arith, length-take (length xs - 1) xs)))
      ∙ ix k (omega (arith, length-take (length xs - 1) xs))

  count-replaced :
      (p : ℕ → ℕ → Bool) (i : ℕ)
      → i < length xs - 1
      → count p (replaced xs i) + one (p (at xs i).id (at xs i).deadline) ≡ count p xs
  count-replaced p i hi =
      let last : TimeoutEntry = record (at xs (length xs - 1)) { timeout_index = i } in
      let there : at (without_last xs) i ≡ at xs i = at-take (length xs - 1) xs i hi in
      omega (
        arith,
        count-set p (without_last xs) i last (omega (arith, length-take (length xs - 1) xs)),
        count-take p (length xs - 1) xs (omega arith),
        ap (λ e. one (p e.id e.deadline)) there,
      )

  Sunk-Taken :
      (i : ℕ) {ys : List TimeoutEntry}
      → i < length xs - 1
      → Sunk (replaced xs i) ys i
      → Taken xs (at xs i) (heapify_up i ys i)
  Sunk-Taken i {ys} hi s =
      let m = heapify_up-Moved i ys i (omega arith) s.rises s.indexed in
      record {
        heap = m.heap;
        indexed = m.indexed;
        counts = λ p. omega (arith, m.same p, s.same p, count-replaced p i hi);
        size = omega (arith, m.size, s.size, length-replaced i);
      }

  pub remove_at-Taken : (i : ℕ) → i < length xs → Taken xs (at xs i) (remove_at xs i)
  unfolding remove_at
  remove_at-Taken i hi = elim (Bool-cases (i == length (without_last xs))) [
    | inl end ↦
        let last : i ≡ length xs - 1 = ground (arith, length-take (length xs - 1) xs) in
        rw end (record {
          heap = without_last-IsHeap;
          indexed = without_last-IsIndexed;
          counts = λ p. omega (
            arith,
            count-take p (length xs - 1) xs (omega arith),
            ap (λ j. one (p (at xs j).id (at xs j).deadline)) last,
          );
          size = omega (arith, length-take (length xs - 1) xs);
        })
    | inr inner ↦
        let inside : i < length xs - 1 = ground (arith, length-take (length xs - 1) xs) in
        rw inner (
          Sunk-Taken i inside (
            heapify_down-Sunk (length (without_last xs) - i) (replaced xs i) i
              (omega (arith, length-take (length xs - 1) xs, length-replaced i))
              (replaced-IsLoose i inside) (replaced-IsIndexed i inside)))
  ]

  pub heapify_up-pushed :
      (id deadline : ℕ)
      → Moved (pushed xs id deadline) (heapify_up (length xs) (pushed xs id deadline) (length xs))
  heapify_up-pushed id deadline =
      heapify_up-Moved (length xs) (pushed xs id deadline) (length xs) (omega arith)
        (pushed-RisesAt id deadline) (pushed-IsIndexed id deadline)

-- Where an entry that is found stands.
some-injective : (x y : TimeoutEntry) → some x ≡ some y → x ≡ y
some-injective x y h = cc

deeper :
    (x : TimeoutEntry) (xs : List TimeoutEntry) (e : TimeoutEntry)
    → (k : ℕ) × (k < length xs) × (at xs k ≡ e)
    → (k : ℕ) × (k < length (x ∷ xs)) × (at (x ∷ xs) k ≡ e)
deeper x xs e (k, inside, there) = (suc k, omega (arith, inside), there)

find-at :
    (id : ℕ) (xs : List TimeoutEntry) (e : TimeoutEntry)
    → find id xs ≡ some e
    → (k : ℕ) × (k < length xs) × (at xs k ≡ e)
unfolding find
find-at id [] e h = cc
find-at id (x ∷ xs) e h = elim (Bool-cases (x.id == id)) [
  | inl here ↦ (0, omega arith, some-injective x e (rw here at h))
  | inr there ↦ deeper x xs e (find-at id xs e (rw there at h))
]

-- A request that has an entry is taken out of the heap, and nothing else.
pub remove_timeout_entry-Taken :
    (xs : List TimeoutEntry) (id : ℕ) (e : TimeoutEntry)
    → IsHeap xs
    → IsIndexed xs
    → find id xs ≡ some e
    → Taken xs e (remove_timeout_entry xs id)
unfolding remove_timeout_entry
remove_timeout_entry-Taken xs id e h ix found = at_place (find-at id xs e found)
  where
    at_place : (k : ℕ) × (k < length xs) × (at xs k ≡ e) → Taken xs e (remove_found xs (find id xs))
    at_place (k, inside, there) =
        let place : e.timeout_index ≡ k = sym (ap (λ y. y.timeout_index) there) ∙ ix k inside in
        let known : leb (length xs) k ≡ false = ground arith in
        rw found (
          subst (λ j. Taken xs e (if leb (length xs) j then xs else remove_at xs j)) (sym place)
            (rw known
              (subst (λ y. Taken xs y (remove_at xs k)) there (remove_at-Taken xs h ix k inside))))

-- A request that has no entry leaves the heap as it is.
pub remove_timeout_entry_gone :
    (xs : List TimeoutEntry) (id : ℕ) → find id xs ≡ none → remove_timeout_entry xs id ≡ xs
unfolding remove_timeout_entry
remove_timeout_entry_gone xs id gone = ap (remove_found xs) gone
