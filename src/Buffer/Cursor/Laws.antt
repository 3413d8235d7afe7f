-- ===== src/Buffer/Cursor/Laws.antt =====
-- What the writes to a cursor leave in its array.
use native.Mathlib.Nat.{div-one}
use fitz_ts.Base.{
  ℕ, ◌+◌, ◌/◌, ◌%◌, ◌^◌, ◌≤◌, ◌≡◌, refl, sym, ap, ◌∙◌, [], ◌∷◌, ◌++◌, length, set, leb, replicate,
  take, drop, Result, ok, ◌>>=◌, arith, append-nil, append_assoc, length-append, length-replicate,
  length-take, length-drop, take-append-drop, take-append, drop-append, true, le→leb,
}
use fitz_ts.Bytes.{Bytes, be, set_bytes}
use fitz_ts.Buffer.Cursor.{
  Cursor, fresh, poke, pokes, write_u32_be_at, write_u64_be_at, write_u64_be_number_at, blit,
  max_safe_integer,
}

-- `done` has been written, and `room` lies behind the place that is written next.
pub record Holds (c : Cursor) (done room : Bytes) : Type 0 where
  pub array : c.buffer ≡ done ++ room
  pub place : c.offset ≡ length done

-- Writes exactly `bs` over as many bytes of the room, whatever lies before and behind.
abbrev pub Fills : (Cursor → Result Cursor) → Bytes → Type 0
Fills op bs =
    (c : Cursor) (done old room : Bytes)
    → length old ≡ length bs
    → Holds c done (old ++ room)
    → (c' : Cursor) × (op c ≡ ok c') × Holds c' (done ++ bs) room

pub fresh-Holds : (n : ℕ) → Holds (fresh n) [] (replicate n 0)
fresh-Holds n = record { array = refl; place = refl }

set-append :
    (done : Bytes) (x b : ℕ) (room : Bytes)
    → set (done ++ x ∷ room) (length done) b ≡ (done ++ b ∷ []) ++ room
set-append [] x b room = refl
set-append (d ∷ done) x b room = rw (set-append done x b room)

pub poke-Holds :
    (c : Cursor) (done : Bytes) (x b : ℕ) (room : Bytes)
    → Holds c done (x ∷ room)
    → Holds (poke b c) (done ++ b ∷ []) room
poke-Holds c done x b room h = record {
  array = rw (h.array, h.place) (set-append done x b room);
  place = omega (arith, length-append done (b ∷ []), h.place);
}

pub pokes-Holds :
    (bs : Bytes) (c : Cursor) (done old room : Bytes)
    → length old ≡ length bs
    → Holds c done (old ++ room)
    → Holds (pokes bs c) (done ++ bs) room
pokes-Holds [] c done [] room e h = rw append-nil h
pokes-Holds [] c done (x ∷ old) room e h = absurd (omega arith)
pokes-Holds (b ∷ bs) c done [] room e h = absurd (omega arith)
pokes-Holds (b ∷ bs) c done (x ∷ old) room e h = rw append_assoc at (
    pokes-Holds bs (poke b c) (done ++ b ∷ []) old room (omega arith)
      (poke-Holds c done x b (old ++ room) h))

pub pokes-Fills : (bs : Bytes) → Fills (λ c. ok (pokes bs c)) bs
pokes-Fills bs c done old room e h = (pokes bs c, refl, pokes-Holds bs c done old room e h)

pub write_u32_be_at-pokes : (v : ℕ) (c : Cursor) → write_u32_be_at v c ≡ pokes (be 4 v) c
unfolding write_u32_be_at
write_u32_be_at-pokes v c = rw (div-one v)

pub write_u64_be_at-pokes : (v : ℕ) (c : Cursor) → write_u64_be_at v c ≡ pokes (be 8 v) c
unfolding write_u64_be_at
write_u64_be_at-pokes v c = rw (div-one v)

pub pokes-append : (bs cs : Bytes) (c : Cursor) → pokes (bs ++ cs) c ≡ pokes cs (pokes bs c)
pokes-append [] cs c = refl
pokes-append (b ∷ bs) cs c = pokes-append bs cs (poke b c)

be-words : (v : ℕ) → be 4 (v / 2 ^ 32) ++ be 4 (v % 2 ^ 32) ≡ be 8 v
be-words v = ground arith

-- The two words of a safe integer are its eight bytes.
pub write_u64_be_number_at-pokes :
    (v : ℕ) (c : Cursor) → v ≤ max_safe_integer → write_u64_be_number_at v c ≡ ok (pokes (be 8 v) c)
unfolding write_u64_be_number_at
write_u64_be_number_at-pokes v c h = rw (le→leb v max_safe_integer h) (
    ap ok (
      write_u32_be_at-pokes (v % 2 ^ 32) (write_u32_be_at (v / 2 ^ 32) c)
      ∙ ap (pokes (be 4 (v % 2 ^ 32))) (write_u32_be_at-pokes (v / 2 ^ 32) c)
      ∙ sym (pokes-append (be 4 (v / 2 ^ 32)) (be 4 (v % 2 ^ 32)) c)
      ∙ ap (λ bs. pokes bs c) (be-words v)))

splice :
    (done bs old room : Bytes)
    → length old ≡ length bs
    → take (length done) (done ++ (old ++ room))
        ++ bs
        ++ drop (length done + length bs) (done ++ (old ++ room))
      ≡ (done ++ bs) ++ room
splice done bs old room e = rw (
  take-append (length done) done (old ++ room) refl,
  ← append_assoc done old room,
  drop-append (length done + length bs) (done ++ old) room (omega (arith, length-append done old)),
)

fits :
    (done bs old room : Bytes)
    → length old ≡ length bs
    → leb (length done + length bs) (length (done ++ (old ++ room))) ≡ true
fits done bs old room e =
    le→leb _ _ (omega (arith, length-append done (old ++ room), length-append old room))

pub blit-Fills : (bs : Bytes) → Fills (blit bs) bs
unfolding blit set_bytes
blit-Fills bs c done old room e h = (
  record { buffer = (done ++ bs) ++ room; offset = length done + length bs },
  rw (h.array, h.place, fits done bs old room e, splice done bs old room e),
  record { array = refl; place = sym (length-append done bs) },
)

-- One write after the other.
pub Fills-then :
    (f g : Cursor → Result Cursor) (bs cs : Bytes)
    → Fills f bs
    → Fills g cs
    → Fills (λ c. f c >>= g) (bs ++ cs)
Fills-then f g bs cs hf hg c done old room e h =
    let n = length bs in
    let (c1, e1, h1) =
      hf c done (take n old) (drop n old ++ room)
        (omega (arith, length-take n old, length-append bs cs))
        (rw (← append_assoc, take-append-drop n old) h) in
    let (c2, e2, h2) =
      hg c1 (done ++ bs) (drop n old) room (omega (arith, length-drop n old, length-append bs cs))
        h1 in
    (c2, rw e1 e2, rw (← append_assoc) h2)

-- An array of the right size is filled completely.
pub Fills-fresh :
    (op : Cursor → Result Cursor) (bs : Bytes) (n : ℕ)
    → Fills op bs
    → n ≡ length bs
    → (op (fresh n) >>= λ c. ok c.buffer) ≡ ok bs
Fills-fresh op bs n h e =
    let (c, run, holds) =
      h (fresh n) [] (replicate n 0) [] (omega (arith, length-replicate {A = ℕ} n 0))
        (rw append-nil (fresh-Holds n)) in
    rw run (ap ok (holds.array ∙ append-nil bs))
