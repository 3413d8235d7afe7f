-- ===== src/Buffer/Writer/Laws.antt =====
-- A writer is a list of bytes that grows at its end: every write appends.
use fitz_ts.Base.{
  ℕ, ◌+◌, ◌-◌, ◌*◌, ◌≤◌, ◌≡◌, refl, ap, ◌∙◌, max, [], ◌++◌, length, replicate, take, drop, Result,
  ok, ◌>>=◌, arith, append_assoc, length-append, length-replicate, length-take, take-append-drop,
  take-append, Bool-cases, inl, inr, ltb,
}
use fitz_ts.Bytes.{Bytes}
use fitz_ts.Buffer.Cursor.{Cursor}
use fitz_ts.Buffer.Cursor.Laws.{Holds, Fills, fresh-Holds}
use fitz_ts.Buffer.Writer.{new_writer, ensure_capacity, get_buffer}

-- The bytes written so far, with any room behind them.
abbrev pub Written : Cursor → Bytes → Type 0
Written w done = (room : Bytes) × Holds w done room

-- Appends `bs`, and never throws.
abbrev pub Appends : (Cursor → Result Cursor) → Bytes → Type 0
Appends op bs =
    (w : Cursor) (done : Bytes)
    → Written w done
    → (w' : Cursor) × (op w ≡ ok w') × Written w' (done ++ bs)

-- What the writer gives out is what was written.
pub get_buffer-Written : (w : Cursor) (done : Bytes) → Written w done → get_buffer w ≡ done
unfolding get_buffer
get_buffer-Written w done (room, h) =
    rw (h.array, h.place) (take-append (length done) done room refl)

pub new_writer-Written : (n : ℕ) → Written (new_writer n) []
new_writer-Written n = (replicate n 0, fresh-Holds n)

pub ensure_capacity-Written :
    (n : ℕ) (w : Cursor) (done : Bytes)
    → Written w done
    → (room : Bytes) × Holds (ensure_capacity n w) done room × (n ≤ length room)
unfolding ensure_capacity
ensure_capacity-Written n w done (room, h) =
    let size : length w.buffer ≡ length done + length room =
      omega (arith, ap length h.array, length-append done room) in
    elim (Bool-cases (ltb (length w.buffer) (w.offset + n))) [
      | inl short ↦
          let more = max (length w.buffer * 2) (w.offset + n) - length w.buffer in
          (
            room ++ replicate more 0,
            rw short (record {
              array =
                  ap (λ bs. bs ++ replicate more 0) h.array
                  ∙ append_assoc done room (replicate more 0);
              place = h.place;
            }),
            omega (
              arith,
              length-append room (replicate more 0),
              length-replicate {A = ℕ} more 0,
              h.place,
            ),
          )
      | inr fits ↦ (room, rw fits h, ground (arith, h.place))
    ]

-- A write of `bs` into enough room appends.
pub Fills-Appends :
    (op : Cursor → Result Cursor) (bs : Bytes) (n : ℕ)
    → Fills op bs
    → length bs ≡ n
    → Appends (λ w. op (ensure_capacity n w)) bs
Fills-Appends op bs n f e w done written =
    let (room, h, enough) = ensure_capacity-Written n w done written in
    let (w', run, holds) =
      f (ensure_capacity n w) done (take n room) (drop n room) (omega (arith, length-take n room))
        (rw (take-append-drop n room) h) in
    (w', run, (drop n room, holds))

pub Appends-then :
    (f g : Cursor → Result Cursor) (bs cs : Bytes)
    → Appends f bs
    → Appends g cs
    → Appends (λ w. f w >>= g) (bs ++ cs)
Appends-then f g bs cs hf hg w done written =
    let (w1, e1, h1) = hf w done written in
    let (w2, e2, h2) = hg w1 (done ++ bs) h1 in (w2, rw e1 e2, rw (← append_assoc) h2)

-- A whole encoding: a new writer, the writes, and its buffer.
pub Appends-new :
    (op : Cursor → Result Cursor) (bs : Bytes) (n : ℕ)
    → Appends op bs
    → (op (new_writer n) >>= λ w. ok (get_buffer w)) ≡ ok bs
Appends-new op bs n h =
    let (w, run, written) = h (new_writer n) [] (new_writer-Written n) in
    rw run (ap ok (get_buffer-Written w bs written))

-- Writes, and then the bytes that were written.
abbrev pub Emits : (Cursor → Result Bytes) → Bytes → Type 0
Emits k bs = (w : Cursor) (done : Bytes) → Written w done → k w ≡ ok (done ++ bs)

pub Emits-last :
    (op : Cursor → Result Cursor) (bs : Bytes)
    → Appends op bs
    → Emits (λ w. op w >>= λ w'. ok (get_buffer w')) bs
Emits-last op bs h w done written =
    let (w', run, after) = h w done written in
    rw run (ap ok (get_buffer-Written w' (done ++ bs) after))

pub Emits-then :
    (op : Cursor → Result Cursor) (k : Cursor → Result Bytes) (bs cs : Bytes)
    → Appends op bs
    → Emits k cs
    → Emits (λ w. op w >>= k) (bs ++ cs)
Emits-then op k bs cs h g w done written =
    let (w', run, after) = h w done written in
    rw run (g w' (done ++ bs) after ∙ ap ok (append_assoc done bs cs))

pub Emits-new :
    (n : ℕ) (k : Cursor → Result Bytes) (bs : Bytes) → Emits k bs → k (new_writer n) ≡ ok bs
Emits-new n k bs h = h (new_writer n) [] (new_writer-Written n)
