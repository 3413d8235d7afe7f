-- ===== src/Buffer/Writer/Strings.antt =====
-- Strings behind a length of four or eight bytes.
use fitz_ts.Base.{
  false, ℕ, suc, ◌+◌, ◌*◌, ◌≤◌, ◌≡◌, refl, sym, ◌∙◌, [], ◌∷◌, ◌++◌, length, take, drop, arith,
  append_assoc, length-append, length-take, length-drop, take-append-drop, ◌==◌,
}
use fitz_ts.Bytes.{Bytes, be}
use fitz_ts.Bytes.Laws.{length-be}
use fitz_ts.Buffer.Text.{Utf8, Str}
use fitz_ts.Buffer.Cursor.{Cursor, pokes, write_u32_be_at, write_u64_be_at}
use fitz_ts.Buffer.Cursor.Laws.{Holds, pokes-Holds, write_u32_be_at-pokes, write_u64_be_at-pokes}
use fitz_ts.Buffer.Writer.Laws.{Written, Appends, ensure_capacity-Written}
use fitz_ts.Buffer.Writer.Appends.{write_u32_be-Appends, write_u64_be-Appends}
use fitz_ts.Buffer.Writer.{fill_gap, ensure_capacity, write_string, write_string_u64}

nil_of_length : (bs : Bytes) → length bs ≤ 0 → bs ≡ []
nil_of_length [] h = refl
nil_of_length (b ∷ bs) h = absurd (omega arith)

nonzero : (n : ℕ) → (suc n == 0) ≡ false
nonzero n = ground arith

-- The bytes `bs` are written behind a gap, and then `head` over the gap.
gap-Holds :
    (w : Cursor) (done gap old room head bs : Bytes) (n : ℕ)
    → length gap ≡ n
    → length head ≡ n
    → length old ≡ length bs
    → Holds w done (gap ++ (old ++ room))
    → let w2 = pokes bs (record w { offset = w.offset + n }) in
      let w3 = pokes head (record w2 { offset = w.offset }) in
      Holds (record { buffer = w3.buffer; offset = w2.offset }) (done ++ (head ++ bs)) room
gap-Holds w done gap old room head bs n g e f h = record {
  array = back.array ∙ regroup;
  place = omega (
    arith,
    front.place,
    length-append (done ++ gap) bs,
    length-append done gap,
    length-append done (head ++ bs),
    length-append head bs,
  );
}
  where
    w1 : Cursor
    w1 = record w { offset = w.offset + n }

    front : Holds (pokes bs w1) ((done ++ gap) ++ bs) room
    front = pokes-Holds bs w1 (done ++ gap) old room f (record {
      array = h.array ∙ sym (append_assoc done gap (old ++ room));
      place = omega (arith, h.place, length-append done gap);
    })

    back :
        Holds
          (pokes head (record { buffer = (pokes bs w1).buffer; offset = w.offset }))
          (done ++ head)
          (bs ++ room)
    back = pokes-Holds head _ done gap (bs ++ room) (g ∙ sym e) (record {
      array = front.array ∙ append_assoc (done ++ gap) bs room ∙ append_assoc done gap (bs ++ room);
      place = h.place;
    })

    regroup : (done ++ head) ++ (bs ++ room) ≡ (done ++ (head ++ bs)) ++ room
    regroup = simp append_assoc

-- The same in a writer that has made room for more than is written.
gap-Written :
    (w : Cursor) (done room head bs : Bytes) (n : ℕ)
    → length head ≡ n
    → n + length bs ≤ length room
    → Holds w done room
    → let w2 = pokes bs (record w { offset = w.offset + n }) in
      let w3 = pokes head (record w2 { offset = w.offset }) in
      Written (record { buffer = w3.buffer; offset = w2.offset }) (done ++ (head ++ bs))
gap-Written w done room head bs n e enough h = (
  drop (length bs) (drop n room),
  gap-Holds w done (take n room) (take (length bs) (drop n room)) (drop (length bs) (drop n room))
      head bs n (omega (arith, length-take n room)) e
      (omega (arith, length-take (length bs) (drop n room), length-drop n room))
      (rw (take-append-drop (length bs) (drop n room), take-append-drop n room) h),
)

module _ ⦃u : Utf8⦄ where
  open u use {encode, length-encode-le, encode_into-room}

  -- A string on the wire: the length of its encoding in four bytes, and the encoding.
  abbrev pub string_bytes : Str → Bytes
  string_bytes s = be 4 (length (encode s)) ++ encode s

  encode-nil : encode [] ≡ []
  encode-nil = nil_of_length (encode []) (omega (arith, length-encode-le []))

  pub write_string-Appends : (s : Str) → Appends (write_string s) (string_bytes s)
  unfolding write_string
  write_string-Appends [] w done written = rw encode-nil (write_u32_be-Appends 0 w done written)
  write_string-Appends (c ∷ s) w done written =
      let n = length (c ∷ s) * 4 in
      let (room, h, enough) = ensure_capacity-Written (4 + n) w done written in
      let bound : length (encode (c ∷ s)) ≤ n = omega (arith, length-encode-le (c ∷ s)) in
      let size = length (encode (c ∷ s)) in
      (
        fill_gap 4 (write_u32_be_at size) (encode (c ∷ s)) (ensure_capacity (4 + n) w),
        rw (encode_into-room (c ∷ s) n bound, nonzero (length s)),
        rw write_u32_be_at-pokes (
            gap-Written (ensure_capacity (4 + n) w) done room (be 4 size) (encode (c ∷ s)) 4
              (length-be 4 size) (omega arith) h),
      )

  pub write_string_u64-Appends :
      (s : Str) → Appends (write_string_u64 s) (be 8 (length (encode s)) ++ encode s)
  unfolding write_string_u64
  write_string_u64-Appends [] w done written = rw encode-nil (write_u64_be-Appends 0 w done written)
  write_string_u64-Appends (c ∷ s) w done written =
      let n = length (c ∷ s) * 4 in
      let (room, h, enough) = ensure_capacity-Written (8 + n) w done written in
      let bound : length (encode (c ∷ s)) ≤ n = omega (arith, length-encode-le (c ∷ s)) in
      let size = length (encode (c ∷ s)) in
      (
        fill_gap 8 (write_u64_be_at size) (encode (c ∷ s)) (ensure_capacity (8 + n) w),
        rw (encode_into-room (c ∷ s) n bound, nonzero (length s)),
        rw write_u64_be_at-pokes (
            gap-Written (ensure_capacity (8 + n) w) done room (be 8 size) (encode (c ∷ s)) 8
              (length-be 8 size) (omega arith) h),
      )
