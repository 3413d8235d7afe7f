-- ===== src/Frame/Codec/RoundTrip.antt =====
-- Encoding and decoding of messages are inverse to one another.
use fitz_ts.Base.{
  ℕ, ◌+◌, ◌^◌, ◌<◌, ◌≤◌, ◌≡◌, refl, sym, ap, ◌∙◌, [], ◌++◌, length, drop, take, false, All, ok,
  ◌>>=◌, arith, >>=-ok, append_assoc, length-drop, take-append-drop, drop-drop,
}
use fitz_ts.Bytes.{Bytes, IsByte, be, get_uint}
use fitz_ts.Bytes.Laws.{get_uint-append, set_bytes-append, get_uint_bytes}
use fitz_ts.Frame.Codec.{
  Frame, header_length, default_max_message_bytes, has_reserved, encode_frame, decode_frame,
  with_correlation,
}
use fitz_ts.Frame.Codec.Layout.{IsSendable, wire, length-wire, encode_frame-wire}

-- What each field of a message in layout reads as.
record Fields (f : Frame) (bs : Bytes) : Type 0 where
  type_field : get_uint 2 bs 0 ≡ ok f.message_type
  flags_field : get_uint 1 bs 2 ≡ ok f.flags
  correlation_field : get_uint 8 bs 3 ≡ ok f.correlation
  length_field : get_uint 4 bs 11 ≡ ok (length f.payload)
  payload_field : drop header_length bs ≡ f.payload
  whole : length bs ≡ header_length + length f.payload

wire-Fields : (f : Frame) → IsSendable f → Fields f (wire f)
wire-Fields f s =
    let n = length f.payload in
    let m = be 2 f.message_type in
    let g = be 1 f.flags in
    let c = be 8 f.correlation in
    record {
      type_field =
          get_uint-append 2 f.message_type [] (g ++ (c ++ (be 4 n ++ f.payload))) 0 refl
            s.message_type_bound;
      flags_field = get_uint-append 1 f.flags m (c ++ (be 4 n ++ f.payload)) 2 refl s.flags_bound;
      correlation_field =
          get_uint-append 8 f.correlation (m ++ g) (be 4 n ++ f.payload) 3 refl s.correlation_bound;
      length_field = get_uint-append 4 n (m ++ (g ++ c)) f.payload 11 refl (omega (arith, s.size));
      payload_field = refl;
      whole = length-wire f;
    }

-- A message in layout is decoded if it is not longer than the limit.
Fields-decode :
    (f : Frame) (bs : Bytes) (max_bytes : ℕ)
    → Fields f bs
    → has_reserved f.flags ≡ false
    → length f.payload + header_length ≤ max_bytes
    → decode_frame bs max_bytes ≡ ok f
unfolding decode_frame
Fields-decode f bs max_bytes d known small = ground (
  arith, d.type_field, d.flags_field, d.correlation_field, d.length_field, d.payload_field, d.whole,
  small,
)

-- A sendable frame is encoded, and decoded again with all its fields under every limit that its
-- message keeps within.
pub decode_frame-encode_frame :
    (f : Frame) (max_bytes : ℕ)
    → IsSendable f
    → length f.payload + header_length ≤ max_bytes
    → (encode_frame f >>= λ bs. decode_frame bs max_bytes) ≡ ok f
decode_frame-encode_frame f max_bytes s small =
    >>=-ok (encode_frame f) _ (wire f) (encode_frame-wire f s)
      (Fields-decode f (wire f) max_bytes (wire-Fields f s) s.flags_known small)

decode-Fields :
    (f : Frame) (bs : Bytes) (max_bytes : ℕ)
    → decode_frame bs max_bytes ≡ ok f
    → Fields f bs × (has_reserved f.flags ≡ false) × (length f.payload + header_length ≤ max_bytes)
unfolding decode_frame
decode-Fields f bs max_bytes e = ground (arith, length-drop header_length bs)

cut : (bs : Bytes) (m n k : ℕ) → m + n ≡ k → take n (drop m bs) ++ drop k bs ≡ drop m bs
cut bs m n k e =
    ap (λ t. take n (drop m bs) ++ t) (sym (drop-drop m n k bs e)) ∙ take-append-drop n (drop m bs)

Fields-wire : (f : Frame) (bs : Bytes) → All IsByte bs → Fields f bs → wire f ≡ bs
Fields-wire f bs h d =
    let (_, m, _) = get_uint_bytes 2 bs 0 f.message_type h d.type_field in
    let (_, g, _) = get_uint_bytes 1 bs 2 f.flags h d.flags_field in
    let (_, c, _) = get_uint_bytes 8 bs 3 f.correlation h d.correlation_field in
    let (_, n, _) = get_uint_bytes 4 bs 11 (length f.payload) h d.length_field in
    join bs (be 2 f.message_type) (be 1 f.flags) (be 8 f.correlation) (be 4 (length f.payload))
      f.payload m g c n d.payload_field
  where
    join :
        (bs m g c n p : Bytes)
        → take 2 (drop 0 bs) ≡ m
        → take 1 (drop 2 bs) ≡ g
        → take 8 (drop 3 bs) ≡ c
        → take 4 (drop 11 bs) ≡ n
        → drop 15 bs ≡ p
        → (m ++ (g ++ (c ++ n))) ++ p ≡ bs
    join bs m g c n p em eg ec en ep = rw (
      append_assoc m (g ++ (c ++ n)) p,
      append_assoc g (c ++ n) p,
      append_assoc c n p,
      ← ep,
      ← en,
      cut bs 11 4 15 refl,
      ← ec,
      cut bs 3 8 11 refl,
      ← eg,
      cut bs 2 1 3 refl,
      ← em,
      cut bs 0 2 2 refl,
    )

-- Whatever array of bytes is decoded, under a limit of at most 1 MiB, is the encoding of what it
-- is decoded to: the wire format has one
-- message for each frame.
pub encode_frame-decode_frame :
    (bs : Bytes) (f : Frame) (max_bytes : ℕ)
    → All IsByte bs
    → max_bytes ≤ default_max_message_bytes
    → decode_frame bs max_bytes ≡ ok f
    → encode_frame f ≡ ok bs
encode_frame-decode_frame bs f max_bytes h limit e =
    let (d, known, small) = decode-Fields f bs max_bytes e in
    let (_, _, m) = get_uint_bytes 2 bs 0 f.message_type h d.type_field in
    let (_, _, g) = get_uint_bytes 1 bs 2 f.flags h d.flags_field in
    let (_, _, c) = get_uint_bytes 8 bs 3 f.correlation h d.correlation_field in
    let s : IsSendable f = record {
      message_type_bound = m;
      flags_bound = g;
      flags_known = known;
      correlation_bound = c;
      size = omega arith;
    } in
    encode_frame-wire f s ∙ ap ok (Fields-wire f bs h d)

-- Labelling an encoded sendable frame with a positive correlation of 64 bits changes that field
-- and no other.
pub with_correlation-encode_frame :
    (f : Frame) (correlation : ℕ)
    → IsSendable f
    → 0 < correlation
    → correlation < 2 ^ 64
    → (encode_frame f >>= λ bs. with_correlation bs correlation)
      ≡ encode_frame (record f { correlation = correlation })
unfolding with_correlation
with_correlation-encode_frame f correlation s pos small =
    let labelled : Frame = record f { correlation = correlation } in
    let ready : IsSendable labelled = record {
      message_type_bound = s.message_type_bound;
      flags_bound = s.flags_bound;
      flags_known = s.flags_known;
      correlation_bound = small;
      size = s.size;
    } in
    let front = be 2 f.message_type ++ be 1 f.flags in
    let back = be 4 (length f.payload) ++ f.payload in
    ground (
      arith,
      encode_frame-wire f s,
      encode_frame-wire labelled ready,
      length-wire f,
      set_bytes-append front (be 8 f.correlation) back (be 8 correlation) 3 refl refl,
    )
