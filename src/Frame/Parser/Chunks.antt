-- ===== src/Frame/Parser/Chunks.antt =====
-- A message that comes in any chunks is parsed to its frame, once and at its end.
use fitz_ts.Base.{
  ℕ, ◌+◌, ◌<◌, ◌≤◌, ◌≡◌, refl, sym, ap, ◌∙◌, List, [], ◌∷◌, ◌++◌, length, ltb, ok, arith,
  append-nil, append_assoc, length-append, Bool-cases, inl, inr,
}
use mathlib.Core.List.{flatten}
use fitz_ts.Bytes.{Bytes, be, get_uint}
use fitz_ts.Bytes.Laws.{get_uint-append, get_uint_front}
use fitz_ts.Frame.Codec.{Frame, header_length, decode_frame, encode_frame}
use fitz_ts.Frame.Codec.Layout.{IsSendable, wire, length-wire, encode_frame-wire}
use fitz_ts.Frame.Codec.RoundTrip.{decode_frame-encode_frame}
use fitz_ts.Frame.Parser.{FrameParser, new_parser, take_frame, parse_buffer, parse_frames, feed}

-- A parser with the front `bs` of a message.
abbrev holding : ℕ → Bytes → FrameParser
holding limit bs = record { buffer = bs; max_message_bytes = limit }

-- The declared length stands in the first 15 bytes, so every front that has them shows it.
front_length :
    (f : Frame) (front back : Bytes)
    → IsSendable f
    → front ++ back ≡ wire f
    → header_length ≤ length front
    → get_uint 4 front 11 ≡ ok (length f.payload)
front_length f front back s e h =
    let n = length f.payload in
    let before = be 2 f.message_type ++ (be 1 f.flags ++ be 8 f.correlation) in
    sym (get_uint_front 4 front back 11 h)
    ∙ ap (λ bs. get_uint 4 bs 11) e
    ∙ get_uint-append 4 n before f.payload 11 refl (omega (arith, s.size))

decode_frame-wire :
    (f : Frame) (limit : ℕ)
    → IsSendable f
    → length f.payload + header_length ≤ limit
    → decode_frame (wire f) limit ≡ ok f
decode_frame-wire f limit s small =
    rw (encode_frame-wire f s) at (decode_frame-encode_frame f limit s small)

module _ (f : Frame) (limit : ℕ) (s : IsSendable f)
    (small : length f.payload + header_length ≤ limit) where
  -- Fewer bytes than the message's are kept, and nothing comes out.
  parse_buffer_short :
      (front : Bytes) (c : ℕ) (back : Bytes)
      → front ++ c ∷ back ≡ wire f
      → parse_buffer (holding limit front) ≡ (holding limit front, ok [])
  unfolding parse_buffer take_frame
  parse_buffer_short front c back e = elim (Bool-cases (ltb (length front) header_length)) [
    | inl short ↦ rw short
    | inr more ↦
        let size = ap length e ∙ length-wire f in
        rw (more, front_length f front (c ∷ back) s e (ground (arith, more)))
          (ground (arith, size, length-append front (c ∷ back)))
  ]

  -- All of the message: its frame comes out, and the buffer is empty again.
  parse_buffer_whole : parse_buffer (holding limit (wire f)) ≡ (holding limit [], ok (f ∷ []))
  unfolding parse_buffer take_frame
  parse_buffer_whole = ground (
    arith,
    length-wire f,
    front_length f (wire f) [] s (append-nil (wire f)) (omega (arith, length-wire f)),
    decode_frame-wire f limit s small,
  )

  parse_frames_buffer :
      (front d : Bytes)
      → length front + length d ≤ limit
      → parse_frames (holding limit front) d ≡ parse_buffer (holding limit (front ++ d))
  unfolding parse_frames
  parse_frames_buffer front [] h = rw append-nil
  parse_frames_buffer front (b ∷ bs) h = ground arith

  parse_buffer_empty : parse_buffer (holding limit []) ≡ (holding limit [], ok [])
  unfolding parse_buffer
  parse_buffer_empty = refl

  -- Empty chunks, after the message.
  feed_nothing :
      (chunks : List Bytes)
      → flatten chunks ≡ []
      → feed (holding limit []) chunks ≡ (holding limit [], ok [])
  unfolding feed flatten
  feed_nothing [] e = refl
  feed_nothing ([] ∷ cs) e =
      rw (parse_frames_buffer [] [] (omega arith), parse_buffer_empty, feed_nothing cs e)
  feed_nothing ((b ∷ bs) ∷ cs) e = cc

  feed_rest :
      (front : Bytes) (chunks : List Bytes)
      → length front < length (wire f)
      → front ++ flatten chunks ≡ wire f
      → feed (holding limit front) chunks ≡ (holding limit [], ok (f ∷ []))
  unfolding feed flatten
  feed_rest front [] h e = absurd (omega (arith, ap length (sym (append-nil front) ∙ e)))
  feed_rest front (d ∷ ds) h e = more (flatten ds) refl (feed_rest (front ++ d) ds)
    where
      room : length front + length d ≤ limit
      room = omega (
        arith,
        ap length e,
        length-append front (d ++ flatten ds),
        length-append d (flatten ds),
        length-wire f,
      )

      joined_up : (front ++ d) ++ flatten ds ≡ wire f
      joined_up = append_assoc front d (flatten ds) ∙ e

      more :
          (tail : Bytes)
          → flatten ds ≡ tail
          → (length (front ++ d) < length (wire f)
              → (front ++ d) ++ flatten ds ≡ wire f
              → feed (holding limit (front ++ d)) ds ≡ (holding limit [], ok (f ∷ [])))
          → feed (holding limit front) (d ∷ ds) ≡ (holding limit [], ok (f ∷ []))
      more [] k rec =
          let whole : front ++ d ≡ wire f = rw (k, append-nil) at joined_up in
          rw (parse_frames_buffer front d room, whole, parse_buffer_whole, feed_nothing ds k)
      more (c ∷ back) k rec =
          let short : (front ++ d) ++ c ∷ back ≡ wire f = rw k at joined_up in
          let fewer : length (front ++ d) < length (wire f) =
            omega (arith, ap length short, length-append (front ++ d) (c ∷ back)) in
          rw (
            parse_frames_buffer front d room,
            parse_buffer_short (front ++ d) c back short,
            rec fewer joined_up,
          )

-- A sendable message within the limit that arrives in chunks, cut at any places and with empty
-- ones among them, gives its
-- frame exactly once, with its last byte, and leaves the parser empty.
pub feed-encode_frame :
    (f : Frame) (limit : ℕ) (chunks : List Bytes)
    → IsSendable f
    → length f.payload + header_length ≤ limit
    → encode_frame f ≡ ok (flatten chunks)
    → feed (new_parser limit) chunks ≡ (new_parser limit, ok (f ∷ []))
unfolding new_parser
feed-encode_frame f limit chunks s small e =
    feed_rest f limit s small [] chunks (omega (arith, length-wire f))
      (ground (arith, encode_frame-wire f s))
