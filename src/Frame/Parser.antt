-- ===== src/Frame/Parser.antt =====
-- src/frame/codec.ts, createFrameParser: the bytes of a message that have come so far.
pub mod Chunks
use fitz_ts.Base.{
  ℕ, zero, suc, ◌+◌, ◌-◌, ◌*◌, ◌^◌, List, [], ◌∷◌, ◌++◌, length, Bool, true, false, Option, some,
  none, leb, ltb, ◌==◌, if◌then◌else◌, Result, ok, err, ◌>>=◌, codec_error, Error,
}
use fitz_ts.Bytes.{Bytes, get_uint}
use fitz_ts.Frame.Codec.{Frame, header_length, default_max_message_bytes, decode_frame}

pub record FrameParser : Type 0 where
  pub buffer : Bytes
  pub max_message_bytes : ℕ

unfoldable pub new_parser : ℕ → FrameParser
new_parser limit = record { buffer = []; max_message_bytes = limit }

abbrev pub too_long : FrameParser → Error
too_long p = codec_error "Message exceeds negotiated limit" (p.max_message_bytes ∷ [])

-- `[decodeFrame(complete, maxMessageBytes)]`
abbrev pub one_frame : Result Frame → Result (List Frame)
one_frame r = r >>= λ f. ok (f ∷ [])

-- What follows the test of the header, on the payload length that it declares.
unfoldable pub take_frame : FrameParser → Result ℕ → FrameParser × Result (List Frame)
take_frame p (err e) = (p, err e)
take_frame p (ok payload_length) =
    let frame_length = header_length + payload_length in
    if ltb p.max_message_bytes frame_length
    then (p, err (too_long p))
    else if ltb (length p.buffer) frame_length
    then (p, ok [])
    else if ltb frame_length (length p.buffer)
    then (p, err (codec_error "Transport frame contains more than one message" []))
    else (record p { buffer = [] }, one_frame (decode_frame p.buffer p.max_message_bytes))

unfoldable pub parse_buffer : FrameParser → FrameParser × Result (List Frame)
parse_buffer p =
    if ltb (length p.buffer) header_length
    then (p, ok [])
    else take_frame p (get_uint 4 p.buffer 11)

-- A throw keeps what the parser has changed before it.
unfoldable pub parse_frames : FrameParser → Bytes → FrameParser × Result (List Frame)
parse_frames p [] = parse_buffer p
parse_frames p (b ∷ bs) =
    if ltb p.max_message_bytes (length p.buffer + length (b ∷ bs))
    then (p, err (too_long p))
    else parse_buffer (record p { buffer = p.buffer ++ b ∷ bs })

unfoldable pub reset : FrameParser → FrameParser
reset p = record p { buffer = [] }

unfoldable pub set_max_message_bytes : ℕ → FrameParser → Result FrameParser
set_max_message_bytes value p =
    if ltb value header_length
    then err (codec_error "Invalid max_message_bytes value" (value ∷ []))
    else ok (record p { max_message_bytes = value })

abbrev pub joined :
    Result (List Frame) → FrameParser × Result (List Frame) → FrameParser × Result (List Frame)
joined (err e) (p, r) = (p, err e)
joined (ok fs) (p, r) = (p, r >>= λ gs. ok (fs ++ gs))

-- The chunks of a connection, fed one after the other: the frames that come out, in order.
unfoldable pub feed : FrameParser → List Bytes → FrameParser × Result (List Frame)
feed p [] = (p, ok [])
feed p (c ∷ cs) = joined (parse_frames p c).1 (feed (parse_frames p c).0 cs)
