-- ===== src/Frame/Codec.antt =====
-- src/frame/codec.ts: a message is a header of 15 bytes and its payload. Numbers that the source
-- checks by Number.isInteger and `>= 0` are natural numbers here.
pub mod Layout
pub mod RoundTrip
use Prim.Native.Nat.{bit_and}
use fitz_ts.Base.{
  ℕ, zero, suc, ◌+◌, ◌-◌, ◌*◌, ◌^◌, List, [], ◌∷◌, length, drop, replicate, Bool, ltb, leb, ◌==◌,
  not, ◌||◌, if◌then◌else◌, Result, ok, err, ◌>>=◌, ◌>>◌, throw_if, codec_error,
}
use fitz_ts.Bytes.{Bytes, be, get_uint, set_bytes}

abbrev pub header_length : ℕ
header_length = 15

abbrev pub default_max_message_bytes : ℕ
default_max_message_bytes = 1024 * 1024

abbrev pub reserved_flags : ℕ
reserved_flags = 0xf8

abbrev pub max_u64 : ℕ
max_u64 = 2 ^ 64 - 1

pub record Frame : Type 0 where
  pub message_type : ℕ
  pub flags : ℕ
  pub correlation : ℕ
  pub payload : Bytes

abbrev pub has_reserved : ℕ → Bool
has_reserved flags = not (bit_and flags reserved_flags == 0)

-- A new array of the message's size, and the writes to it.
unfoldable pub frame_bytes : Frame → Result Bytes
frame_bytes f = do
  frame ← set_bytes (replicate (header_length + length f.payload) 0) 0 (be 2 f.message_type)
  frame ← set_bytes frame 2 (be 1 f.flags)
  frame ← set_bytes frame 3 (be 8 f.correlation)
  frame ← set_bytes frame 11 (be 4 (length f.payload))
  set_bytes frame header_length f.payload

unfoldable pub encode_frame : Frame → Result Bytes
encode_frame f = do
  throw_if (ltb 0xffff f.message_type) (codec_error "Invalid message type" (f.message_type ∷ []))
  throw_if (ltb 0xff f.flags || has_reserved f.flags)
      (codec_error "Invalid message flags" (f.flags ∷ []))
  throw_if (ltb max_u64 f.correlation) (codec_error "Invalid correlation id" (f.correlation ∷ []))
  throw_if (ltb default_max_message_bytes (length f.payload + header_length))
      (codec_error "Message exceeds bytes" (default_max_message_bytes ∷ []))
  frame_bytes f

unfoldable pub decode_frame : Bytes → ℕ → Result Frame
decode_frame frame max_message_bytes = do
  throw_if (ltb (length frame) header_length)
      (codec_error "Message header is truncated" (length frame ∷ []))
  message_type ← get_uint 2 frame 0
  flags ← get_uint 1 frame 2
  throw_if (has_reserved flags) (codec_error "Reserved message flags are set" (flags ∷ []))
  correlation ← get_uint 8 frame 3
  payload_length ← get_uint 4 frame 11
  throw_if (ltb max_message_bytes (payload_length + header_length))
      (codec_error "Message exceeds negotiated limit" (max_message_bytes ∷ []))
  throw_if (not (length frame - header_length == payload_length))
      (codec_error "Message length mismatch" (payload_length ∷ (length frame - header_length) ∷ []))
  ok (record {
    message_type = message_type;
    flags = flags;
    correlation = correlation;
    payload = drop header_length frame;
  })

unfoldable pub with_correlation : Bytes → ℕ → Result Bytes
with_correlation frame correlation = do
  throw_if (correlation == 0 || ltb max_u64 correlation)
      (codec_error "Invalid request correlation" (correlation ∷ []))
  throw_if (ltb (length frame) header_length) (codec_error "Cannot label a truncated message" [])
  set_bytes frame 3 (be 8 correlation)
