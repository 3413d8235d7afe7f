-- ===== src/Buffer/Writer.antt =====
-- src/core/buffer.ts, createBufferWriter: an array that grows when a write does not fit.
pub mod Laws
pub mod Appends
pub mod Strings
use fitz_ts.Base.{
  ℕ, zero, suc, ◌+◌, ◌-◌, ◌*◌, ◌/◌, ◌%◌, ◌^◌, max, List, [], ◌∷◌, ◌++◌, length, replicate, take,
  Option, some, none, leb, ltb, ◌==◌, if◌then◌else◌, Result, ok, err, ◌>>=◌, codec_error,
}
use fitz_ts.Bytes.{Bytes}
use fitz_ts.Buffer.Text.{Utf8, Str}
use fitz_ts.Buffer.Cursor.{
  Cursor, fresh, poke, pokes, write_u32_be_at, write_u64_be_at, write_u64_be_number_at, blit,
}

-- `createBufferWriter(capacity)`
abbrev pub new_writer : ℕ → Cursor
new_writer = fresh

unfoldable pub ensure_capacity : ℕ → Cursor → Cursor
ensure_capacity needed w =
    let capacity = max (length w.buffer * 2) (w.offset + needed) in
    if ltb (length w.buffer) (w.offset + needed)
    then record w { buffer = w.buffer ++ replicate (capacity - length w.buffer) 0 }
    else w

unfoldable pub write_u8 : ℕ → Cursor → Result Cursor
write_u8 v w = ok (poke (v % 256) (ensure_capacity 1 w))

unfoldable pub write_u16_be : ℕ → Cursor → Result Cursor
write_u16_be v w = ok (poke (v % 256) (poke (v / 2 ^ 8 % 256) (ensure_capacity 2 w)))

unfoldable pub write_u32_be : ℕ → Cursor → Result Cursor
write_u32_be v w = ok (write_u32_be_at v (ensure_capacity 4 w))

unfoldable pub write_u32_le : ℕ → Cursor → Result Cursor
write_u32_le v w = ok (
    poke (v / 2 ^ 24 % 256)
      (poke (v / 2 ^ 16 % 256) (poke (v / 2 ^ 8 % 256) (poke (v % 256) (ensure_capacity 4 w)))))

unfoldable pub write_u64_be : ℕ → Cursor → Result Cursor
write_u64_be v w = ok (write_u64_be_at v (ensure_capacity 8 w))

unfoldable pub write_u64_be_number : ℕ → Cursor → Result Cursor
write_u64_be_number v w = write_u64_be_number_at v (ensure_capacity 8 w)

unfoldable pub write_u64_le : ℕ → Cursor → Result Cursor
write_u64_le v w = ok (
    poke (v / 2 ^ 56 % 256) (
      poke (v / 2 ^ 48 % 256) (
        poke (v / 2 ^ 40 % 256) (
          poke (v / 2 ^ 32 % 256) (
            poke (v / 2 ^ 24 % 256) (
              poke (v / 2 ^ 16 % 256)
                (poke (v / 2 ^ 8 % 256) (poke (v % 256) (ensure_capacity 8 w)))))))))

unfoldable pub write_bytes : Bytes → Cursor → Result Cursor
write_bytes bs w = blit bs (ensure_capacity (length bs) w)

-- The four bytes at `position` are written again; the place of the next write stays.
unfoldable pub overwrite_u32_be : ℕ → ℕ → Cursor → Result Cursor
overwrite_u32_be position v w =
    if ltb (length w.buffer) (position + 4)
    then err (codec_error "Buffer overwrite out of bounds" (position ∷ 4 ∷ []))
    else ok (record w { buffer = (write_u32_be_at v (record w { offset = position })).buffer })

unfoldable pub get_buffer : Cursor → Bytes
get_buffer w = take w.offset w.buffer

unfoldable pub get_length : Cursor → ℕ
get_length w = w.offset

unfoldable pub reset : Cursor → Cursor
reset w = record w { offset = 0 }

-- Bytes behind a gap of `n` bytes, and then their length into the gap.
abbrev pub fill_gap : ℕ → (Cursor → Cursor) → Bytes → Cursor → Cursor
fill_gap n write_length written w =
    let w2 = pokes written (record w { offset = w.offset + n }) in
    let w3 = write_length (record w2 { offset = w.offset }) in
    record { buffer = w3.buffer; offset = w2.offset }

module _ ⦃u : Utf8⦄ where
  open u use {encode_into}

  unfoldable pub write_string : Str → Cursor → Result Cursor
  write_string s w =
      let max_bytes = length s * 4 in
      let written = encode_into s max_bytes in
      if length s == 0
      then write_u32_be 0 w
      else ok (
          fill_gap 4 (write_u32_be_at (length written)) written (ensure_capacity (4 + max_bytes) w))

  unfoldable pub write_string_u64 : Str → Cursor → Result Cursor
  write_string_u64 s w =
      let max_bytes = length s * 4 in
      let written = encode_into s max_bytes in
      if length s == 0
      then write_u64_be 0 w
      else ok (
          fill_gap 8 (write_u64_be_at (length written)) written (ensure_capacity (8 + max_bytes) w))

  unfoldable pub write_optional_string : Option Str → Cursor → Result Cursor
  write_optional_string none w = write_u8 0 w
  write_optional_string (some s) w = write_u8 1 w >>= write_string s

unfoldable pub write_optional_u64 : Option ℕ → Cursor → Result Cursor
write_optional_u64 none w = write_u8 0 w
write_optional_u64 (some v) w = write_u8 1 w >>= write_u64_be v

unfoldable pub write_optional_bytes : Option Bytes → Cursor → Result Cursor
write_optional_bytes none w = write_u8 0 w
write_optional_bytes (some bs) w = write_u8 1 w >>= write_u32_be (length bs) >>= write_bytes bs
