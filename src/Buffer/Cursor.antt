-- ===== src/Buffer/Cursor.antt =====
-- src/core/buffer.ts: a fixed array and the place in it that is written next. The encoders of the
-- domains hold these two as the locals `buffer` and `offset`.
pub mod Laws
use fitz_ts.Base.{
  ℕ, zero, suc, ◌+◌, ◌-◌, ◌*◌, ◌/◌, ◌%◌, ◌^◌, ◌<◌, ◌≡◌, List, [], ◌∷◌, ◌++◌, length, set, replicate,
  leb, if◌then◌else◌, Result, ok, err, ◌>>=◌, range_error,
}
use fitz_ts.Bytes.{Bytes, set_bytes}

pub record Cursor : Type 0 where
  pub buffer : Bytes
  pub offset : ℕ

-- `new Uint8Array(n)`, written from its start.
abbrev pub fresh : ℕ → Cursor
fresh n = record { buffer = replicate n 0; offset = 0 }

-- `buffer[offset++] = b`
abbrev pub poke : ℕ → Cursor → Cursor
poke b c = record { buffer = set c.buffer c.offset b; offset = c.offset + 1 }

-- Bytes that are written one after the other.
abbrev pub pokes : Bytes → Cursor → Cursor
pokes [] c = c
pokes (b ∷ bs) c = pokes bs (poke b c)

unfoldable pub write_u32_be_at : ℕ → Cursor → Cursor
write_u32_be_at v c =
    poke (v % 256) (poke (v / 2 ^ 8 % 256) (poke (v / 2 ^ 16 % 256) (poke (v / 2 ^ 24 % 256) c)))

unfoldable pub write_u64_be_at : ℕ → Cursor → Cursor
write_u64_be_at v c = poke (v % 256) (
    poke (v / 2 ^ 8 % 256) (
      poke (v / 2 ^ 16 % 256) (
        poke (v / 2 ^ 24 % 256) (
          poke (v / 2 ^ 32 % 256)
            (poke (v / 2 ^ 40 % 256) (poke (v / 2 ^ 48 % 256) (poke (v / 2 ^ 56 % 256) c)))))))

-- Number.MAX_SAFE_INTEGER
abbrev pub max_safe_integer : ℕ
max_safe_integer = 2 ^ 53 - 1

-- A number is split into two words of 32 bits.
unfoldable pub write_u64_be_number_at : ℕ → Cursor → Result Cursor
write_u64_be_number_at v c =
    let high = v / 2 ^ 32 in
    let low = v % 2 ^ 32 in
    if leb v max_safe_integer
    then ok (write_u32_be_at low (write_u32_be_at high c))
    else err (range_error "Invalid u64 number" (v ∷ []))

-- `buffer.set(bytes, offset); offset += bytes.length`
unfoldable pub blit : Bytes → Cursor → Result Cursor
blit bs c = do
  buffer ← set_bytes c.buffer c.offset bs
  ok (record { buffer = buffer; offset = c.offset + length bs })
