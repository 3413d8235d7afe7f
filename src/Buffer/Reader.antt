-- ===== src/Buffer/Reader.antt =====
-- src/core/buffer.ts, createBufferReader: a place in an array, and reads that check its end.
pub mod Ensures
pub mod Laws
pub mod Values
use fitz_ts.Base.{
  String, ℕ, zero, suc, ◌+◌, ◌-◌, ◌*◌, ◌^◌, List, [], ◌∷◌, length, take, drop, get_elem?, Option,
  some, none, Bool, true, false, not, leb, ltb, ◌==◌, if◌then◌else◌, Result, ok, err, Error,
  codec_error,
}
use fitz_ts.Bytes.{Bytes, of_be_from, get_uint}
use fitz_ts.Buffer.Text.{Utf8, Str}

pub record Reader : Type 0 where
  pub buffer : Bytes
  pub offset : ℕ

abbrev pub new_reader : Bytes → Reader
new_reader bs = record { buffer = bs; offset = 0 }

-- A method of a reader: it moves the place on, or throws.
abbrev pub Read : Type 0 → Type 0
Read A = Reader → Result (A × Reader)

infixl 5 ◌>>=◌ ◌>>◌
abbrev pub ◌>>=◌ : {A B : Type 0} → Read A → (A → Read B) → Read B
◌>>=◌ m f r = elim (m r) [ ok (a, r') ↦ f a r' | err e ↦ err e ]

abbrev pub ◌>>◌ : {B : Type 0} → Read (Unit {0}) → Read B → Read B
m >> k = m >>= λ _. k

abbrev pub pure : {A : Type 0} → A → Read A
pure a r = ok (a, r)

abbrev pub throw : {A : Type 0} → Error → Read A
throw e r = err e

abbrev pub lift : {A : Type 0} → Result A → Read A
lift (ok a) r = ok (a, r)
lift (err e) r = err e

-- `if (test) throw e`
abbrev pub throw_if : Bool → Error → Read (Unit {0})
throw_if true e r = err e
throw_if false e r = ok (tt, r)

-- What lies behind the place.
abbrev pub rest : Reader → Bytes
rest r = drop r.offset r.buffer

abbrev pub advance : Reader → ℕ → Reader
advance r n = record r { offset = r.offset + n }

abbrev overflow : {A : Type 0} → String → Reader → ℕ → Result A
overflow what r needed = err (codec_error what (r.offset ∷ needed ∷ []))

abbrev pub byte_at : Option ℕ → String → Reader → Reader → Result (ℕ × Reader)
byte_at (some b) what r r' = ok (b, r')
byte_at none what r r' = overflow what r 1

-- A test `offset >= length` before an access is the access's own bound.
unfoldable pub read_u8 : Read ℕ
read_u8 r = byte_at (get_elem? r.buffer r.offset) "Buffer overflow: cannot read U8" r (advance r 1)

unfoldable pub peek_u8 : Read ℕ
peek_u8 r = byte_at (get_elem? r.buffer r.offset) "Buffer overflow: cannot peek U8" r r

-- `count` bytes from the place on, or an error with the given text.
unfoldable pub read_slice : String → ℕ → Read Bytes
read_slice what count r =
    if ltb (length r.buffer) (r.offset + count)
    then overflow what r count
    else ok (take count (rest r), advance r count)

abbrev pub read_bytes : ℕ → Read Bytes
read_bytes = read_slice "Buffer overflow: cannot read bytes"

-- A number of `n` bytes, the most significant one first.
unfoldable pub read_uint : String → ℕ → Read ℕ
read_uint what n r =
    if ltb (length r.buffer) (r.offset + n)
    then overflow what r n
    else ok (of_be_from 0 (take n (rest r)), advance r n)

abbrev pub read_u16_be : Read ℕ
read_u16_be = read_uint "Buffer overflow: cannot read U16BE" 2

abbrev pub read_u32_be : Read ℕ
read_u32_be = read_uint "Buffer overflow: cannot read U32BE" 4

abbrev pub read_u64_be : Read ℕ
read_u64_be = read_uint "Buffer overflow: cannot read U64BE" 8

unfoldable pub remaining_bytes : Reader → ℕ
remaining_bytes r = length r.buffer - r.offset

unfoldable pub is_eof : Reader → Bool
is_eof r = leb (length r.buffer) r.offset

unfoldable pub set_offset : ℕ → Read (Unit {0})
set_offset value r =
    if ltb (length r.buffer) value
    then err (codec_error "Invalid offset" (value ∷ length r.buffer ∷ []))
    else ok (tt, record r { offset = value })

-- `remaining()`
unfoldable pub remaining : Reader → Bytes
remaining r = rest r

module _ ⦃u : Utf8⦄ where
  open u use {decode}

  unfoldable pub read_string : Read Str
  read_string = do
    count ← read_u32_be
    if count == 0
        then pure []
        else do bytes ← read_slice "Buffer overflow: cannot read string" count; pure (decode bytes)

  unfoldable pub read_optional_string : Read (Option Str)
  read_optional_string = do
    has_value ← read_u8
    if has_value == 0 then pure none else do s ← read_string; pure (some s)

unfoldable pub read_optional_u64 : Read (Option ℕ)
read_optional_u64 = do
  has_value ← read_u8
  if has_value == 0 then pure none else do v ← read_u64_be; pure (some v)

unfoldable pub read_optional_bytes : Read (Option Bytes)
read_optional_bytes = do
  has_value ← read_u8
  if has_value == 0
      then pure none
      else do count ← read_u32_be; bytes ← read_bytes count; pure (some bytes)

-- `if (!reader.isEOF()) throw e`
abbrev pub throw_unless_eof : Error → Read (Unit {0})
throw_unless_eof e r = throw_if (not (is_eof r)) e r

-- A method that is run on a new reader over `bs`, for its result alone.
abbrev pub run_reader : {A : Type 0} → Read A → Bytes → Result A
run_reader m bs = elim (m (new_reader bs)) [ ok (a, r) ↦ ok a | err e ↦ err e ]
