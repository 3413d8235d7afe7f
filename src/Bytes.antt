-- ===== src/Bytes.antt =====
-- A Uint8Array is a list of bytes, and a DataView reads and writes it most significant byte first.
pub mod Laws
use fitz_ts.Base.{
  ℕ, zero, suc, ◌+◌, ◌*◌, ◌/◌, ◌%◌, ◌^◌, ◌<◌, List, [], ◌∷◌, ◌++◌, Option, some, none, leb,
  if◌then◌else◌, length, take, drop, Result, ok, err, range_error,
}

abbrev pub Bytes : Type 0
Bytes = List ℕ

abbrev pub IsByte : ℕ → Type 0
IsByte b = b < 256

-- The `n` low bytes of `v`, the most significant one first.
abbrev pub be : ℕ → ℕ → Bytes
be zero v = []
be (suc n) v = (v / 256 ^ n % 256) ∷ be n v

abbrev pub of_be_from : ℕ → Bytes → ℕ
of_be_from acc [] = acc
of_be_from acc (b ∷ bs) = of_be_from (acc * 256 + b) bs

-- DataView.getUintN(offset, false), for a number of `n` bytes.
unfoldable pub get_uint : ℕ → Bytes → ℕ → Result ℕ
get_uint n buf off =
    if leb (off + n) (length buf)
    then ok (of_be_from 0 (take n (drop off buf)))
    else err (range_error "Offset is outside the bounds of the DataView" [])

-- TypedArray.set and DataView.setUintN(offset, v, false): the bytes from `off` on are replaced.
unfoldable pub set_bytes : Bytes → ℕ → Bytes → Result Bytes
set_bytes buf off bs =
    if leb (off + length bs) (length buf)
    then ok (take off buf ++ bs ++ drop (off + length bs) buf)
    else err (range_error "offset is out of bounds" [])
