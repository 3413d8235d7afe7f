-- ===== src/Buffer/Text.antt =====
-- The platform's TextEncoder and TextDecoder, which src/core/buffer.ts calls: an interface.
use fitz_ts.Base.{ℕ, ◌*◌, ◌≤◌, ◌≡◌, List, length, All}
use fitz_ts.Bytes.{Bytes, IsByte}

-- A string is its UTF-16 code units.
abbrev pub Str : Type 0
Str = List ℕ

-- `encode_into s n` is what TextEncoder.encodeInto writes to an array of `n` bytes.
-- `IsText`: no lone surrogate, and no byte order mark in front, which the decoder drops.
pub record Utf8 : Type 1 where
  pub encode : Str → Bytes
  pub encode_into : Str → ℕ → Bytes
  pub decode : Bytes → Str
  pub IsText : Str → Type 0
  pub encode-IsByte : (s : Str) → All IsByte (encode s)
  pub length-encode-le : (s : Str) → length (encode s) ≤ 3 * length s
  pub length-le-encode : (s : Str) → length s ≤ length (encode s)
  pub encode_into-room : (s : Str) (n : ℕ) → length (encode s) ≤ n → encode_into s n ≡ encode s
  pub decode-encode : (s : Str) → IsText s → decode (encode s) ≡ s
