-- ===== src/Buffer/Writer/Appends.antt =====
-- What each write of a buffer writer appends.
use mathlib.Core.Path.{subst}
use native.Mathlib.Nat.{div-one, div-div-eq-div-mul}
use fitz_ts.Base.{ℕ, zero, suc, ◌/◌, ◌%◌, ◌^◌, ◌≤◌, ◌≡◌, refl, ◌∙◌, [], ◌∷◌, length, some, ok}
use fitz_ts.Bytes.{Bytes, be}
use fitz_ts.Bytes.Laws.{length-be}
use fitz_ts.Buffer.Cursor.{
  pokes, max_safe_integer, write_u64_be_number_at, write_u32_be_at, write_u64_be_at, blit,
}
use fitz_ts.Buffer.Cursor.Laws.{
  Fills, pokes-Fills, blit-Fills, write_u32_be_at-pokes, write_u64_be_at-pokes,
  write_u64_be_number_at-pokes,
}
use fitz_ts.Buffer.Writer.Laws.{Appends, Appends-then, Fills-Appends}
use fitz_ts.Buffer.Writer.{
  write_u8, write_u16_be, write_u32_be, write_u32_le, write_u64_be, write_u64_be_number,
  write_u64_le, write_bytes, write_optional_u64,
}

-- Least significant byte first.
abbrev pub le : ℕ → ℕ → Bytes
le zero v = []
le (suc n) v = (v % 256) ∷ le n (v / 256)

pub write_u8-Appends : (v : ℕ) → Appends (write_u8 v) ((v % 256) ∷ [])
unfolding write_u8
write_u8-Appends v = Fills-Appends _ _ 1 (pokes-Fills ((v % 256) ∷ [])) refl

pub write_u16_be-Appends : (v : ℕ) → Appends (write_u16_be v) (be 2 v)
unfolding write_u16_be
write_u16_be-Appends v =
    rw (div-one v) (Fills-Appends _ _ 2 (pokes-Fills ((v / 2 ^ 8 % 256) ∷ (v % 256) ∷ [])) refl)

pub write_u32_be_at-Fills : (v : ℕ) → Fills (λ c. ok (write_u32_be_at v c)) (be 4 v)
write_u32_be_at-Fills v = simp write_u32_be_at-pokes (pokes-Fills (be 4 v))

pub write_u64_be_at-Fills : (v : ℕ) → Fills (λ c. ok (write_u64_be_at v c)) (be 8 v)
write_u64_be_at-Fills v = simp write_u64_be_at-pokes (pokes-Fills (be 8 v))

pub write_u32_be-Appends : (v : ℕ) → Appends (write_u32_be v) (be 4 v)
unfolding write_u32_be
write_u32_be-Appends v = Fills-Appends _ _ 4 (write_u32_be_at-Fills v) (length-be 4 v)

pub write_u64_be-Appends : (v : ℕ) → Appends (write_u64_be v) (be 8 v)
unfolding write_u64_be
write_u64_be-Appends v = Fills-Appends _ _ 8 (write_u64_be_at-Fills v) (length-be 8 v)

pub write_u64_be_number-Appends :
    (v : ℕ) → v ≤ max_safe_integer → Appends (write_u64_be_number v) (be 8 v)
unfolding write_u64_be_number
write_u64_be_number-Appends v h =
    Fills-Appends (write_u64_be_number_at v) (be 8 v) 8
      (λ c done old room e k.
        let (c', run, holds) = pokes-Fills (be 8 v) c done old room e k in
        (c', write_u64_be_number_at-pokes v c h ∙ run, holds))
      (length-be 8 v)

abbrev le_digits4 : ℕ → Bytes
le_digits4 v = (v % 256) ∷ (v / 2 ^ 8 % 256) ∷ (v / 2 ^ 16 % 256) ∷ (v / 2 ^ 24 % 256) ∷ []

abbrev le_digits8 : ℕ → Bytes
le_digits8 v =
    (v % 256)
    ∷ (v / 2 ^ 8 % 256)
    ∷ (v / 2 ^ 16 % 256)
    ∷ (v / 2 ^ 24 % 256)
    ∷ (v / 2 ^ 32 % 256)
    ∷ (v / 2 ^ 40 % 256)
    ∷ (v / 2 ^ 48 % 256)
    ∷ (v / 2 ^ 56 % 256)
    ∷ []

le_digits4-le : (v : ℕ) → le_digits4 v ≡ le 4 v
le_digits4-le v = simp (div-div-eq-div-mul)

le_digits8-le : (v : ℕ) → le_digits8 v ≡ le 8 v
le_digits8-le v = simp (div-div-eq-div-mul)

pub write_u32_le-Appends : (v : ℕ) → Appends (write_u32_le v) (le 4 v)
unfolding write_u32_le
write_u32_le-Appends v = subst (Appends (write_u32_le v)) (le_digits4-le v) (
    Fills-Appends (λ c. ok (pokes (le_digits4 v) c)) (le_digits4 v) 4 (pokes-Fills (le_digits4 v))
      refl)

pub write_u64_le-Appends : (v : ℕ) → Appends (write_u64_le v) (le 8 v)
unfolding write_u64_le
write_u64_le-Appends v = subst (Appends (write_u64_le v)) (le_digits8-le v) (
    Fills-Appends (λ c. ok (pokes (le_digits8 v) c)) (le_digits8 v) 8 (pokes-Fills (le_digits8 v))
      refl)

pub write_bytes-Appends : (bs : Bytes) → Appends (write_bytes bs) bs
unfolding write_bytes
write_bytes-Appends bs = Fills-Appends (blit bs) bs (length bs) (blit-Fills bs) refl

pub write_optional_u64-Appends : (v : ℕ) → Appends (write_optional_u64 (some v)) (1 ∷ be 8 v)
unfolding write_optional_u64
write_optional_u64-Appends v =
    Appends-then (write_u8 1) (write_u64_be v) (1 ∷ []) (be 8 v) (write_u8-Appends 1)
      (write_u64_be-Appends v)
