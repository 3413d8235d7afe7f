-- ===== src/Bytes/Laws.antt =====
-- Big-endian digits: the round trips between a number and its bytes.
use native.Mathlib.Nat.{
  pow-succ', mod-lt, mod-eq_of_lt, add-mul-mod_self_left, div-eq_of_lt-le, one-le-pow, div-add-mod,
}
use mathlib.Core.Path.{ap₂}
use fitz_ts.Base.{
  ℕ, zero, suc, ◌+◌, ◌*◌, ◌/◌, ◌%◌, ◌^◌, ◌<◌, ◌≤◌, ◌≡◌, refl, ap, ◌∙◌, arith, [], ◌∷◌, length, All,
  leb, ok, take, drop, take-append, drop-append, take-append_le, drop-append_le, length-append,
  length-take, length-drop, le→leb, append_assoc, Bool-cases, inl, inr, leb→le, ◌++◌, sym,
}
use fitz_ts.Bytes.{Bytes, IsByte, be, of_be_from, get_uint, set_bytes}

pub length-be : (n v : ℕ) → length (be n v) ≡ n
length-be zero v = refl
length-be (suc n) v = ap suc (length-be n v)

pub be-IsByte : (n v : ℕ) → All IsByte (be n v)
be-IsByte zero v = tt
be-IsByte (suc n) v = (omega arith, be-IsByte n v)

abbrev pow_pos : (n : ℕ) → 0 < 256 ^ n
pow_pos n = one-le-pow n 256 (omega arith)

digit_mod : (p d q r : ℕ) → d < 256 → r < p → ((d * p + r) + 256 * p * q) % (256 * p) ≡ d * p + r
digit_mod p d q r hd hr = add-mul-mod_self_left _ _ _ ∙ mod-eq_of_lt (grind arith)

mod-split : (p v : ℕ) → 0 < p → v % (256 * p) ≡ v / p % 256 * p + v % p
mod-split p v h =
    ap (λ x. x % (256 * p)) (digits (v / p) (div-add-mod v p) (div-add-mod (v / p) 256))
    ∙ digit_mod p (v / p % 256) (v / p / 256) (v % p) (omega arith) (mod-lt v h)
  where
    digits :
        (q : ℕ)
        → p * q + v % p ≡ v
        → 256 * (q / 256) + q % 256 ≡ q
        → v ≡ (q % 256 * p + v % p) + 256 * p * (q / 256)
    digits q e f = omega (arith, ap (λ (t : ℕ). p * t) f)

digit_step :
    (acc p v : ℕ) → 0 < p → (acc * 256 + v / p % 256) * p + v % p ≡ acc * (256 * p) + v % (256 * p)
digit_step acc p v h = omega (arith, mod-split p v h)

-- Reading back `v` leaves what was read before it, shifted.
pub of_be_from-be : (n acc v : ℕ) → of_be_from acc (be n v) ≡ acc * 256 ^ n + v % 256 ^ n
of_be_from-be zero acc v = omega arith
of_be_from-be (suc n) acc v =
    of_be_from-be n (acc * 256 + v / 256 ^ n % 256) v
    ∙ rw (pow-succ' 256 n) (digit_step acc (256 ^ n) v (pow_pos n))

pub of_be-be : (n v : ℕ) → v < 256 ^ n → of_be_from 0 (be n v) ≡ v
of_be-be n v h = of_be_from-be n 0 v ∙ (omega (arith, mod-eq_of_lt h))

of_be_from-acc :
    (acc : ℕ) (bs : Bytes) → of_be_from acc bs ≡ acc * 256 ^ length bs + of_be_from 0 bs
of_be_from-acc acc [] = omega arith
of_be_from-acc acc (b ∷ bs) =
    of_be_from-acc (acc * 256 + b) bs
    ∙ rw (pow-succ' 256 (length bs)) (omega (arith, of_be_from-acc (0 * 256 + b) bs))

-- A number read from bytes fits their width.
pub of_be-lt : (bs : Bytes) → All IsByte bs → of_be_from 0 bs < 256 ^ length bs
of_be-lt [] h = omega arith
of_be-lt (b ∷ bs) (hb, hs) =
    rw (pow-succ' 256 (length bs), of_be_from-acc (0 * 256 + b) bs) (grind (arith, of_be-lt bs hs))

quotient : (q p r : ℕ) → r < p → (q * p + r) / p ≡ q
quotient q p r h = div-eq_of_lt-le p (omega arith) (omega arith)

be-of_be_from : (acc : ℕ) (bs : Bytes) → All IsByte bs → be (length bs) (of_be_from acc bs) ≡ bs
be-of_be_from acc [] h = refl
be-of_be_from acc (b ∷ bs) (hb, hs) = ap₂ ◌∷◌ head (be-of_be_from (acc * 256 + b) bs hs)
  where
    head : of_be_from (acc * 256 + b) bs / 256 ^ length bs % 256 ≡ b
    head =
        rw
          (
            of_be_from-acc (acc * 256 + b) bs,
            quotient (acc * 256 + b) (256 ^ length bs) (of_be_from 0 bs) (of_be-lt bs hs),
          )
          (omega arith)

-- Writing the number that was read gives the bytes again.
pub be-of_be : (bs : Bytes) → All IsByte bs → be (length bs) (of_be_from 0 bs) ≡ bs
be-of_be = be-of_be_from 0

All-take : (n : ℕ) (bs : Bytes) → All IsByte bs → All IsByte (take n bs)
All-take zero bs h = tt
All-take (suc n) [] h = tt
All-take (suc n) (b ∷ bs) h = (h.0, All-take n bs h.1)

All-drop : (n : ℕ) (bs : Bytes) → All IsByte bs → All IsByte (drop n bs)
All-drop zero bs h = h
All-drop (suc n) [] h = tt
All-drop (suc n) (b ∷ bs) h = All-drop n bs h.1

ok-injective : {a b : ℕ} → ok a ≡ ok b → a ≡ b
ok-injective e = cc

-- Fields at a known place, read and written.
pub get_uint-append :
    (n v : ℕ) (done room : Bytes) (off : ℕ)
    → off ≡ length done
    → v < 256 ^ n
    → get_uint n (done ++ (be n v ++ room)) off ≡ ok v
unfolding get_uint
get_uint-append n v done room off e small = rw (
  e,
  le→leb (length done + n) (length (done ++ (be n v ++ room))) (
      omega
        (arith, length-append done (be n v ++ room), length-append (be n v) room, length-be n v)),
  drop-append (length done) done (be n v ++ room) refl,
  take-append n (be n v) room (length-be n v),
  of_be-be n v small,
)

pub set_bytes-append :
    (done old room bs : Bytes) (off : ℕ)
    → off ≡ length done
    → length old ≡ length bs
    → set_bytes (done ++ (old ++ room)) off bs ≡ ok (done ++ (bs ++ room))
unfolding set_bytes
set_bytes-append done old room bs off e f =
    rw
      (
        e,
        le→leb (length done + length bs) (length (done ++ (old ++ room)))
            (omega (arith, length-append done (old ++ room), length-append old room)),
        take-append (length done) done (old ++ room) refl,
        ← append_assoc done old room,
        drop-append (length done + length bs) (done ++ old) room
            (omega (arith, length-append done old)),
      )
      (ap ok (append_assoc done bs room))

-- The number that is read determines the bytes that it was read from.
pub get_uint_bytes :
    (n : ℕ) (buf : Bytes) (off v : ℕ)
    → All IsByte buf
    → get_uint n buf off ≡ ok v
    → (off + n ≤ length buf) × (take n (drop off buf) ≡ be n v) × (v < 256 ^ n)
unfolding get_uint
get_uint_bytes n buf off v hb e = elim (Bool-cases (leb (off + n) (length buf))) [
  | inl fits ↦
      let room : off + n ≤ length buf = leb→le _ _ fits in
      let len : length (take n (drop off buf)) ≡ n =
        omega (arith, length-take n (drop off buf), length-drop off buf) in
      let bytes : All IsByte (take n (drop off buf)) =
        All-take n (drop off buf) (All-drop off buf hb) in
      let value : of_be_from 0 (take n (drop off buf)) ≡ v = ok-injective (rw fits at e) in
      (room, sym (be-of_be _ bytes) ∙ ap₂ be len value, rw (← value) (rw len at (of_be-lt _ bytes)))
  | inr over ↦ cc (rw over at e)
]

-- A read within the front of an array does not depend on what follows it.
pub get_uint_front :
    (n : ℕ) (front back : Bytes) (off : ℕ)
    → off + n ≤ length front
    → get_uint n (front ++ back) off ≡ get_uint n front off
unfolding get_uint
get_uint_front n front back off h = rw (
  le→leb (off + n) (length front) h,
  le→leb (off + n) (length (front ++ back)) (omega (arith, length-append front back)),
  drop-append_le off front back (omega arith),
  take-append_le n (drop off front) back (omega (arith, length-drop off front)),
)
