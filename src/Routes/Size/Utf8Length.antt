-- ===== src/Routes/Size/Utf8Length.antt =====
-- The count of `wireSizeIsValid` is the length of the UTF-8 encoding.
use mathlib.Core.Path.{ap₂}
use fitz_ts.Base.{
  ℕ, ap, ◌∙◌, ◌+◌, ◌-◌, ◌*◌, ◌≤◌, ◌<◌, All, ◌≡◌, refl, List, [], ◌∷◌, Bool, true, false, ◌&&◌, leb,
  ltb, if◌then◌else◌, length, arith, Bool-cases, inl, inr,
}
use fitz_ts.Buffer.Text.{Str}
use fitz_ts.Routes.Size.{max_wire_bytes, is_high, is_low, is_pair, count_bytes, wire_size_is_valid}

-- The code points of a string; a lone surrogate counts as U+FFFD.
unfoldable pub scalar : ℕ → ℕ
scalar c = if is_high c then 0xfffd else if is_low c then 0xfffd else c

unfoldable pub code_points : Str → List ℕ
code_points [] = []
code_points (c ∷ []) = scalar c ∷ []
code_points (c ∷ d ∷ cs) =
    let pair = (0x10000 + (c - 0xd800) * 0x400 + (d - 0xdc00)) ∷ code_points cs in
    let single = scalar c ∷ code_points (d ∷ cs) in if is_high c && is_low d then pair else single

-- The bytes that UTF-8 takes for a code point.
unfoldable pub width : ℕ → ℕ
width p = if ltb p 0x80 then 1 else if ltb p 0x800 then 2 else if ltb p 0x10000 then 3 else 4

unfoldable pub total_width : List ℕ → ℕ
total_width [] = 0
total_width (p ∷ ps) = width p + total_width ps

abbrev pub utf8_length : Str → ℕ
utf8_length s = total_width (code_points s)

abbrev pub IsUnit : ℕ → Type 0
IsUnit c = c < 65536

width_pos : (p : ℕ) → 1 ≤ width p
unfolding width
width_pos p = ground arith

width_pair : (p : ℕ) → 0x10000 ≤ p → width p ≡ 4
unfolding width
width_pair p h = ground arith

width-scalar :
    (c : ℕ) → IsUnit c → width (scalar c) ≡ (if ltb c 0x80 then 1 else if ltb c 0x800 then 2 else 3)
unfolding width scalar
width-scalar c h = ground arith

utf8_length_pair :
    (c d : ℕ) (cs : Str)
    → (is_high c && is_low d) ≡ true
    → utf8_length (c ∷ d ∷ cs) ≡ 4 + utf8_length cs
unfolding code_points total_width
utf8_length_pair c d cs h =
    rw h (rw (width_pair (0x10000 + (c - 0xd800) * 0x400 + (d - 0xdc00)) (omega arith)))

utf8_length_single :
    (c d : ℕ) (cs : Str)
    → (is_high c && is_low d) ≡ false
    → utf8_length (c ∷ d ∷ cs) ≡ width (scalar c) + utf8_length (d ∷ cs)
unfolding code_points total_width
utf8_length_single c d cs h = rw h

-- Every unit takes a byte at least.
length-le-utf8_length : (s : Str) → length s ≤ utf8_length s
length-le-utf8_length [] = omega arith
length-le-utf8_length (c ∷ []) =
    unfold code_points total_width in omega (arith, width_pos (scalar c))
length-le-utf8_length (c ∷ d ∷ cs) = elim (Bool-cases (is_high c && is_low d)) [
  | inl h ↦ omega (arith, utf8_length_pair c d cs h, length-le-utf8_length cs)
  | inr h ↦
      omega
        (arith, utf8_length_single c d cs h, width_pos (scalar c), length-le-utf8_length (d ∷ cs))
]

-- A unit that begins no pair: one byte is counted already, and its character takes `k` more.
count_single :
    (bytes c : ℕ) (cs : Str)
    → IsUnit c
    → bytes ≤ max_wire_bytes
    → is_pair c cs ≡ false
    → (k : ℕ) × (width (scalar c) ≡ k + 1)
      × (count_bytes false bytes (c ∷ cs)
          ≡ (if ltb max_wire_bytes (bytes + k) then false else count_bytes false (bytes + k) cs))
unfolding count_bytes
count_single bytes c cs u h p = elim (Bool-cases (ltb c 0x80)) [
  | inl one ↦
      let same : bytes + 0 ≡ bytes = omega arith in
      let within : ltb max_wire_bytes bytes ≡ false = ground arith in
      (0, width-scalar c u ∙ rw one, rw (one, same, within))
  | inr more ↦ elim (Bool-cases (ltb c 0x800)) [
    | inl two ↦ (1, width-scalar c u ∙ rw (more, two), rw (more, two, p))
    | inr three ↦ (2, width-scalar c u ∙ rw (more, three), rw (more, three, p))
  ]
]

count_pair :
    (bytes c d : ℕ) (cs : Str)
    → (is_high c && is_low d) ≡ true
    → count_bytes false bytes (c ∷ d ∷ cs)
      ≡ (if ltb max_wire_bytes (bytes + 2) then false else count_bytes false (bytes + 2) cs)
unfolding count_bytes is_pair
count_pair bytes c d cs h =
    let big : ltb c 0x800 ≡ false = ground (arith, h) in
    let more : ltb c 0x80 ≡ false = ground (arith, h) in rw (more, big, h)

-- From here on the two agree, with what has been counted for the units that are left.
abbrev Agrees : ℕ → Str → Type 0
Agrees bytes s = count_bytes false bytes s ≡ leb (bytes + utf8_length s) (max_wire_bytes + length s)

agree_step :
    (bytes n w k l : ℕ) (b : Bool)
    → n ≤ l
    → (bytes + k ≤ max_wire_bytes → b ≡ leb ((bytes + k) + l) (max_wire_bytes + n))
    → (if ltb max_wire_bytes (bytes + k) then false else b)
      ≡ leb (bytes + ((k + w) + l)) (max_wire_bytes + (w + n))
agree_step bytes n w k l b h f = elim (Bool-cases (ltb max_wire_bytes (bytes + k))) [
  | inl over ↦ rw over (ground (arith, over))
  | inr room ↦ rw (room, f (ground (arith, room))) (ground arith)
]

count_bytes-utf8_length :
    (bytes : ℕ) (s : Str) → All IsUnit s → bytes ≤ max_wire_bytes → Agrees bytes s
count_bytes-utf8_length bytes [] u h = unfold count_bytes code_points total_width in ground arith
count_bytes-utf8_length bytes (c ∷ []) u h =
    let (k, e, step) = count_single bytes c [] u.0 h (unfold is_pair in refl) in
    let size : utf8_length (c ∷ []) ≡ (k + 1) + 0 =
      unfold code_points total_width in ap (λ n. n + 0) e in
    step
    ∙ agree_step bytes 0 1 k 0 (count_bytes false (bytes + k) []) (omega arith)
        (unfold count_bytes in λ m. ground arith)
    ∙ ap₂ leb (omega (arith, size)) (omega arith)
count_bytes-utf8_length bytes (c ∷ d ∷ cs) u h = elim (Bool-cases (is_high c && is_low d)) [
  | inl pair ↦
      count_pair bytes c d cs pair
      ∙ agree_step bytes (length cs) 2 2 (utf8_length cs) (count_bytes false (bytes + 2) cs)
          (length-le-utf8_length cs) (count_bytes-utf8_length (bytes + 2) cs u.1.1)
      ∙ ap₂ leb (omega (arith, utf8_length_pair c d cs pair)) (omega arith)
  | inr single ↦
      let (k, e, step) = count_single bytes c (d ∷ cs) u.0 h (unfold is_pair in single) in
      step
      ∙ agree_step bytes (length (d ∷ cs)) 1 k (utf8_length (d ∷ cs))
          (count_bytes false (bytes + k) (d ∷ cs)) (length-le-utf8_length (d ∷ cs))
          (count_bytes-utf8_length (bytes + k) (d ∷ cs) u.1)
      ∙ ap₂ leb (omega (arith, utf8_length_single c d cs single, e)) (omega arith)
]

-- A route passes the test exactly when its UTF-8 encoding has at most 65,535 bytes.
pub wire_size_is_valid-utf8_length :
    (route : Str)
    → All IsUnit route
    → wire_size_is_valid route ≡ leb (utf8_length route) max_wire_bytes
unfolding wire_size_is_valid
wire_size_is_valid-utf8_length route u =
    ground (arith, count_bytes-utf8_length (length route) route u, length-le-utf8_length route)
