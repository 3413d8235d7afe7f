-- ===== src/Routes/Size.antt =====
-- src/domains/_routes.ts, wireSizeIsValid: the size of a route in UTF-8, counted on its UTF-16 units.
pub mod Utf8Length
use fitz_ts.Base.{ℕ, ◌+◌, List, [], ◌∷◌, Bool, true, false, ◌&&◌, leb, ltb, if◌then◌else◌, length}
use fitz_ts.Buffer.Text.{Str}

abbrev pub max_wire_bytes : ℕ
max_wire_bytes = 65535

abbrev pub is_high : ℕ → Bool
is_high c = leb 0xd800 c && leb c 0xdbff

abbrev pub is_low : ℕ → Bool
is_low c = leb 0xdc00 c && leb c 0xdfff

-- A surrogate pair begins with `c`.
unfoldable pub is_pair : ℕ → Str → Bool
is_pair c [] = false
is_pair c (d ∷ cs) = is_high c && is_low d

-- The loop over the units that are left, with the bytes counted so far. `index++` in the body is
-- that the next unit is skipped.
unfoldable pub count_bytes : Bool → ℕ → Str → Bool
count_bytes skip bytes [] = true
count_bytes true bytes (c ∷ cs) = count_bytes false bytes cs
count_bytes false bytes (c ∷ cs) =
    let bytes' = bytes + (if ltb c 0x800 then 1 else 2) in
    let same = count_bytes false bytes cs in
    let more = count_bytes (is_pair c cs) bytes' cs in
    if ltb c 0x80 then same else if ltb max_wire_bytes bytes' then false else more

unfoldable pub wire_size_is_valid : Str → Bool
wire_size_is_valid route =
    if ltb max_wire_bytes (length route) then false else count_bytes false (length route) route
