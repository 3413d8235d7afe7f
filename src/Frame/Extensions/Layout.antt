-- ===== src/Frame/Extensions/Layout.antt =====
-- src/frame/extensions.ts: what encodeCapabilities and encodeExtensions write.
use fitz_ts.Base.{
  ℕ, ◌+◌, ◌*◌, ◌^◌, ◌<◌, ◌≤◌, ◌≡◌, refl, List, [], ◌∷◌, ◌++◌, length, false, ltb, leb, ◌||◌, ok,
  ◌>>=◌, arith, length-append,
}
use fitz_ts.Bytes.{Bytes, be}
use fitz_ts.Buffer.Cursor.{blit}
use fitz_ts.Buffer.Cursor.Laws.{Fills, Fills-then, Fills-fresh, blit-Fills, pokes-Fills}
use fitz_ts.Frame.Extensions.{
  write_capabilities, fill_capabilities, encode_capabilities, fields_size, write_fields,
  fill_extensions, write_extensions,
}

-- Identifiers above `previous`, and each above the one before.
abbrev pub Ascending : ℕ → List ℕ → Type 0
Ascending previous [] = Unit {0}
Ascending previous (id ∷ ids) = (previous < id) × (id < 2 ^ 32) × Ascending id ids

abbrev pub AscendingFields : ℕ → List (ℕ × Bytes) → Type 0
AscendingFields previous [] = Unit {0}
AscendingFields previous ((id, value) ∷ fields) =
    (previous < id) × (id < 2 ^ 16) × AscendingFields id fields

abbrev pub id_bytes : List ℕ → Bytes
id_bytes [] = []
id_bytes (id ∷ ids) = be 4 id ++ id_bytes ids

abbrev pub list_bytes : List ℕ → Bytes
list_bytes ids = be 2 (length ids) ++ id_bytes ids

abbrev pub field_bytes : List (ℕ × Bytes) → Bytes
field_bytes [] = []
field_bytes ((id, value) ∷ fields) =
    be 2 id ++ (be 4 (length value) ++ (value ++ field_bytes fields))

pub length-id_bytes : (ids : List ℕ) → length (id_bytes ids) ≡ 4 * length ids
length-id_bytes [] = refl
length-id_bytes (id ∷ ids) = omega (arith, length-id_bytes ids)

pub length-field_bytes :
    (fields : List (ℕ × Bytes)) → length (field_bytes fields) ≡ fields_size fields
length-field_bytes [] = refl
length-field_bytes ((id, value) ∷ fields) =
    omega (arith, length-append value (field_bytes fields), length-field_bytes fields)

write_capabilities-Fills :
    (previous : ℕ) (ids : List ℕ)
    → Ascending previous ids
    → Fills (write_capabilities previous ids) (id_bytes ids)
unfolding write_capabilities
write_capabilities-Fills previous [] h = pokes-Fills []
write_capabilities-Fills previous (id ∷ ids) h =
    let guard : (leb id previous || ltb 0xffffffff id) ≡ false = ground arith in
    rw guard (
      Fills-then (blit (be 4 id)) (write_capabilities id ids) (be 4 id) (id_bytes ids)
        (blit-Fills (be 4 id)) (write_capabilities-Fills id ids h.2))

pub encode_capabilities-list_bytes :
    (ids : List ℕ)
    → length ids < 2 ^ 16
    → Ascending 0 ids
    → encode_capabilities ids ≡ ok (list_bytes ids)
unfolding encode_capabilities fill_capabilities
encode_capabilities-list_bytes ids few h =
    let guard : ltb 0xffff (length ids) ≡ false = ground arith in
    rw guard (
      Fills-fresh (λ c. blit (be 2 (length ids)) c >>= write_capabilities 0 ids) (list_bytes ids)
        (2 + 4 * length ids)
        (Fills-then _ _ (be 2 (length ids)) (id_bytes ids) (blit-Fills (be 2 (length ids)))
          (write_capabilities-Fills 0 ids h))
        (omega (arith, length-id_bytes ids)))

write_fields-Fills :
    (previous : ℕ) (fields : List (ℕ × Bytes))
    → AscendingFields previous fields
    → Fills (write_fields previous fields) (field_bytes fields)
unfolding write_fields
write_fields-Fills previous [] h = pokes-Fills []
write_fields-Fills previous ((id, value) ∷ fields) h =
    let guard : (leb id previous || ltb 0xffff id) ≡ false = ground arith in
    rw guard (
      Fills-then _ _ (be 2 id) _ (blit-Fills (be 2 id)) (
        Fills-then _ _ (be 4 (length value)) _ (blit-Fills (be 4 (length value))) (
          Fills-then _ (write_fields id fields) value (field_bytes fields) (blit-Fills value)
            (write_fields-Fills id fields h.2))))

abbrev pub payload_bytes : Bytes → List (ℕ × Bytes) → Bytes
payload_bytes core fields = be 4 (length core) ++ (core ++ field_bytes fields)

pub write_extensions-payload_bytes :
    (core : Bytes) (fields : List (ℕ × Bytes))
    → AscendingFields 0 fields
    → 4 + length core + fields_size fields + 15 ≤ 1024 * 1024
    → write_extensions core fields ≡ ok (payload_bytes core fields)
unfolding write_extensions fill_extensions
write_extensions-payload_bytes core fields h small =
    let guard : ltb (1024 * 1024) (4 + length core + fields_size fields + 15) ≡ false =
      ground arith in
    rw guard (
      Fills-fresh (λ c. blit (be 4 (length core)) c >>= λ d. blit core d >>= write_fields 0 fields)
        (payload_bytes core fields) (4 + length core + fields_size fields)
        (Fills-then _ _ (be 4 (length core)) _ (blit-Fills (be 4 (length core))) (
          Fills-then _ (write_fields 0 fields) core (field_bytes fields) (blit-Fills core)
            (write_fields-Fills 0 fields h)))
        (omega (arith, length-append core (field_bytes fields), length-field_bytes fields)))
