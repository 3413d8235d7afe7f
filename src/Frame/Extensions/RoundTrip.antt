-- ===== src/Frame/Extensions/RoundTrip.antt =====
-- src/frame/extensions.ts: capabilities and other fields behind the core are read back.
use fitz_ts.Base.{
  ℕ, zero, suc, ◌+◌, ◌-◌, ◌*◌, ◌^◌, ◌<◌, ◌≤◌, ◌≡◌, refl, ap, ◌∙◌, List, [], ◌∷◌, ◌++◌, length, drop,
  Option, some, none, Bool, true, false, ltb, leb, ◌==◌, not, ◌&&◌, ◌||◌, Result, ok, ◌>>=◌, arith,
  length-append, drop-append, take-append,
}
use Prim.Native.Nat.{bit_and}
use fitz_ts.Bytes.{Bytes, be}
use fitz_ts.Bytes.Laws.{get_uint-append}
use fitz_ts.Frame.Extensions.{
  encode_capabilities, fields_size, encode_extensions, read_capabilities, read_capability_field,
  capabilities_of, read_field, behind_field, read_fields, finish_fields, read_extended,
  decode_extensions,
}
use fitz_ts.Frame.Extensions.Layout.{
  Ascending, AscendingFields, id_bytes, list_bytes, field_bytes, payload_bytes, length-id_bytes,
  length-field_bytes, encode_capabilities-list_bytes, write_extensions-payload_bytes,
}

read_capabilities-id_bytes :
    (previous : ℕ) (ids : List ℕ) (more : Bytes)
    → Ascending previous ids
    → read_capabilities (length ids) previous (id_bytes ids ++ more) ≡ ok ids
unfolding read_capabilities
read_capabilities-id_bytes previous [] more h = refl
read_capabilities-id_bytes previous (id ∷ ids) more h =
    let guard : leb id previous ≡ false = ground arith in
    rw (
      get_uint-append 4 id [] (id_bytes ids ++ more) 0 refl h.1,
      guard,
      read_capabilities-id_bytes id ids more h.2,
    )

-- A list of capabilities is read once, whatever follows it.
read_capability_field-list_bytes :
    (ids : List ℕ) (more : Bytes)
    → length ids < 2 ^ 16
    → Ascending 0 ids
    → read_capability_field none (length (list_bytes ids)) (list_bytes ids ++ more) ≡ ok (some ids)
unfolding read_capability_field
read_capability_field-list_bytes ids more few h =
    let short : ltb (length (list_bytes ids)) 2 ≡ false = ground (arith, length-id_bytes ids) in
    let same : not (length (list_bytes ids) == 2 + length ids * 4) ≡ false =
      ground (arith, length-id_bytes ids) in
    rw (
      short,
      get_uint-append 2 (length ids) [] (id_bytes ids ++ more) 0 refl few,
      same,
      read_capabilities-id_bytes 0 ids more h,
    )

abbrev one_field : ℕ → Bytes → Bytes
one_field id value = be 2 id ++ (be 4 (length value) ++ value)

-- One field in front of others: its value is left to the reader of capabilities.
read_field-one_field :
    (handshake : Bool) (seen : Option (List ℕ)) (id : ℕ) (value more : Bytes)
    → 0 < id
    → id < 2 ^ 16
    → length value < 2 ^ 32
    → read_field handshake seen (be 2 id ++ (be 4 (length value) ++ (value ++ more))) ≡ (do
      s ← capabilities_of (handshake && id == 1) seen (length value) (value ++ more)
      ok (s, length value))
unfolding read_field
read_field-one_field handshake seen id value more pos hid hv =
    let bs : Bytes = be 2 id ++ (be 4 (length value) ++ (value ++ more)) in
    let long : length bs ≡ 6 + (length value + length more) =
      omega (arith, length-append value more) in
    let near : ltb (length bs) 6 ≡ false = ground (arith, long) in
    let far : (id == 0 || ltb (length bs - 6) (length value)) ≡ false = ground (arith, long) in
    rw (
      near,
      get_uint-append 2 id [] (be 4 (length value) ++ (value ++ more)) 0 refl hid,
      get_uint-append 4 (length value) (be 2 id) (value ++ more) 2 refl hv,
      far,
    )

drop-one_field :
    (id : ℕ) (value more : Bytes)
    → drop (6 + length value) (be 2 id ++ (be 4 (length value) ++ (value ++ more))) ≡ more
drop-one_field id value more =
    drop-append (6 + length value) (one_field id value) more (omega arith)

-- A valid field is passed, and the fields behind it are read.
read_fields-one_field :
    (fuel : ℕ) (handshake : Bool) (seen s : Option (List ℕ)) (id : ℕ) (value more : Bytes)
    → read_field handshake seen (be 2 id ++ (be 4 (length value) ++ (value ++ more)))
      ≡ ok (s, length value)
    → read_fields (suc fuel) handshake seen (be 2 id ++ (be 4 (length value) ++ (value ++ more)))
      ≡ read_fields fuel handshake s more
unfolding read_fields
read_fields-one_field fuel handshake seen s id value more valid =
    ap
      (behind_field (read_fields fuel handshake)
        (be 2 id ++ (be 4 (length value) ++ (value ++ more))))
      valid
    ∙ ap (read_fields fuel handshake s) (drop-one_field id value more)

-- Fields that say nothing of capabilities leave them as they are.
read_fields-field_bytes :
    (fuel previous : ℕ) (seen : Option (List ℕ)) (fields : List (ℕ × Bytes))
    → 1 ≤ previous
    → AscendingFields previous fields
    → fields_size fields < 2 ^ 32
    → length fields ≤ fuel
    → read_fields fuel true seen (field_bytes fields) ≡ some (ok seen)
unfolding read_fields
read_fields-field_bytes fuel previous seen [] low h small enough = refl
read_fields-field_bytes zero previous seen (f ∷ fields) low h small enough =
    absurd (omega (arith, enough))
read_fields-field_bytes (suc fuel) previous seen ((id, value) ∷ fields) low h small enough =
    let other : (id == 1) ≡ false = ground arith in
    read_fields-one_field fuel true seen seen id value (field_bytes fields) (
      read_field-one_field true seen id value (field_bytes fields) (omega arith) h.1 (omega arith)
      ∙ (rw other refl))
    ∙ read_fields-field_bytes fuel id seen fields (omega arith) h.2 (omega arith) (omega arith)

-- A capability list in front of other fields is read.
read_fields-handshake :
    (fuel : ℕ) (ids : List ℕ) (fields : List (ℕ × Bytes))
    → length ids < 2 ^ 16
    → Ascending 0 ids
    → AscendingFields 1 fields
    → fields_size fields < 2 ^ 32
    → length fields < fuel
    → read_fields fuel true none (field_bytes ((1, list_bytes ids) ∷ fields)) ≡ some (ok (some ids))
unfolding read_fields
read_fields-handshake zero ids fields few h others small enough = absurd (omega (arith, enough))
read_fields-handshake (suc fuel) ids fields few h others small enough =
    let value : Bytes = list_bytes ids in
    let size : length value < 2 ^ 32 = omega (arith, length-id_bytes ids) in
    read_fields-one_field fuel true none (some ids) 1 value (field_bytes fields) (
      read_field-one_field true none 1 value (field_bytes fields) (omega arith) (omega arith) size
      ∙ rw (read_capability_field-list_bytes ids (field_bytes fields) few h) refl)
    ∙ read_fields-field_bytes fuel 1 (some ids) fields (omega arith) others small (omega arith)

-- The core is found, and the fields behind it.
read_extended-payload_bytes :
    (handshake : Bool) (core : Bytes) (fields : List (ℕ × Bytes))
    → 1 ≤ length (field_bytes fields)
    → read_extended handshake (payload_bytes core fields) (ok (length core))
      ≡ finish_fields handshake core
          (read_fields (length (payload_bytes core fields)) handshake none (field_bytes fields))
read_extended-payload_bytes handshake core fields some_field =
    let long : length (payload_bytes core fields) ≡ 4 + length core + length (field_bytes fields) =
      omega (arith, length-append core (field_bytes fields)) in
    let bounds : leb (length (payload_bytes core fields)) (4 + length core) ≡ false =
      ground (arith, long) in
    rw (
      bounds,
      take-append (length core) core (field_bytes fields) refl,
      drop-append (4 + length core) (be 4 (length core) ++ core) (field_bytes fields) (omega arith),
    )

length-fields_size : (fields : List (ℕ × Bytes)) → length fields ≤ fields_size fields
length-fields_size [] = omega arith
length-fields_size ((id, value) ∷ fields) = omega (arith, length-fields_size fields)

-- What a HELLO's payload holds, if its capability list is `caps`, with other fields behind it.
unfoldable pub extend_hello : Bytes → List ℕ → List (ℕ × Bytes) → Result Bytes
extend_hello core ids fields = do
  caps ← encode_capabilities ids
  encode_extensions core ((1, caps) ∷ fields)

-- Capabilities in ascending order, and further extension fields with ascending identifiers above 1,
-- are written behind the core of a HELLO where the message keeps its size limit, and the payload is
-- decoded to the same core and the same capabilities.
pub decode_extensions-encode_extensions :
    (core : Bytes) (ids : List ℕ) (fields : List (ℕ × Bytes)) (flags : ℕ)
    → length ids < 2 ^ 16
    → Ascending 0 ids
    → AscendingFields 1 fields
    → 4 + length core + (8 + 4 * length ids) + fields_size fields + 15 ≤ 1024 * 1024
    → (bit_and flags 4 == 0) ≡ false
    → (payload : Bytes) × (extend_hello core ids fields ≡ ok payload)
      × (decode_extensions payload 2 flags
          ≡ some (ok (record { core = core; capability_ids = ids })))
unfolding extend_hello decode_extensions
decode_extensions-encode_extensions core ids fields flags few h others small flag =
    (payload, written, read)
  where
    all : List (ℕ × Bytes)
    all = (1, list_bytes ids) ∷ fields

    size : length (list_bytes ids) ≡ 2 + 4 * length ids
    size = omega (arith, length-id_bytes ids)

    payload : Bytes
    payload = payload_bytes core all

    written : extend_hello core ids fields ≡ ok payload
    written = rw (encode_capabilities-list_bytes ids few h) (
        write_extensions-payload_bytes core all (omega arith, omega arith, others)
          (omega (arith, small, size)))

    near : ltb (length payload) 4 ≡ false
    near = ground arith

    fields_long : length (field_bytes all) ≡ 6 + length (list_bytes ids) + fields_size fields
    fields_long = length-field_bytes all

    read :
        decode_extensions payload 2 flags ≡ some (ok (record { core = core; capability_ids = ids }))
    read =
        rw
          (
            flag,
            near,
            get_uint-append 4 (length core) [] (core ++ field_bytes all) 0 refl (omega arith),
          )
          (read_extended-payload_bytes true core all (omega (arith, fields_long))
            ∙ ap (finish_fields true core) (
                read_fields-handshake (length payload) ids fields few h others (omega arith) (
                  omega (
                    arith,
                    length-fields_size fields,
                    length-append core (field_bytes all),
                    fields_long,
                  ))))
