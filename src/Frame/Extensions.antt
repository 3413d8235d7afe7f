-- ===== src/Frame/Extensions.antt =====
-- src/frame/extensions.ts: capability lists, and extension fields behind a payload. Numbers that the
-- source checks by Number.isInteger are natural numbers; a cursor that is read from is the bytes
-- from it on.
pub mod Layout
pub mod RoundTrip
use Prim.Native.Nat.{bit_and}
use fitz_ts.Base.{
  ℕ, zero, suc, ◌+◌, ◌-◌, ◌*◌, List, [], ◌∷◌, length, take, drop, Option, some, none, Bool, true,
  false, ltb, leb, ◌==◌, not, ◌&&◌, ◌||◌, if◌then◌else◌, Result, ok, err, ◌>>=◌, ◌>>◌, throw_if,
  codec_error,
}
use fitz_ts.Bytes.{Bytes, be, get_uint}
use fitz_ts.Buffer.Cursor.{Cursor, fresh, blit}

-- The loop over the identifiers; `previous` is that of the source.
unfoldable pub write_capabilities : ℕ → List ℕ → Cursor → Result Cursor
write_capabilities previous [] c = ok c
write_capabilities previous (id ∷ ids) c = do
  throw_if (leb id previous || ltb 0xffffffff id)
      (codec_error "Capabilities must be nonzero ascending u32 IDs" [])
  c ← blit (be 4 id) c
  write_capabilities id ids c

-- The count, and the identifiers.
unfoldable pub fill_capabilities : List ℕ → Cursor → Result Cursor
fill_capabilities ids c = blit (be 2 (length ids)) c >>= write_capabilities 0 ids

unfoldable pub encode_capabilities : List ℕ → Result Bytes
encode_capabilities ids = do
  throw_if (ltb 0xffff (length ids)) (codec_error "Too many capabilities" [])
  c ← fill_capabilities ids (fresh (2 + 4 * length ids))
  ok c.buffer

abbrev pub fields_size : List (ℕ × Bytes) → ℕ
fields_size [] = 0
fields_size ((id, value) ∷ fields) = 6 + length value + fields_size fields

unfoldable pub write_fields : ℕ → List (ℕ × Bytes) → Cursor → Result Cursor
write_fields previous [] c = ok c
write_fields previous ((id, value) ∷ fields) c = do
  throw_if (leb id previous || ltb 0xffff id)
      (codec_error "Extension IDs must be nonzero and ascending" [])
  c ← blit (be 2 id) c
  c ← blit (be 4 (length value)) c
  c ← blit value c
  write_fields id fields c

-- The core's length, the core, and the fields.
unfoldable pub fill_extensions : Bytes → List (ℕ × Bytes) → Cursor → Result Cursor
fill_extensions core fields c = do
  c ← blit (be 4 (length core)) c
  c ← blit core c
  write_fields 0 fields c

-- `encodeExtensions` of a list that is not empty.
unfoldable pub write_extensions : Bytes → List (ℕ × Bytes) → Result Bytes
write_extensions core fields = do
  throw_if (ltb (1024 * 1024) (4 + length core + fields_size fields + 15))
      (codec_error "Extensions exceed message size limit" [])
  c ← fill_extensions core fields (fresh (4 + length core + fields_size fields))
  ok c.buffer

abbrev pub encode_extensions : Bytes → List (ℕ × Bytes) → Result Bytes
encode_extensions core [] = ok core
encode_extensions core (f ∷ fields) = write_extensions core (f ∷ fields)

-- The loop over the capabilities, from the place of the next one on.
unfoldable pub read_capabilities : ℕ → ℕ → Bytes → Result (List ℕ)
read_capabilities zero previous bs = ok []
read_capabilities (suc count) previous bs = do
  value ← get_uint 4 bs 0
  throw_if (leb value previous) (codec_error "Capabilities must be nonzero and ascending" [])
  more ← read_capabilities count value (drop 4 bs)
  ok (value ∷ more)

abbrev pub is_some : Option (List ℕ) → Bool
is_some none = false
is_some (some ids) = true

-- The capability list of a HELLO, which begins with its count.
unfoldable pub read_capability_field : Option (List ℕ) → ℕ → Bytes → Result (Option (List ℕ))
read_capability_field seen size bs = do
  throw_if (is_some seen || ltb size 2) (codec_error "Duplicate or truncated capabilities" [])
  count ← get_uint 2 bs 0
  throw_if (not (size == 2 + count * 4)) (codec_error "Capability length mismatch" [])
  ids ← read_capabilities count 0 (drop 2 bs)
  ok (some ids)

abbrev pub capabilities_of : Bool → Option (List ℕ) → ℕ → Bytes → Result (Option (List ℕ))
capabilities_of true seen size bs = read_capability_field seen size bs
capabilities_of false seen size bs = ok seen

-- One field: what is seen then, and its size. `bs` is the payload from the field on.
unfoldable pub read_field : Bool → Option (List ℕ) → Bytes → Result (Option (List ℕ) × ℕ)
read_field handshake seen bs = do
  throw_if (ltb (length bs) 6) (codec_error "Truncated extension header" [])
  id ← get_uint 2 bs 0
  size ← get_uint 4 bs 2
  throw_if (id == 0 || ltb (length bs - 6) size) (codec_error "Invalid extension ID or length" [])
  seen ← capabilities_of (handshake && id == 1) seen size (drop 6 bs)
  ok (seen, size)

-- What comes after a field, if it is valid.
abbrev pub behind_field :
    (Option (List ℕ) → Bytes → Option (Result (Option (List ℕ))))
    → Bytes
    → Result (Option (List ℕ) × ℕ)
    → Option (Result (Option (List ℕ)))
behind_field next bs (err e) = some (err e)
behind_field next bs (ok (seen, size)) = next seen (drop (6 + size) bs)

-- The loop over the fields; `none` means that the fuel ran out.
unfoldable pub read_fields : ℕ → Bool → Option (List ℕ) → Bytes → Option (Result (Option (List ℕ)))
read_fields fuel handshake seen [] = some (ok seen)
read_fields zero handshake seen (b ∷ bs) = none
read_fields (suc fuel) handshake seen (b ∷ bs) =
    behind_field (read_fields fuel handshake) (b ∷ bs) (read_field handshake seen (b ∷ bs))

pub record Extended : Type 0 where
  pub core : Bytes
  pub capability_ids : List ℕ

abbrev pub with_core : Bool → Bytes → Result (Option (List ℕ)) → Result Extended
with_core handshake core (err e) = err e
with_core handshake core (ok (some ids)) = ok (record { core = core; capability_ids = ids })
with_core true core (ok none) = err (codec_error "HELLO capability list is missing" [])
with_core false core (ok none) = ok (record { core = core; capability_ids = [] })

abbrev pub finish_fields :
    Bool → Bytes → Option (Result (Option (List ℕ))) → Option (Result Extended)
finish_fields handshake core none = none
finish_fields handshake core (some r) = some (with_core handshake core r)

-- The test of the flag, and of the core's length.
abbrev pub read_extended : Bool → Bytes → Result ℕ → Option (Result Extended)
read_extended handshake payload (err e) = some (err e)
read_extended handshake payload (ok core_length) =
    if leb (length payload) (4 + core_length)
    then some (err (codec_error "Core exceeds bounds or extensions are missing" []))
    else finish_fields handshake (take core_length (drop 4 payload))
        (read_fields (length payload) handshake none (drop (4 + core_length) payload))

unfoldable pub decode_extensions : Bytes → ℕ → ℕ → Option (Result Extended)
decode_extensions payload message_type flags =
    let handshake = message_type == 2 in
    if bit_and flags 4 == 0
    then some (
        if handshake
        then err (codec_error "HELLO requires capability extensions" [])
        else ok (record { core = payload; capability_ids = [] }))
    else if ltb (length payload) 4
    then some (err (codec_error "Truncated extension core length" []))
    else read_extended handshake payload (get_uint 4 payload 0)
