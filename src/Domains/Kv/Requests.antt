-- ===== src/Domains/Kv/Requests.antt =====
-- src/domains/kv/codec.ts: the requests of the key-value domain, each an array that is filled field
-- after field; and the encoding of a route in src/core/buffer.ts, computed each time, not cached.
use fitz_ts.Base.{ℕ, ◌+◌, ◌++◌, length, Result, ok, ◌>>=◌, ◌≡◌, arith, length-append, >>=-ok}
use fitz_ts.Bytes.{Bytes, be}
use fitz_ts.Buffer.Text.{Utf8, Str}
use fitz_ts.Buffer.Cursor.{Cursor, fresh, blit, write_u32_be_at, write_u64_be_at}
use fitz_ts.Buffer.Cursor.Laws.{Fills, Fills-then, Fills-fresh, blit-Fills}
use fitz_ts.Buffer.Writer.Appends.{write_u32_be_at-Fills, write_u64_be_at-Fills}
use fitz_ts.Buffer.Writer.Strings.{string_bytes}

-- `writeU32BEAt` of an array's length, and the array.
unfoldable pub write_sized : Bytes → Cursor → Result Cursor
write_sized bs c = blit bs (write_u32_be_at (length bs) c)

-- What `encodeGet` fills in: the transaction, the route and a key.
unfoldable pub write_keyed : ℕ → Bytes → Bytes → Cursor → Result Cursor
write_keyed tx_id route_bytes key c = do
  c ← blit route_bytes (write_u64_be_at tx_id c)
  write_sized key c

-- What `encodePut` fills in: the same and another array.
unfoldable pub write_keyed_two : ℕ → Bytes → Bytes → Bytes → Cursor → Result Cursor
write_keyed_two tx_id route_bytes key value c = do
  c ← write_keyed tx_id route_bytes key c
  write_sized value c

keyed_size :
    (tx_id : ℕ) (route_bytes key : Bytes)
    → 8 + length route_bytes + 4 + length key
      ≡ length ((be 8 tx_id ++ route_bytes) ++ (be 4 (length key) ++ key))
keyed_size tx_id rs key = omega (arith, length-append (be 8 tx_id ++ rs) (be 4 (length key) ++ key))

keyed_two_size :
    (tx_id : ℕ) (route_bytes key value : Bytes)
    → 8 + length route_bytes + 4 + length key + 4 + length value
      ≡ length (
          ((be 8 tx_id ++ route_bytes) ++ (be 4 (length key) ++ key))
          ++ (be 4 (length value) ++ value))
keyed_two_size tx_id rs key value =
    let front = (be 8 tx_id ++ rs) ++ (be 4 (length key) ++ key) in
    omega (arith, keyed_size tx_id rs key, length-append front (be 4 (length value) ++ value))

module _ ⦃u : Utf8⦄ where
  open u use {encode}

  unfoldable pub get_route_encoding : Str → Result Bytes
  get_route_encoding route = do
    c ← write_sized (encode route) (fresh (4 + length (encode route)))
    ok c.buffer

  unfoldable pub encode_get : ℕ → Str → Bytes → Result Bytes
  encode_get tx_id route key = do
    route_bytes ← get_route_encoding route
    c ← write_keyed tx_id route_bytes key (fresh (8 + length route_bytes + 4 + length key))
    ok c.buffer

  unfoldable pub encode_put : ℕ → Str → Bytes → Bytes → Result Bytes
  encode_put tx_id route key value = do
    route_bytes ← get_route_encoding route
    c ←
        write_keyed_two tx_id route_bytes key value
          (fresh (8 + length route_bytes + 4 + length key + 4 + length value))
    ok c.buffer

  pub write_sized-Fills : (bs : Bytes) → Fills (write_sized bs) (be 4 (length bs) ++ bs)
  unfolding write_sized
  write_sized-Fills bs =
      Fills-then _ _ (be 4 (length bs)) bs (write_u32_be_at-Fills (length bs)) (blit-Fills bs)

  write_keyed-Fills :
      (tx_id : ℕ) (route_bytes key : Bytes)
      → Fills
          (write_keyed tx_id route_bytes key)
          ((be 8 tx_id ++ route_bytes) ++ (be 4 (length key) ++ key))
  unfolding write_keyed
  write_keyed-Fills tx_id route_bytes key =
      Fills-then _ _ (be 8 tx_id ++ route_bytes) _
        (Fills-then _ _ (be 8 tx_id) route_bytes (write_u64_be_at-Fills tx_id)
          (blit-Fills route_bytes))
        (write_sized-Fills key)

  write_keyed_two-Fills :
      (tx_id : ℕ) (route_bytes key value : Bytes)
      → Fills (write_keyed_two tx_id route_bytes key value) (
          ((be 8 tx_id ++ route_bytes) ++ (be 4 (length key) ++ key))
          ++ (be 4 (length value) ++ value))
  unfolding write_keyed_two
  write_keyed_two-Fills tx_id route_bytes key value =
      Fills-then _ _ ((be 8 tx_id ++ route_bytes) ++ (be 4 (length key) ++ key)) _
        (write_keyed-Fills tx_id route_bytes key) (write_sized-Fills value)

  pub get_route_encoding-string_bytes :
      (route : Str) → get_route_encoding route ≡ ok (string_bytes route)
  unfolding get_route_encoding
  get_route_encoding-string_bytes route =
      Fills-fresh (write_sized (encode route)) (string_bytes route) (4 + length (encode route))
        (write_sized-Fills (encode route)) (omega arith)

  -- PUT is the transaction, the route, the key and the value, with their lengths, and fills its
  -- array exactly.
  pub encode_put_layout :
      (tx_id : ℕ) (route : Str) (key value : Bytes)
      → encode_put tx_id route key value
        ≡ ok (
            ((be 8 tx_id ++ string_bytes route) ++ (be 4 (length key) ++ key))
            ++ (be 4 (length value) ++ value))
  unfolding encode_put
  encode_put_layout tx_id route key value =
      let route_bytes = string_bytes route in
      >>=-ok _ _ route_bytes (get_route_encoding-string_bytes route) (
        Fills-fresh (write_keyed_two tx_id route_bytes key value) _ _
          (write_keyed_two-Fills tx_id route_bytes key value)
          (keyed_two_size tx_id route_bytes key value))

  -- GET is the transaction, the route and the key, with their lengths, and fills its array exactly.
  pub encode_get_layout :
      (tx_id : ℕ) (route : Str) (key : Bytes)
      → encode_get tx_id route key
        ≡ ok ((be 8 tx_id ++ string_bytes route) ++ (be 4 (length key) ++ key))
  unfolding encode_get
  encode_get_layout tx_id route key =
      let route_bytes = string_bytes route in
      >>=-ok _ _ route_bytes (get_route_encoding-string_bytes route) (
        Fills-fresh (write_keyed tx_id route_bytes key) _ _
          (write_keyed-Fills tx_id route_bytes key) (keyed_size tx_id route_bytes key))
