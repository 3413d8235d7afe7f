-- ===== src/Domains/Stream/Requests.antt =====
-- src/domains/stream/codec.ts: the requests of the stream domain, each an array that is filled field
-- after field; a filter is written by a buffer writer.
pub mod Layout
use fitz_ts.Base.{
  ℕ, ◌+◌, List, [], ◌∷◌, ◌++◌, length, Option, some, none, Bool, true, false, if◌then◌else◌, Result,
  ok, ◌>>=◌,
}
use fitz_ts.Bytes.{Bytes}
use fitz_ts.Buffer.Text.{Utf8, Str}
use fitz_ts.Buffer.Cursor.{Cursor, fresh, poke, blit, write_u64_be_at, write_u64_be_number_at}
use fitz_ts.Buffer.Writer.{
  new_writer, write_u8, write_u32_be, write_string, write_bytes, get_buffer,
}
use fitz_ts.Domains.Kv.Requests.{write_sized, get_route_encoding}

pub data StreamCommitMode : Type 0 where
  buffered sync : StreamCommitMode

pub data StreamFilterClause : Type 0 where
  equals not_equals starts_with : (value : Str) → StreamFilterClause
  any_of : (values : List Str) → StreamFilterClause

-- The options of a READ that go over the wire; `filter` is the clauses.
pub record StreamWireReadOptions : Type 0 where
  pub max_bytes : Option ℕ
  pub filter : Option (List StreamFilterClause)
  pub cursor_fingerprint : Option ℕ
  pub captured_watermark : Option ℕ

-- A flag, and the value if there is one.
unfoldable pub write_optional_sized : Option Bytes → Cursor → Result Cursor
write_optional_sized none c = ok (poke 0 c)
write_optional_sized (some bs) c = write_sized bs (poke 1 c)

unfoldable pub write_optional_at : Option ℕ → Cursor → Result Cursor
write_optional_at none c = ok (poke 0 c)
write_optional_at (some v) c = ok (write_u64_be_at v (poke 1 c))

-- How many bytes follow the flag.
abbrev pub sized_room : Option Bytes → ℕ
sized_room none = 0
sized_room (some bs) = 4 + length bs

abbrev pub value_room : Option ℕ → ℕ
value_room none = 0
value_room (some v) = 8

-- `ingestMetadata && ingestMetadata.length > 0`
abbrev pub unless_empty : Option Bytes → Option Bytes
unless_empty (some (b ∷ bs)) = some (b ∷ bs)
unless_empty _ = none

unfoldable pub write_append : ℕ → ℕ → Bytes → Option Bytes → Option Bytes → Cursor → Result Cursor
write_append session_id expected_offset body metadata discriminator c = do
  c ← write_sized body (write_u64_be_at expected_offset (write_u64_be_at session_id c))
  c ← write_optional_sized metadata c
  write_optional_sized discriminator c

unfoldable pub encode_commit : ℕ → StreamCommitMode → Bytes
encode_commit session_id buffered = (poke 0 (write_u64_be_at session_id (fresh 9))).buffer
encode_commit session_id sync = (poke 1 (write_u64_be_at session_id (fresh 9))).buffer

unfoldable pub encode_rollback : ℕ → Bytes
encode_rollback session_id = (write_u64_be_at session_id (fresh 8)).buffer

unfoldable pub write_read :
    Bytes → ℕ → ℕ → Option ℕ → Option Bytes → Option ℕ → Option ℕ → Cursor → Result Cursor
write_read route_bytes start_offset limit max_bytes filter_bytes fingerprint watermark c = do
  c ← blit route_bytes c
  c ← write_u64_be_number_at limit (write_u64_be_at start_offset c)
  c ← write_optional_at max_bytes c
  c ← write_optional_sized filter_bytes c
  c ← write_optional_at fingerprint c
  write_optional_at watermark c

module _ ⦃u : Utf8⦄ where
  open u use {encode}

  unfoldable pub encode_begin : Str → Option Bytes → Result Bytes
  encode_begin route ingest_metadata = do
    route_bytes ← get_route_encoding route
    c ←
        blit route_bytes
          (fresh (length route_bytes + 1 + sized_room (unless_empty ingest_metadata)))
    c ← write_optional_sized (unless_empty ingest_metadata) c
    ok c.buffer

  -- An empty discriminator is none.
  abbrev pub discriminator_bytes : Option Str → Option Bytes
  discriminator_bytes (some (c ∷ cs)) = some (encode (c ∷ cs))
  discriminator_bytes _ = none

  unfoldable pub encode_append : ℕ → ℕ → Bytes → Option Bytes → Option Str → Result Bytes
  encode_append session_id expected_offset body metadata discriminator =
      let named = discriminator_bytes discriminator in
      let size = 8 + 8 + 4 + length body + 1 + sized_room metadata + 1 + sized_room named in
      write_append session_id expected_offset body metadata named (fresh size) >>= λ c. ok c.buffer

  unfoldable pub write_strings : List Str → Cursor → Result Cursor
  write_strings [] w = ok w
  write_strings (s ∷ values) w = write_string s w >>= write_strings values

  unfoldable pub encode_stream_filter_clause : StreamFilterClause → Cursor → Result Cursor
  encode_stream_filter_clause (equals value) w = write_u8 0 w >>= write_string value
  encode_stream_filter_clause (not_equals value) w = write_u8 1 w >>= write_string value
  encode_stream_filter_clause (starts_with value) w = write_u8 2 w >>= write_string value
  encode_stream_filter_clause (any_of values) w = do
    w ← write_u8 3 w
    w ← write_u32_be (length values) w
    write_strings values w

  unfoldable pub write_clauses : List StreamFilterClause → Cursor → Result Cursor
  write_clauses [] w = ok w
  write_clauses (clause ∷ clauses) w =
      encode_stream_filter_clause clause w >>= write_clauses clauses

  unfoldable pub encode_stream_filter_set : List StreamFilterClause → Cursor → Result Cursor
  encode_stream_filter_set clauses w = do
    w ← write_u8 0 w
    w ← write_u8 241 w
    w ← write_u32_be (length clauses) w
    write_clauses clauses w

  -- `filter !== undefined && filter.clauses.length > 0`, and the writer's bytes.
  unfoldable pub filter_bytes_of : Option (List StreamFilterClause) → Result (Option Bytes)
  filter_bytes_of (some (clause ∷ clauses)) = do
    w ← encode_stream_filter_set (clause ∷ clauses) (new_writer 64)
    ok (some (get_buffer w))
  filter_bytes_of _ = ok none

  unfoldable pub encode_read : Str → ℕ → ℕ → StreamWireReadOptions → Result Bytes
  encode_read route start_offset limit options = do
    route_bytes ← get_route_encoding route
    filter_bytes ← filter_bytes_of options.filter
    c ←
        write_read route_bytes start_offset limit options.max_bytes filter_bytes
          options.cursor_fingerprint options.captured_watermark
          (fresh (
            length route_bytes
            + 8
            + 8
            + 1
            + value_room options.max_bytes
            + 1
            + sized_room filter_bytes
            + 1
            + value_room options.cursor_fingerprint
            + 1
            + value_room options.captured_watermark))
    ok c.buffer

  unfoldable pub encode_subscribe : Str → Result Bytes
  encode_subscribe pattern_route = do
    route_bytes ← get_route_encoding pattern_route
    w ← write_bytes route_bytes (new_writer 128)
    ok (get_buffer w)
