-- ===== src/Domains/Stream/Requests/Layout.antt =====
-- src/domains/stream/codec.ts: the layout of the requests. Each fills its array exactly.
use fitz_ts.Base.{
  ℕ, ◌+◌, ◌≤◌, ◌≡◌, refl, ap, ◌∙◌, arith, List, [], ◌∷◌, ◌++◌, length, length-append, append-nil,
  Option, some, none, ok, ◌>>=◌, >>=-ok,
}
use fitz_ts.Bytes.{Bytes, be}
use fitz_ts.Bytes.Laws.{length-be}
use fitz_ts.Buffer.Text.{Utf8, Str}
use fitz_ts.Buffer.Cursor.{poke, blit, write_u64_be_at, write_u64_be_number_at, max_safe_integer}
use fitz_ts.Buffer.Cursor.Laws.{
  Fills, Fills-then, Fills-fresh, blit-Fills, pokes-Fills, write_u64_be_number_at-pokes,
}
use fitz_ts.Buffer.Writer.{new_writer, write_u8, write_u32_be, write_string, get_buffer}
use fitz_ts.Buffer.Writer.Laws.{Appends, Appends-then, new_writer-Written, get_buffer-Written}
use fitz_ts.Buffer.Writer.Appends.{write_u8-Appends, write_u32_be-Appends, write_u64_be_at-Fills}
use fitz_ts.Buffer.Writer.Strings.{string_bytes, write_string-Appends}
use fitz_ts.Domains.Kv.Requests.{write_sized, write_sized-Fills, get_route_encoding-string_bytes}
use fitz_ts.Domains.Stream.Records.{optional, optional_sized}
use fitz_ts.Domains.Stream.Requests.{
  StreamFilterClause, equals, not_equals, starts_with, any_of, StreamWireReadOptions,
  write_optional_sized, write_optional_at, sized_room, value_room, write_append, write_read,
  discriminator_bytes, encode_append, write_strings, encode_stream_filter_clause, write_clauses,
  encode_stream_filter_set, filter_bytes_of, encode_read,
}

poke-Fills : (b : ℕ) → Fills (λ c. ok (poke b c)) (b ∷ [])
poke-Fills b = pokes-Fills (b ∷ [])

write_optional_at-Fills : (o : Option ℕ) → Fills (write_optional_at o) (optional o)
unfolding write_optional_at
write_optional_at-Fills none = poke-Fills 0
write_optional_at-Fills (some v) =
    Fills-then (λ c. ok (poke 1 c)) (λ c. ok (write_u64_be_at v c)) (1 ∷ []) (be 8 v) (poke-Fills 1)
      (write_u64_be_at-Fills v)

length-optional : (o : Option ℕ) → length (optional o) ≡ 1 + value_room o
length-optional none = refl
length-optional (some v) = refl

length-optional_sized : (o : Option Bytes) → length (optional_sized o) ≡ 1 + sized_room o
length-optional_sized none = refl
length-optional_sized (some bs) =
    omega (arith, length-append (be 4 (length bs)) bs, length-be 4 (length bs))

write_u64_be_number_at-Fills :
    (v : ℕ) → v ≤ max_safe_integer → Fills (write_u64_be_number_at v) (be 8 v)
write_u64_be_number_at-Fills v h c done old room e k =
    let (c', run, holds) = pokes-Fills (be 8 v) c done old room e k in
    (c', write_u64_be_number_at-pokes v c h ∙ run, holds)

-- What comes out of a discriminator: none and an empty one are the same.
abbrev pub filled : Option Str → Option Str
filled (some (c ∷ cs)) = some (c ∷ cs)
filled _ = none

module _ ⦃u : Utf8⦄ where
  open u use {encode}

  write_optional_sized-Fills :
      (o : Option Bytes) → Fills (write_optional_sized o) (optional_sized o)
  unfolding write_optional_sized
  write_optional_sized-Fills none = poke-Fills 0
  write_optional_sized-Fills (some bs) =
      Fills-then (λ c. ok (poke 1 c)) (write_sized bs) (1 ∷ []) (be 4 (length bs) ++ bs)
        (poke-Fills 1) (write_sized-Fills bs)

  -- APPEND is the session, the expected offset and the body behind its length, and then the metadata
  -- and the discriminator, each a flag and, if it is there and the discriminator is not empty, its
  -- length and its bytes; it fills its array exactly.
  pub encode_append_layout :
      (session_id expected_offset : ℕ) (body : Bytes) (metadata : Option Bytes)
      (discriminator : Option Str)
      → encode_append session_id expected_offset body metadata discriminator
        ≡ ok (
            (be 8 session_id ++ (be 8 expected_offset ++ (be 4 (length body) ++ body)))
            ++ (optional_sized metadata ++ optional_sized (discriminator_bytes discriminator)))
  unfolding encode_append write_append
  encode_append_layout s e body metadata d =
      let named = discriminator_bytes d in
      let front = be 8 s ++ (be 8 e ++ (be 4 (length body) ++ body)) in
      Fills-fresh (write_append s e body metadata named)
        (front ++ (optional_sized metadata ++ optional_sized named))
        (8 + 8 + 4 + length body + 1 + sized_room metadata + 1 + sized_room named)
        (Fills-then (λ c. write_sized body (write_u64_be_at e (write_u64_be_at s c))) _ front
          (optional_sized metadata ++ optional_sized named)
          (Fills-then (λ c. ok (write_u64_be_at s c)) _ (be 8 s)
            (be 8 e ++ (be 4 (length body) ++ body)) (write_u64_be_at-Fills s)
            (Fills-then (λ c. ok (write_u64_be_at e c)) (write_sized body) (be 8 e)
              (be 4 (length body) ++ body) (write_u64_be_at-Fills e) (write_sized-Fills body)))
          (Fills-then (write_optional_sized metadata) (write_optional_sized named)
            (optional_sized metadata) (optional_sized named) (write_optional_sized-Fills metadata)
            (write_optional_sized-Fills named)))
        (omega (
          arith,
          length-append front (optional_sized metadata ++ optional_sized named),
          length-append (optional_sized metadata) (optional_sized named),
          length-optional_sized metadata,
          length-optional_sized named,
        ))

  abbrev pub strings_bytes : List Str → Bytes
  strings_bytes [] = []
  strings_bytes (s ∷ values) = string_bytes s ++ strings_bytes values

  -- The kind of a clause, and its texts.
  abbrev pub clause_bytes : StreamFilterClause → Bytes
  clause_bytes (equals value) = 0 ∷ string_bytes value
  clause_bytes (not_equals value) = 1 ∷ string_bytes value
  clause_bytes (starts_with value) = 2 ∷ string_bytes value
  clause_bytes (any_of values) = 3 ∷ (be 4 (length values) ++ strings_bytes values)

  abbrev pub clauses_bytes : List StreamFilterClause → Bytes
  clauses_bytes [] = []
  clauses_bytes (clause ∷ clauses) = clause_bytes clause ++ clauses_bytes clauses

  -- A filter without clauses is not sent.
  abbrev pub filter_layout : Option (List StreamFilterClause) → Option Bytes
  filter_layout (some (clause ∷ clauses)) =
      some (0 ∷ 241 ∷ (be 4 (length (clause ∷ clauses)) ++ clauses_bytes (clause ∷ clauses)))
  filter_layout _ = none

  done-Appends : Appends (λ w. ok w) []
  done-Appends w done written = (w, refl, rw append-nil written)

  write_strings-Appends :
      (values : List Str) → Appends (write_strings values) (strings_bytes values)
  unfolding write_strings
  write_strings-Appends [] = done-Appends
  write_strings-Appends (s ∷ values) =
      Appends-then (write_string s) (write_strings values) (string_bytes s) (strings_bytes values)
        (write_string-Appends s) (write_strings-Appends values)

  clause-Appends :
      (clause : StreamFilterClause)
      → Appends (encode_stream_filter_clause clause) (clause_bytes clause)
  unfolding encode_stream_filter_clause
  clause-Appends (equals value) =
      Appends-then (write_u8 0) (write_string value) (0 ∷ []) (string_bytes value)
        (write_u8-Appends 0) (write_string-Appends value)
  clause-Appends (not_equals value) =
      Appends-then (write_u8 1) (write_string value) (1 ∷ []) (string_bytes value)
        (write_u8-Appends 1) (write_string-Appends value)
  clause-Appends (starts_with value) =
      Appends-then (write_u8 2) (write_string value) (2 ∷ []) (string_bytes value)
        (write_u8-Appends 2) (write_string-Appends value)
  clause-Appends (any_of values) =
      Appends-then (write_u8 3) (λ w. write_u32_be (length values) w >>= write_strings values)
        (3 ∷ []) (be 4 (length values) ++ strings_bytes values) (write_u8-Appends 3)
        (Appends-then (write_u32_be (length values)) (write_strings values) (be 4 (length values))
          (strings_bytes values) (write_u32_be-Appends (length values))
          (write_strings-Appends values))

  clauses-Appends :
      (clauses : List StreamFilterClause) → Appends (write_clauses clauses) (clauses_bytes clauses)
  unfolding write_clauses
  clauses-Appends [] = done-Appends
  clauses-Appends (clause ∷ clauses) =
      Appends-then (encode_stream_filter_clause clause) (write_clauses clauses)
        (clause_bytes clause) (clauses_bytes clauses) (clause-Appends clause)
        (clauses-Appends clauses)

  set-Appends :
      (clauses : List StreamFilterClause)
      → Appends
          (encode_stream_filter_set clauses)
          (0 ∷ 241 ∷ (be 4 (length clauses) ++ clauses_bytes clauses))
  unfolding encode_stream_filter_set
  set-Appends clauses =
      let n = be 4 (length clauses) in
      Appends-then (write_u8 0) _ (0 ∷ []) (241 ∷ (n ++ clauses_bytes clauses)) (write_u8-Appends 0)
        (Appends-then (write_u8 241) _ (241 ∷ []) (n ++ clauses_bytes clauses)
          (write_u8-Appends 241)
          (Appends-then (write_u32_be (length clauses)) (write_clauses clauses) n
            (clauses_bytes clauses) (write_u32_be-Appends (length clauses))
            (clauses-Appends clauses)))

  filter_bytes_of_lem :
      (filter : Option (List StreamFilterClause))
      → filter_bytes_of filter ≡ ok (filter_layout filter)
  unfolding filter_bytes_of
  filter_bytes_of_lem none = refl
  filter_bytes_of_lem (some []) = refl
  filter_bytes_of_lem (some (clause ∷ clauses)) =
      let (w, run, written) =
        set-Appends (clause ∷ clauses) (new_writer 64) [] (new_writer-Written 64) in
      >>=-ok (encode_stream_filter_set (clause ∷ clauses) (new_writer 64))
        (λ w. ok (some (get_buffer w))) w run
        (ap (λ bs. ok (some bs)) (get_buffer-Written w _ written))

  -- The fields that follow the route of a READ.
  abbrev pub read_fields : ℕ → ℕ → StreamWireReadOptions → Bytes
  read_fields start_offset limit options =
      be 8 start_offset
      ++ (be 8 limit
          ++ (optional options.max_bytes
              ++ (optional_sized (filter_layout options.filter)
                  ++ (optional options.cursor_fingerprint ++ optional options.captured_watermark))))

  write_read-Fills :
      (route_bytes : Bytes) (start_offset limit : ℕ) (options : StreamWireReadOptions)
      → limit ≤ max_safe_integer
      → Fills
          (write_read route_bytes start_offset limit options.max_bytes
            (filter_layout options.filter)
            options.cursor_fingerprint
            options.captured_watermark)
          (route_bytes ++ read_fields start_offset limit options)
  unfolding write_read
  write_read-Fills rs start limit o h =
      let marks = optional o.cursor_fingerprint ++ optional o.captured_watermark in
      let filter = filter_layout o.filter in
      Fills-then (blit rs) _ rs (read_fields start limit o) (blit-Fills rs) (
        Fills-then (λ c. ok (write_u64_be_at start c)) _ (be 8 start)
          (be 8 limit ++ (optional o.max_bytes ++ (optional_sized filter ++ marks)))
          (write_u64_be_at-Fills start)
          (Fills-then (write_u64_be_number_at limit) _ (be 8 limit)
            (optional o.max_bytes ++ (optional_sized filter ++ marks))
            (write_u64_be_number_at-Fills limit h)
            (Fills-then (write_optional_at o.max_bytes) _ (optional o.max_bytes)
              (optional_sized filter ++ marks) (write_optional_at-Fills o.max_bytes)
              (Fills-then (write_optional_sized filter) _ (optional_sized filter) marks
                (write_optional_sized-Fills filter)
                (Fills-then (write_optional_at o.cursor_fingerprint)
                  (write_optional_at o.captured_watermark) (optional o.cursor_fingerprint)
                  (optional o.captured_watermark) (write_optional_at-Fills o.cursor_fingerprint)
                  (write_optional_at-Fills o.captured_watermark))))))

  length-read_fields :
      (start_offset limit : ℕ) (o : StreamWireReadOptions)
      → length (read_fields start_offset limit o)
        ≡ 8
          + 8
          + 1
          + value_room o.max_bytes
          + 1
          + sized_room (filter_layout o.filter)
          + 1
          + value_room o.cursor_fingerprint
          + 1
          + value_room o.captured_watermark
  length-read_fields start limit o =
      let marks = optional o.cursor_fingerprint ++ optional o.captured_watermark in
      let filter = optional_sized (filter_layout o.filter) in
      omega (
        arith,
        length-append (optional o.max_bytes) (filter ++ marks),
        length-append filter marks,
        length-append (optional o.cursor_fingerprint) (optional o.captured_watermark),
        length-optional o.max_bytes,
        length-optional_sized (filter_layout o.filter),
        length-optional o.cursor_fingerprint,
        length-optional o.captured_watermark,
      )

  -- READ with a limit that is a safe integer is the route, the start, the limit, and the limit of
  -- bytes, the filter, the fingerprint and the watermark, each a flag and, if it is there, its
  -- bytes; the filter's clauses come in order, behind its marker, their number and its length; the
  -- array is filled exactly.
  pub encode_read_layout :
      (route : Str) (start_offset limit : ℕ) (options : StreamWireReadOptions)
      → limit ≤ max_safe_integer
      → encode_read route start_offset limit options
        ≡ ok (string_bytes route ++ read_fields start_offset limit options)
  unfolding encode_read
  encode_read_layout route start limit o h =
      let rs = string_bytes route in
      >>=-ok _ _ rs (get_route_encoding-string_bytes route) (
        >>=-ok _ _ (filter_layout o.filter) (filter_bytes_of_lem o.filter) (
          Fills-fresh _ (rs ++ read_fields start limit o) _ (write_read-Fills rs start limit o h) (
            omega (
              arith,
              length-append rs (read_fields start limit o),
              length-read_fields start limit o,
            ))))
