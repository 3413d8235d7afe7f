-- ===== src/Domains/Stream/Pages.antt =====
-- src/domains/stream/codec.ts: the response to a READ request, as a page in its layout is read and
-- as whatever the broker sends is.
use fitz_ts.Base.{
  ℕ, ◌^◌, ◌<◌, ◌≡◌, refl, ap, arith, append-nil, List, [], ◌∷◌, ◌++◌, length, length-drop, All,
  Option, some, Bool, true, false, not, ◌&&◌, ◌==◌, if◌then◌else◌, ok, stream_error, plain_error,
}
use fitz_ts.Bytes.{Bytes, be}
use fitz_ts.Buffer.Text.{Utf8, Str}
use fitz_ts.Buffer.Reader.{
  Read, ◌>>=◌, ◌>>◌, pure, advance, throw_if, read_u8, read_u32_be, read_u64_be, read_optional_u64,
  run_reader, remaining_bytes,
}
use fitz_ts.Buffer.Reader.Laws.{Ahead, Reads, Reads-bind, read_u8-Reads}
use fitz_ts.Buffer.Reader.Values.{
  Finishes, Finishes-bind, Finishes-guard, Finishes-eof, Finishes-end, run_reader-Finishes,
  Reads-map, read_u32_be-Reads, read_u64_be-Reads, read_bytes-Reads,
}
use fitz_ts.Response.Laws.{parse_success}
use fitz_ts.Routes.Selectors.{is_stream_selector_shape, is_global_selector}
use fitz_ts.Domains.Stream.{
  StreamReadItem, StreamReadCursor, StreamReadPage, replied, cursor_of, read_global, read_cursor,
  read_items, with_cursor, read_page, page_of, read_envelope, decode_read_response,
}
use fitz_ts.Domains.Stream.Records.{
  optional, IsSmall, global, IsGlobal, read_optional_u64-optional, read_global-global, IsWireItem,
  items_bytes, items-Reads,
}

abbrev pub flag : Bool → ℕ
flag b = if b then 1 else 0

abbrev pub cursor_bytes : Bool → StreamReadCursor → Bytes
cursor_bytes extended c =
    be 8 c.last_resource_offset
    ++ (optional c.last_area_offset
        ++ (optional c.last_realm_offset
            ++ (global extended c.last_global_offset
                ++ (flag c.has_more
                    ∷ (global extended c.cursor_fingerprint
                        ++ global extended c.captured_watermark)))))

-- The numbers of a cursor fit into their fields.
pub record IsWireCursor (extended : Bool) (c : StreamReadCursor) : Type 0 where
  pub resource : c.last_resource_offset < 256 ^ 8
  pub area : IsSmall c.last_area_offset
  pub realm : IsSmall c.last_realm_offset
  pub whole : IsGlobal extended c.last_global_offset
  pub fingerprint : IsGlobal extended c.cursor_fingerprint
  pub watermark : IsGlobal extended c.captured_watermark

tail_of : Bool → ℕ → Option ℕ → Option ℕ → Option ℕ → ℕ → Read StreamReadCursor
tail_of extended resource area realm whole has_more_flag = do
  throw_if (not (has_more_flag == 0) && not (has_more_flag == 1))
      (stream_error "READ response has an invalid hasMore flag")
  cursor_fingerprint ← read_global extended
  captured_watermark ← read_global extended
  pure (
      cursor_of resource area realm whole (has_more_flag == 1) cursor_fingerprint
        captured_watermark)

tail-Reads :
    (extended : Bool) (c : StreamReadCursor)
    → IsWireCursor extended c
    → Reads
        (tail_of extended c.last_resource_offset c.last_area_offset c.last_realm_offset
          c.last_global_offset
          (flag c.has_more))
        (global extended c.cursor_fingerprint ++ global extended c.captured_watermark)
        c
unfolding tail_of
tail-Reads extended c h = cases c.has_more
  where
    with_flag : Bool → StreamReadCursor
    with_flag b = record c { has_more = b }

    fields :
        (b : Bool)
        → Reads
            (read_global extended >>= λ fingerprint. read_global extended >>= λ watermark. pure (
              cursor_of c.last_resource_offset c.last_area_offset c.last_realm_offset
                c.last_global_offset b fingerprint watermark))
            (global extended c.cursor_fingerprint ++ global extended c.captured_watermark)
            (with_flag b)
    fields b =
        Reads-bind (read_global extended) _ (global extended c.cursor_fingerprint)
          (global extended c.captured_watermark) c.cursor_fingerprint (with_flag b)
          (read_global-global extended c.cursor_fingerprint h.fingerprint)
          (Reads-map (read_global extended) (λ w. record (with_flag b) { captured_watermark = w })
            (global extended c.captured_watermark) c.captured_watermark
            (read_global-global extended c.captured_watermark h.watermark))

    cases :
        (b : Bool)
        → Reads
            (tail_of extended c.last_resource_offset c.last_area_offset c.last_realm_offset
              c.last_global_offset
              (flag b))
            (global extended c.cursor_fingerprint ++ global extended c.captured_watermark)
            (with_flag b)
    cases true = fields true
    cases false = fields false

cursor-Reads :
    (extended : Bool) (c : StreamReadCursor)
    → IsWireCursor extended c
    → Reads (read_cursor extended) (cursor_bytes extended c) c
unfolding read_cursor tail_of
cursor-Reads extended c h =
    let after = global extended c.cursor_fingerprint ++ global extended c.captured_watermark in
    Reads-bind read_u64_be _ (be 8 c.last_resource_offset) _ c.last_resource_offset c
      (read_u64_be-Reads c.last_resource_offset h.resource)
      (Reads-bind read_optional_u64 _ (optional c.last_area_offset) _ c.last_area_offset c
        (read_optional_u64-optional c.last_area_offset h.area)
        (Reads-bind read_optional_u64 _ (optional c.last_realm_offset) _ c.last_realm_offset c
          (read_optional_u64-optional c.last_realm_offset h.realm)
          (Reads-bind (read_global extended) _ (global extended c.last_global_offset) _
            c.last_global_offset c (read_global-global extended c.last_global_offset h.whole)
            (Reads-bind read_u8
              (tail_of extended c.last_resource_offset c.last_area_offset c.last_realm_offset
                c.last_global_offset)
              (flag c.has_more ∷ []) after (flag c.has_more) c (read_u8-Reads (flag c.has_more))
              (tail-Reads extended c h)))))

module _ ⦃u : Utf8⦄ where
  -- The number of items, the items and the cursor.
  abbrev pub page_bytes : Bool → List StreamReadItem → StreamReadCursor → Bytes
  page_bytes extended items cursor =
      be 4 (length items) ++ (items_bytes extended items ++ cursor_bytes extended cursor)

  page-Finishes :
      (extended : Bool) (items : List StreamReadItem) (c : StreamReadCursor)
      → length items < 256 ^ 4
      → All (IsWireItem extended) items
      → IsWireCursor extended c
      → Finishes
          (read_page extended)
          (page_bytes extended items c)
          (record { items = items; cursor = some c })
  unfolding read_page
  page-Finishes extended items c few wire h =
      Finishes-bind read_u32_be _ (be 4 (length items)) _ (length items) _
        (read_u32_be-Reads (length items) few)
        (Finishes-bind (read_items extended (length items)) (with_cursor extended)
          (items_bytes extended items) (cursor_bytes extended c) items _
          (items-Reads extended items wire)
          (Finishes-end (read_cursor extended) _ (cursor_bytes extended c) c _
            (cursor-Reads extended c h)
            (Finishes-eof (plain_error "READ response has trailing bytes")
              (record { items = items; cursor = some c }))))

  -- The bytes of a page are handed to a reader of its own.
  page_of-Finishes :
      (extended : Bool) (bytes : Bytes) (page : StreamReadPage)
      → run_reader (read_page extended) bytes ≡ ok page
      → Finishes (page_of extended (length bytes)) bytes page
  unfolding remaining_bytes
  page_of-Finishes extended bytes page e r a =
      let whole : Ahead r (bytes ++ []) = rw append-nil a in
      let same : not (length bytes == remaining_bytes r) ≡ false =
        ground (arith, ap length a.left, length-drop r.offset r.buffer) in
      (advance r (length bytes), rw (same, ◌>>=◌, read_bytes-Reads bytes r [] whole, e))

  -- A page in its layout, behind the success status, is read with all its items, in order, of every
  -- kind, and its cursor, for every canonical selector; the fields on the global axis are there
  -- exactly for a global one.
  pub decode_read_response_layout :
      (selector : Str) (items : List StreamReadItem) (cursor : StreamReadCursor)
      → is_stream_selector_shape selector ≡ true
      → length items < 256 ^ 4
      → All (IsWireItem (is_global_selector selector)) items
      → IsWireCursor (is_global_selector selector) cursor
      → length (page_bytes (is_global_selector selector) items cursor) < 256 ^ 4
      → decode_read_response
          (0
            ∷ 0
            ∷ (be 4 (length (page_bytes (is_global_selector selector) items cursor))
                ++ page_bytes (is_global_selector selector) items cursor))
          selector
        ≡ ok (replied (record { items = items; cursor = some cursor }))
  unfolding decode_read_response read_envelope
  decode_read_response_layout selector items c canonical few wire h short =
      let extended = is_global_selector selector in
      let bytes = page_bytes extended items c in
      let page : StreamReadPage = record { items = items; cursor = some c } in
      let inner : run_reader (read_page extended) bytes ≡ ok page =
        run_reader-Finishes (read_page extended) bytes page
          (page-Finishes extended items c few wire h) in
      let framed = be 4 (length bytes) ++ bytes in
      let outer : run_reader (read_envelope extended) (0 ∷ framed) ≡ ok page =
        run_reader-Finishes (read_envelope extended) (0 ∷ framed) page (
          Finishes-bind read_u8 _ (0 ∷ []) framed 0 page (read_u8-Reads 0) (
            Finishes-guard (not (0 == 0)) (stream_error "READ response has invalid session flag") _
              framed page refl
              (Finishes-bind read_u32_be (page_of extended) (be 4 (length bytes)) bytes
                (length bytes) page (read_u32_be-Reads (length bytes) short)
                (page_of-Finishes extended bytes page inner)))) in
      let parsed = (parse_success (0 ∷ 0 ∷ framed) (0 ∷ framed)).1 refl in
      rw (parsed, canonical, outer)
