-- ===== src/Domains/Stream.antt =====
-- src/domains/stream/codec.ts: the responses and notifications of the stream domain. A field that is
-- null or undefined is `none`, and a record's offset on an axis that the selector lacks too.
pub mod Requests
pub mod Records
pub mod Pages
pub mod Concrete
pub mod Replies
use fitz_ts.Base.{
  ℕ, zero, suc, List, [], ◌∷◌, ◌++◌, length, Option, some, none, Bool, true, false, ltb, ◌==◌, not,
  ◌&&◌, ◌||◌, if◌then◌else◌, Result, ok, err, Error, stream_error, plain_error,
}
use fitz_ts.Bytes.{Bytes}
use fitz_ts.Buffer.Text.{Utf8, Str}
use fitz_ts.Buffer.Reader.{
  Reader, Read, ◌>>=◌, ◌>>◌, pure, throw, throw_if, lift, read_u8, read_u32_be, read_u64_be,
  read_bytes, read_string, read_optional_u64, run_reader, remaining_bytes, throw_unless_eof,
}
use fitz_ts.Response.{parse_standard_response}
use fitz_ts.Routes.Shape.{is_route_shape}
use fitz_ts.Routes.Selectors.{stream_scheme, is_stream_selector_shape, is_global_selector}
use fitz_ts.Domains.Kv.{Failure, on_response}

pub record StreamRecord : Type 0 where
  pub route : Str
  pub offset : ℕ
  pub timestamp : ℕ
  pub body : Bytes
  pub area_offset : Option ℕ
  pub realm_offset : Option ℕ
  pub global_offset : Option ℕ
  pub metadata : Option Bytes

pub data StreamFilteredReason : Type 0 where
  server_filter permission projection : StreamFilteredReason

pub data StreamReadItem : Type 0 where
  event : (route : Str) → StreamRecord → StreamReadItem
  filtered : (route : Str) (offset : ℕ) → Option StreamFilteredReason → StreamReadItem
  filtered_range :
      (route : Str) (from_offset to_offset : ℕ) → Option StreamFilteredReason → StreamReadItem

pub record StreamReadCursor : Type 0 where
  pub last_resource_offset : ℕ
  pub last_area_offset : Option ℕ
  pub last_realm_offset : Option ℕ
  pub last_global_offset : Option ℕ
  pub has_more : Bool
  pub cursor_fingerprint : Option ℕ
  pub captured_watermark : Option ℕ

-- `status` 0 with what was read, or `status` 1 with the code and the rest of the failure.
pub data StreamReply (A : Type 0) : Type 0 where
  replied : A → StreamReply A
  refused : ℕ → Failure → StreamReply A

pub record StreamReadPage : Type 0 where
  pub items : List StreamReadItem
  pub cursor : Option StreamReadCursor

pub record StreamMetadata : Type 0 where
  pub first_offset : ℕ
  pub last_offset : ℕ
  pub record_count : ℕ
  pub max_batch_events : ℕ
  pub max_batch_bytes : ℕ
  pub ttl_seconds : Option ℕ
  pub area_watermark : ℕ
  pub realm_watermark : ℕ

pub record StreamNotification : Type 0 where
  pub sub_id : ℕ
  pub route : Str
  pub raw_payload : Bytes

unfoldable pub read_optional_bytes : Read (Option Bytes)
read_optional_bytes = do
  has_value ← read_u8
  if not (has_value == 1)
      then pure none
      else do count ← read_u32_be; bytes ← read_bytes count; pure (some bytes)

-- `extended ? reader.readOptionalU64() : undefined`
unfoldable pub read_global : Bool → Read (Option ℕ)
read_global true = read_optional_u64
read_global false = pure none

unfoldable pub decode_stream_record : Str → Bool → Read StreamRecord
decode_stream_record route extended = do
  offset ← read_u64_be
  area_offset ← read_optional_u64
  realm_offset ← read_optional_u64
  global_offset ← read_global extended
  body_length ← read_u32_be
  body ← read_bytes body_length
  metadata ← read_optional_bytes
  timestamp ← read_u64_be
  pure (record {
    route = route;
    offset = offset;
    timestamp = timestamp;
    body = body;
    area_offset = area_offset;
    realm_offset = realm_offset;
    global_offset = global_offset;
    metadata = metadata;
  })

abbrev pub reason_of : ℕ → Read (Option StreamFilteredReason)
reason_of tag =
    if tag == 0
    then pure none
    else if tag == 1
    then pure (some server_filter)
    else if tag == 2
    then pure (some permission)
    else if tag == 3
    then pure (some projection)
    else throw (plain_error "unknown stream filtered reason tag")

unfoldable pub decode_stream_filtered_reason : Read (Option StreamFilteredReason)
decode_stream_filtered_reason = read_u8 >>= reason_of

unfoldable pub read_event : Str → Bool → Read StreamReadItem
read_event route extended = decode_stream_record route extended >>= λ r. pure (event route r)

unfoldable pub read_filtered : Str → Read StreamReadItem
read_filtered route = do
  offset ← read_u64_be
  reason ← decode_stream_filtered_reason
  pure (filtered route offset reason)

unfoldable pub read_filtered_range : Str → Read StreamReadItem
read_filtered_range route = do
  from_offset ← read_u64_be
  to_offset ← read_u64_be
  reason ← decode_stream_filtered_reason
  pure (filtered_range route from_offset to_offset reason)

abbrev pub item_of : Str → Bool → ℕ → Read StreamReadItem
item_of route extended tag =
    if tag == 0
    then read_event route extended
    else if tag == 1
    then read_filtered route
    else if tag == 2
    then read_filtered_range route
    else throw (plain_error "unknown stream read item tag")

unfoldable pub decode_stream_read_item : Str → Bool → Read StreamReadItem
decode_stream_read_item route extended = read_u8 >>= item_of route extended

unfoldable pub flatten_stream_read_items : List StreamReadItem → List StreamRecord
flatten_stream_read_items [] = []
flatten_stream_read_items (event route r ∷ items) = r ∷ flatten_stream_read_items items
flatten_stream_read_items (filtered route offset reason ∷ items) = flatten_stream_read_items items
flatten_stream_read_items (filtered_range route from to reason ∷ items) =
    flatten_stream_read_items items

-- The checks on the flag and on the end, and the cursor.
abbrev pub cursor_of :
    ℕ → Option ℕ → Option ℕ → Option ℕ → Bool → Option ℕ → Option ℕ → StreamReadCursor
cursor_of resource area realm global more fingerprint watermark = record {
  last_resource_offset = resource;
  last_area_offset = area;
  last_realm_offset = realm;
  last_global_offset = global;
  has_more = more;
  cursor_fingerprint = fingerprint;
  captured_watermark = watermark;
}

unfoldable pub read_cursor : Bool → Read StreamReadCursor
read_cursor extended = do
  last_resource_offset ← read_u64_be
  last_area_offset ← read_optional_u64
  last_realm_offset ← read_optional_u64
  last_global_offset ← read_global extended
  has_more_flag ← read_u8
  throw_if (not (has_more_flag == 0) && not (has_more_flag == 1))
      (stream_error "READ response has an invalid hasMore flag")
  cursor_fingerprint ← read_global extended
  captured_watermark ← read_global extended
  pure (
      cursor_of last_resource_offset last_area_offset last_realm_offset last_global_offset
        (has_more_flag == 1) cursor_fingerprint captured_watermark)

abbrev pub no_items : StreamReadPage
no_items = record { items = []; cursor = none }

abbrev pub reply : {A : Type 0} → Result A → Result (StreamReply A)
reply (ok a) = ok (replied a)
reply (err e) = err e

module _ ⦃u : Utf8⦄ where
  abbrev pub item_on : Bool → Str → Read StreamReadItem
  item_on extended concrete_route =
      throw_if (not (is_route_shape concrete_route stream_scheme 3 false))
        (stream_error "READ response contains invalid concrete stream route")
      >> decode_stream_read_item concrete_route extended

  unfoldable pub read_item : Bool → Read StreamReadItem
  read_item extended = read_string >>= item_on extended

  unfoldable pub read_items : Bool → ℕ → Read (List StreamReadItem)
  read_items extended zero = pure []
  read_items extended (suc count) = do
    item ← read_item extended
    items ← read_items extended count
    pure (item ∷ items)

  abbrev pub with_cursor : Bool → List StreamReadItem → Read StreamReadPage
  with_cursor extended items = do
    cursor ← read_cursor extended
    throw_unless_eof (plain_error "READ response has trailing bytes")
    pure (record { items = items; cursor = some cursor })

  unfoldable pub read_page : Bool → Read StreamReadPage
  read_page extended = do
    count ← read_u32_be
    items ← read_items extended count
    with_cursor extended items

  -- The page is read by a reader of its own.
  abbrev pub page_of : Bool → ℕ → Read StreamReadPage
  page_of extended data_length r =
      (throw_if (not (data_length == remaining_bytes r))
            (stream_error "READ response has invalid payload length")
          >> (read_bytes data_length >>= λ bytes. lift (run_reader (read_page extended) bytes)))
        r

  unfoldable pub read_envelope : Bool → Read StreamReadPage
  read_envelope extended = do
    flag ← read_u8
    throw_if (not (flag == 0)) (stream_error "READ response has invalid session flag")
    data_length ← read_u32_be
    page_of extended data_length

  abbrev pub read_bytes_of : Bool → Bytes → Result StreamReadPage
  read_bytes_of extended [] = ok no_items
  read_bytes_of extended (b ∷ bs) = run_reader (read_envelope extended) (b ∷ bs)

  abbrev pub decode_page : Str → Bytes → Result (StreamReply StreamReadPage)
  decode_page selector bytes =
      if not (is_stream_selector_shape selector)
      then err (stream_error "READ response requires a canonical stream selector")
      else reply (read_bytes_of (is_global_selector selector) bytes)

  unfoldable pub decode_read_response :
      Bytes → (selector : Str) → Result (StreamReply StreamReadPage)
  decode_read_response payload selector =
      on_response refused (decode_page selector) (parse_standard_response payload)
