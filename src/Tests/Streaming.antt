-- ===== src/Tests/Streaming.antt =====
-- Pages of a stream on concrete inputs, and a request with a filter.
use fitz_ts.Base.{◌≡◌, refl, List, [], ◌∷◌, ◌++◌, length, All, some, none, true, false, ok, arith}
use fitz_ts.Bytes.{Bytes, be}
use fitz_ts.Buffer.Text.{Str}
use fitz_ts.Buffer.Writer.Strings.{string_bytes}
use fitz_ts.Routes.Selectors.{stream_scheme, is_global_selector, is_stream_selector_shape}
use fitz_ts.Domains.Stream.{
  StreamReadItem, event, filtered, filtered_range, StreamReadCursor, permission, replied,
  decode_read_response,
}
use fitz_ts.Domains.Stream.Pages.{IsWireCursor, page_bytes, decode_read_response_layout}
use fitz_ts.Buffer.Reader.Values.{IsWireText}
use fitz_ts.Routes.Shape.{is_route_shape}
use fitz_ts.Domains.Stream.Records.{IsWireItem}
use fitz_ts.Domains.Stream.Concrete.{IsConcrete, decode_read_response-IsConcrete}
use fitz_ts.Domains.Stream.Requests.{StreamWireReadOptions, equals, any_of, encode_read}
use fitz_ts.Domains.Stream.Requests.Layout.{read_fields, encode_read_layout}
use fitz_ts.Tests.Ascii.{ascii}

-- "stream://a/b/c"
abbrev route : Str
route = stream_scheme ++ (58 ∷ 47 ∷ 47 ∷ 97 ∷ 47 ∷ 98 ∷ 47 ∷ 99 ∷ [])

abbrev items : List StreamReadItem
items =
    event route (record {
      route = route;
      offset = 4;
      timestamp = 1700;
      body = 1 ∷ 2 ∷ [];
      area_offset = some 9;
      realm_offset = none;
      global_offset = none;
      metadata = some (7 ∷ []);
    })
    ∷ filtered route 5 (some permission)
    ∷ filtered_range route 6 8 none
    ∷ []

abbrev cursor : StreamReadCursor
cursor = record {
  last_resource_offset = 8;
  last_area_offset = some 13;
  last_realm_offset = none;
  last_global_offset = none;
  has_more = true;
  cursor_fingerprint = none;
  captured_watermark = none;
}

route-IsWireText : IsWireText route
route-IsWireText = record { text = ground arith; short = omega arith }

route_concrete : is_route_shape route stream_scheme 3 false ≡ true
unfolding is_route_shape fitz_ts.Routes.Shape.path_start fitz_ts.Routes.Size.wire_size_is_valid
    fitz_ts.Routes.Size.count_bytes fitz_ts.Routes.Shape.strip_prefix
    fitz_ts.Routes.Shape.scan_concrete fitz_ts.Routes.Shape.scan_concrete_from
    fitz_ts.Routes.Shape.contains_asterisk
route_concrete = refl

not_global : is_global_selector route ≡ false
unfolding is_global_selector fitz_ts.Routes.Selectors.classify_stream_selector_scope
    fitz_ts.Routes.Shape.path_start fitz_ts.Routes.Size.wire_size_is_valid
    fitz_ts.Routes.Size.count_bytes fitz_ts.Routes.Shape.strip_prefix fitz_ts.Routes.Segments.str_eq
    fitz_ts.Routes.Selectors.scope_of_segments fitz_ts.Routes.Segments.split_slash
    fitz_ts.Routes.Segments.split_from fitz_ts.Routes.Shape.contains_asterisk
not_global = refl

canonical : is_stream_selector_shape route ≡ true
unfolding is_stream_selector_shape fitz_ts.Routes.Selectors.classify_stream_selector_scope
    fitz_ts.Routes.Shape.path_start fitz_ts.Routes.Size.wire_size_is_valid
    fitz_ts.Routes.Size.count_bytes fitz_ts.Routes.Shape.strip_prefix fitz_ts.Routes.Segments.str_eq
    fitz_ts.Routes.Selectors.scope_of_segments fitz_ts.Routes.Segments.split_slash
    fitz_ts.Routes.Segments.split_from fitz_ts.Routes.Shape.contains_asterisk
canonical = refl

items-IsWireItem : All (IsWireItem false) items
items-IsWireItem = (
  record {
    text = route-IsWireText;
    concrete = route_concrete;
    fields = (
      refl,
      record {
        offset = omega arith;
        area = omega arith;
        realm = tt;
        global = refl;
        body = omega arith;
        metadata = omega arith;
        timestamp = omega arith;
      },
    );
  },
  (
    record { text = route-IsWireText; concrete = route_concrete; fields = omega arith },
    (
      record {
        text = route-IsWireText;
        concrete = route_concrete;
        fields = (omega arith, omega arith);
      },
      tt,
    ),
  ),
)

cursor-IsWireCursor : IsWireCursor false cursor
cursor-IsWireCursor = record {
  resource = omega arith;
  area = omega arith;
  realm = tt;
  whole = refl;
  fingerprint = refl;
  watermark = refl;
}

abbrev page : Bytes
page = page_bytes false items cursor

decode_read_response_layout_example :
    decode_read_response (0 ∷ 0 ∷ (be 4 (length page) ++ page)) route
    ≡ ok (replied (record { items = items; cursor = some cursor }))
unfolding is_global_selector fitz_ts.Routes.Selectors.classify_stream_selector_scope
    fitz_ts.Routes.Shape.path_start fitz_ts.Routes.Size.wire_size_is_valid
    fitz_ts.Routes.Size.count_bytes fitz_ts.Routes.Shape.strip_prefix fitz_ts.Routes.Segments.str_eq
    fitz_ts.Routes.Selectors.scope_of_segments fitz_ts.Routes.Segments.split_slash
    fitz_ts.Routes.Segments.split_from fitz_ts.Routes.Shape.contains_asterisk
decode_read_response_layout_example =
    decode_read_response_layout route items cursor canonical (omega arith) items-IsWireItem
      cursor-IsWireCursor (omega arith)

decode_read_response-IsConcrete_example : All IsConcrete items
decode_read_response-IsConcrete_example =
    decode_read_response-IsConcrete (0 ∷ 0 ∷ (be 4 (length page) ++ page)) route
      (record { items = items; cursor = some cursor }) decode_read_response_layout_example

abbrev options : StreamWireReadOptions
options = record {
  max_bytes = some 4096;
  filter = some (equals (97 ∷ []) ∷ any_of ((98 ∷ []) ∷ (99 ∷ []) ∷ []) ∷ []);
  cursor_fingerprint = none;
  captured_watermark = some 77;
}

encode_read_layout_example :
    encode_read route 5 100 options ≡ ok (string_bytes route ++ read_fields 5 100 options)
encode_read_layout_example = encode_read_layout route 5 100 options (omega arith)
