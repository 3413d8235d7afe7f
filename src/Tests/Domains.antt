-- ===== src/Tests/Domains.antt =====
-- The codecs of the domains on small payloads.
use fitz_ts.Base.{◌≡◌, arith, List, [], ◌∷◌, ◌++◌, none, true, ok}
use fitz_ts.Bytes.{be}
use fitz_ts.Buffer.Text.{Str}
use fitz_ts.Buffer.Writer.Strings.{string_bytes}
use fitz_ts.Buffer.Reader.Values.{IsWireText}
use fitz_ts.Domains.Kv.{Entry, KvNotification, decode_scan_response, decode_notification}
use fitz_ts.Domains.Kv.Layout.{
  entries_bytes, flag, decode_scan_response_layout, decode_notification_layout,
}
use fitz_ts.Domains.Kv.Requests.{encode_get, encode_put, encode_get_layout, encode_put_layout}
use fitz_ts.Tests.Ascii.{ascii}

abbrev entries : List Entry
entries = record { key = 1 ∷ []; value = 7 ∷ 8 ∷ [] } ∷ record { key = 2 ∷ 3 ∷ []; value = [] } ∷ []

decode_scan_response_layout_run :
    decode_scan_response (0 ∷ (be 4 2 ++ (entries_bytes entries ++ flag true ∷ [])))
    ≡ ok (record { status = 0; entries = entries; has_more = true; failed = none })
decode_scan_response_layout_run =
    decode_scan_response_layout entries true (omega arith) (omega arith)

-- "kv://a"
abbrev route : Str
route = 107 ∷ 118 ∷ 58 ∷ 47 ∷ 47 ∷ 97 ∷ []

route-IsWireText : IsWireText route
route-IsWireText = record { text = ground arith; short = omega arith }

abbrev notification : KvNotification
notification = record { sub_id = 12; route = route; mutation_count = 3 }

decode_notification_run :
    decode_notification (be 8 12 ++ (string_bytes route ++ be 8 3)) ≡ ok notification
decode_notification_run =
    decode_notification_layout notification (omega arith) (omega arith) route-IsWireText

encode_put_run :
    encode_put 5 route (1 ∷ []) (7 ∷ 8 ∷ [])
    ≡ ok (((be 8 5 ++ string_bytes route) ++ (be 4 1 ++ 1 ∷ [])) ++ (be 4 2 ++ 7 ∷ 8 ∷ []))
encode_put_run = encode_put_layout 5 route (1 ∷ []) (7 ∷ 8 ∷ [])

encode_get_run :
    encode_get 5 route (1 ∷ []) ≡ ok ((be 8 5 ++ string_bytes route) ++ (be 4 1 ++ 1 ∷ []))
encode_get_run = encode_get_layout 5 route (1 ∷ [])
