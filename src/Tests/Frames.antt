-- ===== src/Tests/Frames.antt =====
-- The frame codec and the control messages on small messages.
use fitz_ts.Base.{◌≡◌, ◌↔◌, refl, arith, List, [], ◌∷◌, ◌++◌, ok, ◌>>=◌, All, ◌↔◌, ◌≤◌}
use mathlib.Core.List.{flatten}
use fitz_ts.Bytes.{Bytes, IsByte, be, get_uint, set_bytes}
use fitz_ts.Buffer.Text.{Str}
use fitz_ts.Buffer.Writer.Strings.{string_bytes}
use fitz_ts.Buffer.Reader.Values.{IsWireText}
use fitz_ts.Frame.Codec.{Frame, encode_frame, frame_bytes, decode_frame, with_correlation}
use fitz_ts.Frame.Codec.Layout.{IsSendable, wire, encode_frame-wire_iff}
use fitz_ts.Frame.Codec.RoundTrip.{
  decode_frame-encode_frame, encode_frame-decode_frame, with_correlation-encode_frame,
}
use fitz_ts.Frame.Parser.{new_parser, feed}
use fitz_ts.Frame.Parser.Chunks.{feed-encode_frame}
use fitz_ts.Frame.Control.{Hello, decode_hello, encode_connect}
use fitz_ts.Frame.Control.Reading.{GoAway, decode_go_away}
use fitz_ts.Frame.Control.Layout.{decode_hello_layout, encode_connect_layout, decode_go_away_layout}
use fitz_ts.Response.{success, failure, parse_standard_response}
use fitz_ts.Response.Laws.{parse_failure, parse_success, parse_failure_known}
use fitz_ts.Tests.Ascii.{ascii}

abbrev request : Frame
request = record { message_type = 0x0102; flags = 1; correlation = 7; payload = 9 ∷ 8 ∷ [] }

abbrev request_bytes : Bytes
request_bytes = 1 ∷ 2 ∷ 1 ∷ 0 ∷ 0 ∷ 0 ∷ 0 ∷ 0 ∷ 0 ∷ 0 ∷ 7 ∷ 0 ∷ 0 ∷ 0 ∷ 2 ∷ 9 ∷ 8 ∷ []

request-IsSendable : IsSendable request
request-IsSendable = record {
  message_type_bound = omega arith;
  flags_bound = omega arith;
  flags_known = refl;
  correlation_bound = omega arith;
  size = omega arith;
}

encode_request : encode_frame request ≡ ok request_bytes
unfolding encode_frame frame_bytes set_bytes
encode_request = refl

decode_request : decode_frame request_bytes 64 ≡ ok request
unfolding decode_frame get_uint
decode_request = refl

request_bytes-IsByte : All IsByte request_bytes
request_bytes-IsByte = ground arith

decode_frame-encode_frame_example : (encode_frame request >>= λ bs. decode_frame bs 64) ≡ ok request
decode_frame-encode_frame_example =
    decode_frame-encode_frame request 64 request-IsSendable (omega arith)

encode_frame-decode_frame_example : encode_frame request ≡ ok request_bytes
encode_frame-decode_frame_example =
    encode_frame-decode_frame request_bytes request 64 request_bytes-IsByte (omega arith)
      decode_request

with_correlation-encode_frame_run :
    (encode_frame request >>= λ bs. with_correlation bs 300)
    ≡ encode_frame (record request { correlation = 300 })
with_correlation-encode_frame_run =
    with_correlation-encode_frame request 300 request-IsSendable (omega arith) (omega arith)

encode_frame-wire_iff_example :
    (encode_frame request ≡ ok request_bytes)
    ↔ (IsSendable request × (request_bytes ≡ wire request))
encode_frame-wire_iff_example = encode_frame-wire_iff request request_bytes

abbrev chunks : List Bytes
chunks =
    (1 ∷ 2 ∷ 1 ∷ 0 ∷ 0 ∷ []) ∷ [] ∷ (0 ∷ 0 ∷ 0 ∷ 0 ∷ 0 ∷ 7 ∷ 0 ∷ 0 ∷ 0 ∷ 2 ∷ 9 ∷ []) ∷ (8 ∷ []) ∷ []

feed-encode_frame_example : feed (new_parser 64) chunks ≡ (new_parser 64, ok (request ∷ []))
unfolding flatten
feed-encode_frame_example =
    feed-encode_frame request 64 chunks request-IsSendable (omega arith) encode_request

abbrev hello : Hello
hello = record {
  version = 3;
  broker_capabilities = 5;
  max_message_bytes = 1048576;
  max_in_flight = 128;
  session_id = 77;
}

decode_hello_run :
    decode_hello (be 2 3 ++ (be 4 5 ++ (be 4 1048576 ++ (be 4 128 ++ be 8 77)))) ≡ ok hello
decode_hello_run =
    decode_hello_layout hello (omega arith) (omega arith) (omega arith) (omega arith) (omega arith)

-- "bye"
abbrev bye : Str
bye = 98 ∷ 121 ∷ 101 ∷ []

bye-IsWireText : IsWireText bye
bye-IsWireText = record { text = ground arith; short = omega arith }

encode_connect_run :
    encode_connect bye bye []
    ≡ ok (
        be 2 3
        ++ (be 2 3 ++ (be 4 0 ++ (string_bytes bye ++ (string_bytes bye ++ string_bytes [])))))
encode_connect_run = encode_connect_layout bye bye []

abbrev go_away : GoAway
go_away = record { code = 2; grace_ms = 500; reason = bye }

decode_go_away_run : decode_go_away (be 2 2 ++ (be 4 500 ++ string_bytes bye)) ≡ ok go_away
decode_go_away_run = decode_go_away_layout go_away (omega arith) (omega arith) bye-IsWireText

parse_failure_run :
    parse_standard_response (1 ∷ (be 2 404 ++ (3 ∷ 1 ∷ string_bytes bye)))
    ≡ ok (failure bye 404 3 1)
parse_failure_run =
    parse_failure bye 404 3 1 (omega arith) (omega arith) (omega arith) bye-IsWireText

abbrev two_bytes : Bytes
two_bytes = 4 ∷ 5 ∷ []

parse_success_example :
    (parse_standard_response (0 ∷ two_bytes) ≡ ok (success two_bytes))
    ↔ (0 ∷ two_bytes ≡ 0 ∷ two_bytes)
parse_success_example = parse_success (0 ∷ two_bytes) two_bytes

parse_failure_known_example : (3 ≤ 10) × (1 ≤ 2)
parse_failure_known_example =
    parse_failure_known (1 ∷ (be 2 404 ++ (3 ∷ 1 ∷ string_bytes bye))) bye 404 3 1
      (parse_failure bye 404 3 1 (omega arith) (omega arith) (omega arith) bye-IsWireText)
