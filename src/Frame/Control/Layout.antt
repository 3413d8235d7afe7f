-- ===== src/Frame/Control/Layout.antt =====
-- The layouts of the control messages, written and read.
use fitz_ts.Base.{◌^◌, ◌<◌, ◌≡◌, refl, [], ◌++◌, ok, arith}
use fitz_ts.Bytes.{be}
use fitz_ts.Bytes.Laws.{get_uint-append}
use fitz_ts.Buffer.Text.{Utf8, Str}
use fitz_ts.Buffer.Writer.Laws.{Emits-then, Emits-last, Emits-new}
use fitz_ts.Buffer.Writer.Appends.{write_u16_be-Appends, write_u32_be-Appends}
use fitz_ts.Buffer.Writer.Strings.{string_bytes, write_string-Appends}
use fitz_ts.Buffer.Reader.{read_string}
use fitz_ts.Buffer.Reader.Values.{
  IsWireText, Finishes-bind, Finishes-last, run_reader-Finishes, read_u16_be-Reads,
  read_u32_be-Reads, read_string-Reads,
}
use fitz_ts.Frame.Control.{Hello, decode_hello, encode_connect}
use fitz_ts.Frame.Control.Reading.{GoAway, decode_go_away}

-- A HELLO in its layout is read with all its fields.
pub decode_hello_layout :
    (h : Hello)
    → h.version < 2 ^ 16
    → h.broker_capabilities < 2 ^ 32
    → h.max_message_bytes < 2 ^ 32
    → h.max_in_flight < 2 ^ 32
    → h.session_id < 2 ^ 64
    → decode_hello (
        be 2 h.version
        ++ (be 4 h.broker_capabilities
            ++ (be 4 h.max_message_bytes ++ (be 4 h.max_in_flight ++ be 8 h.session_id))))
      ≡ ok h
unfolding decode_hello
decode_hello_layout h v c m f s =
    let a = be 2 h.version in
    let b = be 4 h.broker_capabilities in
    let x = be 4 h.max_message_bytes in
    let i = be 4 h.max_in_flight in
    let n = be 8 h.session_id in
    ground (
      arith,
      get_uint-append 2 h.version [] (b ++ (x ++ (i ++ n))) 0 refl v,
      get_uint-append 4 h.broker_capabilities a (x ++ (i ++ n)) 2 refl c,
      get_uint-append 4 h.max_message_bytes (a ++ b) (i ++ n) 6 refl m,
      get_uint-append 4 h.max_in_flight (a ++ (b ++ x)) n 10 refl f,
      get_uint-append 8 h.session_id (a ++ (b ++ (x ++ i))) [] 14 refl s,
    )

module _ ⦃u : Utf8⦄ where
  -- CONNECT offers wire version 3 only and no capability bit, and then has the three texts.
  pub encode_connect_layout :
      (jwt service_name client_build : Str)
      → encode_connect jwt service_name client_build
        ≡ ok (
            be 2 3
            ++ (be 2 3
                ++ (be 4 0
                    ++ (string_bytes jwt
                        ++ (string_bytes service_name ++ string_bytes client_build)))))
  unfolding encode_connect
  encode_connect_layout jwt service_name client_build = Emits-new 4096 _ _ (
      Emits-then _ _ _ _ (write_u16_be-Appends 3) (
        Emits-then _ _ _ _ (write_u16_be-Appends 3) (
          Emits-then _ _ _ _ (write_u32_be-Appends 0) (
            Emits-then _ _ _ _ (write_string-Appends jwt) (
              Emits-then _ _ _ _ (write_string-Appends service_name)
                (Emits-last _ _ (write_string-Appends client_build)))))))

  -- A GOAWAY in its layout is read with all its fields.
  pub decode_go_away_layout :
      (g : GoAway)
      → g.code < 2 ^ 16
      → g.grace_ms < 2 ^ 32
      → IsWireText g.reason
      → decode_go_away (be 2 g.code ++ (be 4 g.grace_ms ++ string_bytes g.reason)) ≡ ok g
  unfolding decode_go_away
  decode_go_away_layout g c m t = run_reader-Finishes _ _ g (
      Finishes-bind _ _ (be 2 g.code) _ g.code g (read_u16_be-Reads g.code c) (
        Finishes-bind _ _ (be 4 g.grace_ms) _ g.grace_ms g (read_u32_be-Reads g.grace_ms m) (
          Finishes-last read_string _ _ (string_bytes g.reason) g.reason
            (read_string-Reads g.reason t))))
