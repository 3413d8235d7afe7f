-- ===== src/Frame/Control.antt =====
-- src/frame/codec.ts: the payloads of CONNECT, HELLO, CONNECT_REJECTED and GOAWAY.
pub mod Reading
pub mod Layout
use fitz_ts.Base.{
  ℕ, ◌+◌, List, [], ◌∷◌, length, not, ◌==◌, Result, ok, err, ◌>>=◌, ◌>>◌, throw_if, codec_error,
}
use fitz_ts.Bytes.{Bytes, get_uint}
use fitz_ts.Buffer.Text.{Utf8, Str}
use fitz_ts.Buffer.Writer.{new_writer, write_u16_be, write_u32_be, write_string, get_buffer}

pub record Hello : Type 0 where
  pub version : ℕ
  pub broker_capabilities : ℕ
  pub max_message_bytes : ℕ
  pub max_in_flight : ℕ
  pub session_id : ℕ

unfoldable pub decode_hello : Bytes → Result Hello
decode_hello payload = do
  throw_if (not (length payload == 2 + 4 + 4 + 4 + 8))
      (codec_error "HELLO needs at least" ((2 + 4 + 4 + 4 + 8) ∷ []))
  version ← get_uint 2 payload 0
  broker_capabilities ← get_uint 4 payload 2
  max_message_bytes ← get_uint 4 payload 6
  max_in_flight ← get_uint 4 payload 10
  session_id ← get_uint 8 payload 14
  ok (record {
    version = version;
    broker_capabilities = broker_capabilities;
    max_message_bytes = max_message_bytes;
    max_in_flight = max_in_flight;
    session_id = session_id;
  })

module _ ⦃u : Utf8⦄ where
  unfoldable pub encode_connect : Str → Str → Str → Result Bytes
  encode_connect jwt service_name client_build = do
    w ← write_u16_be 3 (new_writer 4096)
    w ← write_u16_be 3 w
    w ← write_u32_be 0 w
    w ← write_string jwt w
    w ← write_string service_name w
    w ← write_string client_build w
    ok (get_buffer w)
