-- ===== src/Frame/Control/Reading.antt =====
-- src/frame/codec.ts: the control messages that a reader takes apart.
use fitz_ts.Base.{ℕ, [], Result, codec_error}
use fitz_ts.Bytes.{Bytes}
use fitz_ts.Buffer.Text.{Utf8, Str}
use fitz_ts.Buffer.Reader.{
  Read, ◌>>=◌, ◌>>◌, pure, read_u16_be, read_u32_be, read_string, run_reader, throw_unless_eof,
}

pub record ConnectRejected : Type 0 where
  pub code : ℕ
  pub message : Str

pub record GoAway : Type 0 where
  pub code : ℕ
  pub grace_ms : ℕ
  pub reason : Str

module _ ⦃u : Utf8⦄ where
  read_connect_rejected : Read ConnectRejected
  read_connect_rejected = do
    code ← read_u16_be
    message ← read_string
    throw_unless_eof (codec_error "CONNECT_REJECTED has trailing data" [])
    pure (record { code = code; message = message })

  read_go_away : Read GoAway
  read_go_away = do
    code ← read_u16_be
    grace_ms ← read_u32_be
    reason ← read_string
    throw_unless_eof (codec_error "GOAWAY has trailing data" [])
    pure (record { code = code; grace_ms = grace_ms; reason = reason })

  unfoldable pub decode_connect_rejected : Bytes → Result ConnectRejected
  unfolding read_connect_rejected
  decode_connect_rejected = run_reader read_connect_rejected

  unfoldable pub decode_go_away : Bytes → Result GoAway
  unfolding read_go_away
  decode_go_away = run_reader read_go_away
