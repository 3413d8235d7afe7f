-- ===== src/Domains/Stream/Replies.antt =====
-- src/domains/stream/codec.ts: the responses to BEGIN, APPEND, COMMIT, ROLLBACK, LAST and METADATA,
-- and the notifications, whose payload is left as it is: the platform's JSON.parse is outside.
use fitz_ts.Base.{
  ℕ, [], ◌∷◌, length, Option, some, none, false, ltb, ◌==◌, not, ◌||◌, if◌then◌else◌, Result, ok,
  stream_error,
}
use fitz_ts.Bytes.{Bytes}
use fitz_ts.Buffer.Text.{Utf8, Str}
use fitz_ts.Buffer.Reader.{
  Read, ◌>>=◌, ◌>>◌, pure, throw_if, read_u32_be, read_u64_be, read_bytes, read_string,
  read_optional_u64, run_reader, remaining_bytes, throw_unless_eof,
}
use fitz_ts.Response.{parse_standard_response}
use fitz_ts.Domains.Kv.{on_response}
use fitz_ts.Domains.Stream.{
  StreamRecord, StreamMetadata, StreamNotification, StreamReply, replied, refused, reply,
  decode_stream_record,
}

unfoldable pub read_session : Bytes → Result (StreamReply (Option ℕ))
read_session bytes =
    if ltb (length bytes) 8
    then ok (replied none)
    else reply (run_reader (read_u64_be >>= λ id. pure (some id)) bytes)

abbrev pub offset_of : ℕ → Read (Option ℕ)
offset_of count r =
    (throw_if (not (count == 8) || not (remaining_bytes r == count))
          (stream_error "APPEND response has invalid payload length")
        >> (read_u64_be >>= λ offset. pure (some offset)))
      r

unfoldable pub read_offset : Bytes → Result (StreamReply (Option ℕ))
read_offset bytes =
    if ltb (length bytes) 12
    then ok (replied none)
    else reply (run_reader (read_u32_be >>= offset_of) bytes)

unfoldable pub read_last : Str → Read (Option StreamRecord)
read_last route = do
  r ← decode_stream_record route false
  throw_unless_eof (stream_error "LAST response has trailing bytes")
  pure (some r)

-- `offset ?? 0n`
abbrev pub or_zero : Option ℕ → ℕ
or_zero none = 0
or_zero (some v) = v

unfoldable pub read_metadata : Read (Option StreamMetadata)
read_metadata = do
  first_resource_offset ← read_optional_u64
  last_resource_offset ← read_optional_u64
  record_count ← read_u64_be
  max_batch_events ← read_u64_be
  max_batch_bytes ← read_u64_be
  ttl_seconds ← read_optional_u64
  area_watermark ← read_u64_be
  realm_watermark ← read_u64_be
  pure (
      some (record {
        first_offset = or_zero first_resource_offset;
        last_offset = or_zero last_resource_offset;
        record_count = record_count;
        max_batch_events = max_batch_events;
        max_batch_bytes = max_batch_bytes;
        ttl_seconds = ttl_seconds;
        area_watermark = area_watermark;
        realm_watermark = realm_watermark;
      }))

-- A response without data has no value.
abbrev pub unless_no_data : {A : Type 0} → Read (Option A) → Bytes → Result (StreamReply (Option A))
unless_no_data read [] = ok (replied none)
unless_no_data read (b ∷ bs) = reply (run_reader read (b ∷ bs))

module _ ⦃u : Utf8⦄ where
  unfoldable pub decode_begin_response : Bytes → Result (StreamReply (Option ℕ))
  decode_begin_response payload = on_response refused read_session (parse_standard_response payload)

  unfoldable pub decode_append_response : Bytes → Result (StreamReply (Option ℕ))
  decode_append_response payload = on_response refused read_offset (parse_standard_response payload)

  -- `decodeCommitResponse` and `decodeRollbackResponse`: the data is not looked at.
  unfoldable pub decode_commit_response : Bytes → Result (StreamReply Bytes)
  decode_commit_response payload =
      on_response refused (λ bytes. ok (replied bytes)) (parse_standard_response payload)

  unfoldable pub decode_last_response : Bytes → Str → Result (StreamReply (Option StreamRecord))
  decode_last_response payload route =
      on_response refused (unless_no_data (read_last route)) (parse_standard_response payload)

  unfoldable pub decode_metadata_response : Bytes → Result (StreamReply (Option StreamMetadata))
  decode_metadata_response payload =
      on_response refused (unless_no_data read_metadata) (parse_standard_response payload)

  unfoldable pub read_notification : Read StreamNotification
  read_notification = do
    sub_id ← read_u64_be
    route ← read_string
    payload_length ← read_u32_be
    raw_payload ← read_bytes payload_length
    pure (record { sub_id = sub_id; route = route; raw_payload = raw_payload })

  unfoldable pub decode_notification : Bytes → Result StreamNotification
  decode_notification payload = run_reader read_notification payload
