-- ===== src/Response.antt =====
-- src/protocol/response.ts: the envelope that every response has.
pub mod Laws
use fitz_ts.Base.{
  ℕ, List, [], ◌∷◌, Option, some, none, ltb, ◌==◌, if◌then◌else◌, not, Bool, Result, ok, err, Error,
  protocol_error,
}
use fitz_ts.Bytes.{Bytes}
use fitz_ts.Buffer.Text.{Utf8, Str}
use fitz_ts.Buffer.Reader.{
  Read, ◌>>=◌, ◌>>◌, pure, throw, throw_if, read_u8, read_u16_be, read_string, remaining,
  run_reader, throw_unless_eof,
}

-- `success: false` comes with the four fields of the error.
pub data ParsedResponse : Type 0 where
  success : Bytes → ParsedResponse
  failure : (error : Str) (error_code error_class effect : ℕ) → ParsedResponse

abbrev pub read_remaining : Read Bytes
read_remaining r = ok (remaining r, r)

-- The checks on the fields of an error, and on the end of the payload.
unfoldable pub check_failure : Str → ℕ → ℕ → ℕ → Read ParsedResponse
check_failure error error_code error_class effect = do
  throw_if (ltb 10 error_class)
      (protocol_error "Unknown error class" (some error_code) (error_class ∷ []))
  throw_if (ltb 2 effect) (protocol_error "Unknown error effect" (some error_code) (effect ∷ []))
  throw_unless_eof (protocol_error "Error response has trailing data" (some error_code) [])
  pure (failure error error_code error_class effect)

module _ ⦃u : Utf8⦄ where
  unfoldable pub read_failure : Read ParsedResponse
  read_failure = do
    error_code ← read_u16_be
    error_class ← read_u8
    effect ← read_u8
    error ← read_string
    check_failure error error_code error_class effect

  unfoldable pub read_response : Read ParsedResponse
  read_response = do
    status ← read_u8
    if status == 0
        then (read_remaining >>= λ bytes. pure (success bytes))
        else if not (status == 1)
        then throw (protocol_error "Unknown response status" (some status) (status ∷ []))
        else read_failure

  unfoldable pub parse_standard_response : Bytes → Result ParsedResponse
  parse_standard_response [] = err (protocol_error "Response payload is empty" none (0 ∷ []))
  parse_standard_response (b ∷ bs) = run_reader read_response (b ∷ bs)

  -- The error names the operation and the broker's text, which are left out here.
  unfoldable pub assert_response : Result ParsedResponse → Result Bytes
  assert_response (err e) = err e
  assert_response (ok (success bytes)) = ok bytes
  assert_response (ok (failure error error_code error_class effect)) =
      err (protocol_error "operation failed" (some error_code) (error_class ∷ effect ∷ []))

  unfoldable pub assert_success : Bytes → Result Bytes
  assert_success payload = assert_response (parse_standard_response payload)
