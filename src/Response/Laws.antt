-- ===== src/Response/Laws.antt =====
-- What responses parse to.
use fitz_ts.Base.{ℕ, ◌^◌, ◌<◌, ◌≤◌, ◌≡◌, ◌↔◌, [], ◌∷◌, ◌++◌, ok, arith}
use fitz_ts.Bytes.{Bytes, be}
use fitz_ts.Buffer.Text.{Utf8, Str}
use fitz_ts.Buffer.Writer.Strings.{string_bytes}
use fitz_ts.Buffer.Reader.{read_u8, read_u16_be, read_string, remaining}
use fitz_ts.Buffer.Reader.Laws.{is_eof-Ahead, read_u8-Reads}
use fitz_ts.Buffer.Reader.Values.{
  IsWireText, Finishes, Finishes-bind, Finishes-end, run_reader-Finishes, read_u16_be-Reads,
  read_string-Reads,
}
use fitz_ts.Response.{
  success, failure, check_failure, read_failure, read_response, parse_standard_response,
}

check_failure-Finishes :
    (error : Str) (code class effect : ℕ)
    → class ≤ 10
    → effect ≤ 2
    → Finishes (check_failure error code class effect) [] (failure error code class effect)
unfolding check_failure
check_failure-Finishes error code class effect h k r a = (r, ground (arith, is_eof-Ahead r a))

module _ ⦃u : Utf8⦄ where
  read_failure-Finishes :
      (error : Str) (code class effect : ℕ)
      → code < 2 ^ 16
      → class ≤ 10
      → effect ≤ 2
      → IsWireText error
      → Finishes read_failure
          (be 2 code ++ (class ∷ effect ∷ string_bytes error))
          (failure error code class effect)
  unfolding read_failure
  read_failure-Finishes error code class effect hc hk he ht =
      Finishes-bind read_u16_be _ (be 2 code) _ code _ (read_u16_be-Reads code hc) (
        Finishes-bind read_u8 _ (class ∷ []) _ class _ (read_u8-Reads class) (
          Finishes-bind read_u8 _ (effect ∷ []) _ effect _ (read_u8-Reads effect) (
            Finishes-end read_string _ (string_bytes error) error _ (read_string-Reads error ht)
              (check_failure-Finishes error code class effect hk he))))

  -- A failure is read with its four fields, if its class and its effect are known.
  pub parse_failure :
      (error : Str) (code class effect : ℕ)
      → code < 2 ^ 16
      → class ≤ 10
      → effect ≤ 2
      → IsWireText error
      → parse_standard_response (1 ∷ (be 2 code ++ (class ∷ effect ∷ string_bytes error)))
        ≡ ok (failure error code class effect)
  unfolding parse_standard_response read_response
  parse_failure error code class effect hc hk he ht = run_reader-Finishes read_response _ _ (
      Finishes-bind read_u8 _ (1 ∷ []) _ 1 _ (read_u8-Reads 1)
        (read_failure-Finishes error code class effect hc hk he ht))

  -- A response is a success exactly when its first byte is 0, and has all the other bytes.
  pub parse_success :
      (payload bytes : Bytes)
      → (parse_standard_response payload ≡ ok (success bytes)) ↔ (payload ≡ 0 ∷ bytes)
  unfolding parse_standard_response read_response read_failure check_failure read_u8 remaining
  parse_success [] bytes = (λ e. cc, λ e. cc)
  parse_success (b ∷ bs) bytes = (λ e. ground arith, λ e. ground arith)

  -- Whatever failure comes out of the parser has a known class and a known effect.
  pub parse_failure_known :
      (payload : Bytes) (error : Str) (code class effect : ℕ)
      → parse_standard_response payload ≡ ok (failure error code class effect)
      → (class ≤ 10) × (effect ≤ 2)
  unfolding parse_standard_response read_response read_failure check_failure
  parse_failure_known [] error code class effect e = cc
  parse_failure_known (b ∷ bs) error code class effect e = ground arith
