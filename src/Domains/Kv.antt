-- ===== src/Domains/Kv.antt =====
-- src/domains/kv/codec.ts: the responses and notifications of the key-value domain.
pub mod Layout
pub mod Requests
use fitz_ts.Base.{
  ℕ, zero, suc, List, [], ◌∷◌, Option, some, none, Bool, true, false, ◌&&◌, not, ◌==◌,
  if◌then◌else◌, Result, ok, err, Error, codec_error,
}
use fitz_ts.Bytes.{Bytes}
use fitz_ts.Buffer.Text.{Utf8, Str}
use fitz_ts.Buffer.Reader.{
  Read, ◌>>=◌, ◌>>◌, pure, throw_if, read_u8, read_u32_be, read_u64_be, read_bytes, read_string,
  run_reader, is_eof, throw_unless_eof,
}
use fitz_ts.Response.{ParsedResponse, success, failure, parse_standard_response}

-- `errorMessage`, `errorClass` and `effect` of a response that failed.
pub record Failure : Type 0 where
  pub error_message : Str
  pub error_class : ℕ
  pub effect : ℕ

pub record Entry : Type 0 where
  pub key : Bytes
  pub value : Bytes

pub record KvStatusResponse : Type 0 where
  pub status : ℕ
  pub failed : Option Failure

pub record KvBeginResponse : Type 0 where
  pub status : ℕ
  pub tx_id : Option ℕ
  pub failed : Option Failure

pub record KvGetResponse : Type 0 where
  pub status : ℕ
  pub found : Bool
  pub value : Option Bytes
  pub failed : Option Failure

pub record KvScanResponse : Type 0 where
  pub status : ℕ
  pub entries : List Entry
  pub has_more : Bool
  pub failed : Option Failure

pub record KvNotification : Type 0 where
  pub sub_id : ℕ
  pub route : Str
  pub mutation_count : ℕ

-- What a decoder makes of the two sorts of response.
abbrev pub on_response :
    {A : Type 0} → (ℕ → Failure → A) → (Bytes → Result A) → Result ParsedResponse → Result A
on_response failed read (err e) = err e
on_response failed read (ok (success bytes)) = read bytes
on_response failed read (ok (failure error code class effect)) =
    ok (failed code (record { error_message = error; error_class = class; effect = effect }))

abbrev pub at_end : Read Bool
at_end r = ok (is_eof r, r)

unfoldable pub read_entries : ℕ → Read (List Entry)
read_entries zero = pure []
read_entries (suc count) = do
  key_len ← read_u32_be
  key ← read_bytes key_len
  value_len ← read_u32_be
  value ← read_bytes value_len
  entries ← read_entries count
  pure (record { key = key; value = value } ∷ entries)

-- The checks on the flag and on the end of the payload.
unfoldable pub check_scan : List Entry → ℕ → Read KvScanResponse
check_scan entries has_more_flag = do
  throw_if (not (has_more_flag == 0) && not (has_more_flag == 1))
      (codec_error "SCAN has invalid has_more flag" (has_more_flag ∷ []))
  throw_unless_eof (codec_error "SCAN response contains trailing bytes" [])
  pure (record { status = 0; entries = entries; has_more = has_more_flag == 1; failed = none })

unfoldable pub read_scan : Read KvScanResponse
read_scan = do
  count ← read_u32_be
  entries ← read_entries count
  has_more_flag ← read_u8
  check_scan entries has_more_flag

unfoldable pub read_tx_id : Bool → Read (Option ℕ)
read_tx_id true = pure none
read_tx_id false = read_u64_be >>= λ tx_id. pure (some tx_id)

unfoldable pub read_begin : Read KvBeginResponse
read_begin = do
  empty ← at_end
  tx_id ← read_tx_id empty
  throw_unless_eof (codec_error "BEGIN response has trailing bytes" [])
  pure (record { status = 0; tx_id = tx_id; failed = none })

abbrev pub not_found : KvGetResponse
not_found = record { status = 0; found = false; value = none; failed = none }

unfoldable pub read_found : Bool → Read Bool
read_found true = pure false
read_found false = read_u8 >>= λ flag. pure (flag == 1)

-- The value, if the key was found and there are bytes left.
unfoldable pub read_value : Bool → Bool → Read KvGetResponse
read_value true false = do
  value_len ← read_u32_be
  value ← read_bytes value_len
  pure (record { status = 0; found = true; value = some value; failed = none })
read_value _ _ = pure not_found

unfoldable pub read_get : Read KvGetResponse
read_get = do empty ← at_end; found ← read_found empty; empty ← at_end; read_value found empty

module _ ⦃u : Utf8⦄ where
  unfoldable pub decode_begin_response : Bytes → Result KvBeginResponse
  decode_begin_response payload =
      on_response (λ code f. record { status = code; tx_id = none; failed = some f })
        (run_reader read_begin) (parse_standard_response payload)

  unfoldable pub decode_status_response : Bytes → Result KvStatusResponse
  decode_status_response payload =
      on_response (λ code f. record { status = code; failed = some f })
        (λ bytes. ok (record { status = 0; failed = none })) (parse_standard_response payload)

  unfoldable pub decode_get_response : Bytes → Result KvGetResponse
  decode_get_response payload =
      on_response (λ code f. record { status = code; found = false; value = none; failed = some f })
        (run_reader read_get) (parse_standard_response payload)

  unfoldable pub decode_scan_response : Bytes → Result KvScanResponse
  decode_scan_response payload =
      on_response
        (λ code f. record { status = code; entries = []; has_more = false; failed = some f })
        (run_reader read_scan) (parse_standard_response payload)

  unfoldable pub read_notification : Read KvNotification
  read_notification = do
    sub_id ← read_u64_be
    route ← read_string
    mutation_count ← read_u64_be
    throw_unless_eof (codec_error "KV_NOTIFY payload has trailing bytes" [])
    pure (record { sub_id = sub_id; route = route; mutation_count = mutation_count })

  unfoldable pub decode_notification : Bytes → Result KvNotification
  decode_notification payload = run_reader read_notification payload
