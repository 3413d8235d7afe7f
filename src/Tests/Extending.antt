-- ===== src/Tests/Extending.antt =====
-- A HELLO with two capabilities and one further field.
use fitz_ts.Base.{◌≡◌, refl, arith, [], ◌∷◌, some, ok}
use fitz_ts.Bytes.{Bytes}
use fitz_ts.Frame.Extensions.{decode_extensions}
use fitz_ts.Frame.Extensions.RoundTrip.{extend_hello, decode_extensions-encode_extensions}

decode_extensions-encode_extensions_example :
    (payload : Bytes) × (extend_hello (7 ∷ 8 ∷ []) (3 ∷ 9 ∷ []) ((5, 1 ∷ []) ∷ []) ≡ ok payload)
    × (decode_extensions payload 2 4
        ≡ some (ok (record { core = 7 ∷ 8 ∷ []; capability_ids = 3 ∷ 9 ∷ [] })))
decode_extensions-encode_extensions_example =
    decode_extensions-encode_extensions (7 ∷ 8 ∷ []) (3 ∷ 9 ∷ []) ((5, 1 ∷ []) ∷ []) 4 (omega arith)
      (omega arith, omega arith, (omega arith, omega arith, tt)) (omega arith, omega arith, tt)
      (omega arith) refl
