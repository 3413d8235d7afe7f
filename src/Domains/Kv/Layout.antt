-- ===== src/Domains/Kv/Layout.antt =====
-- src/domains/kv/codec.ts: responses in their layout are read with all their fields.
use fitz_ts.Base.{
  ℕ, ◌^◌, ◌<◌, ◌≡◌, refl, List, [], ◌∷◌, ◌++◌, length, All, none, Bool, true, false, if◌then◌else◌,
  ok, arith,
}
use fitz_ts.Bytes.{Bytes, be}
use fitz_ts.Buffer.Text.{Utf8}
use fitz_ts.Buffer.Writer.Strings.{string_bytes}
use fitz_ts.Buffer.Reader.{read_u8, read_u32_be, read_u64_be, read_bytes, read_string}
use fitz_ts.Buffer.Reader.Laws.{Reads, Reads-pure, Reads-bind, read_u8-Reads, is_eof-Ahead}
use fitz_ts.Buffer.Reader.Values.{
  IsWireText, Finishes, Finishes-bind, Finishes-end, Finishes-last, Reads-map, run_reader-Finishes,
  read_u32_be-Reads, read_u64_be-Reads, read_bytes-Reads, read_string-Reads,
}
use fitz_ts.Response.Laws.{parse_success}
use fitz_ts.Domains.Kv.{
  Entry, KvNotification, read_entries, check_scan, read_scan, decode_scan_response,
  read_notification, decode_notification,
}

-- The lengths of the key and of the value fit into four bytes.
abbrev pub IsShort : Entry → Type 0
IsShort e = (length e.key < 2 ^ 32) × (length e.value < 2 ^ 32)

abbrev sized : Bytes → Bytes
sized bs = be 4 (length bs) ++ bs

-- Each entry is its key and its value, with their lengths in front.
abbrev pub entries_bytes : List Entry → Bytes
entries_bytes [] = []
entries_bytes (e ∷ es) =
    be 4 (length e.key) ++ (e.key ++ (be 4 (length e.value) ++ (e.value ++ entries_bytes es)))

read_entries-Reads :
    (es : List Entry) → All IsShort es → Reads (read_entries (length es)) (entries_bytes es) es
unfolding read_entries
read_entries-Reads [] h = Reads-pure []
read_entries-Reads (e ∷ es) h =
    Reads-bind read_u32_be _ (be 4 (length e.key)) _ (length e.key) (e ∷ es)
      (read_u32_be-Reads (length e.key) h.0.0)
      (Reads-bind (read_bytes (length e.key)) _ e.key _ e.key (e ∷ es) (read_bytes-Reads e.key) (
        Reads-bind read_u32_be _ (be 4 (length e.value)) _ (length e.value) (e ∷ es)
          (read_u32_be-Reads (length e.value) h.0.1)
          (Reads-bind (read_bytes (length e.value)) _ e.value _ e.value (e ∷ es)
            (read_bytes-Reads e.value)
            (Reads-map (read_entries (length es)) (λ entries. e ∷ entries) (entries_bytes es) es
              (read_entries-Reads es h.1)))))

abbrev pub flag : Bool → ℕ
flag b = if b then 1 else 0

check_scan-Finishes :
    (es : List Entry) (more : Bool)
    → Finishes
        (check_scan es (flag more))
        []
        (record { status = 0; entries = es; has_more = more; failed = none })
unfolding check_scan
check_scan-Finishes es true r h = (r, ground (arith, is_eof-Ahead r h))
check_scan-Finishes es false r h = (r, ground (arith, is_eof-Ahead r h))

read_scan-Finishes :
    (es : List Entry) (more : Bool)
    → length es < 2 ^ 32
    → All IsShort es
    → Finishes read_scan
        (be 4 (length es) ++ (entries_bytes es ++ flag more ∷ []))
        (record { status = 0; entries = es; has_more = more; failed = none })
unfolding read_scan
read_scan-Finishes es more few short =
    Finishes-bind read_u32_be _ (be 4 (length es)) _ (length es) _
      (read_u32_be-Reads (length es) few)
      (Finishes-bind (read_entries (length es)) _ (entries_bytes es) _ es _
        (read_entries-Reads es short)
        (Finishes-end read_u8 _ (flag more ∷ []) (flag more) _ (read_u8-Reads (flag more))
          (check_scan-Finishes es more)))

module _ ⦃u : Utf8⦄ where
  -- A page of a scan in its layout is read with all its entries, in order, and its flag.
  pub decode_scan_response_layout :
      (entries : List Entry) (has_more : Bool)
      → length entries < 2 ^ 32
      → All IsShort entries
      → decode_scan_response
          (0 ∷ (be 4 (length entries) ++ (entries_bytes entries ++ flag has_more ∷ [])))
        ≡ ok (record { status = 0; entries = entries; has_more = has_more; failed = none })
  unfolding decode_scan_response
  decode_scan_response_layout es more few short =
      let bytes = be 4 (length es) ++ (entries_bytes es ++ flag more ∷ []) in
      let parsed = (parse_success (0 ∷ bytes) bytes).1 refl in
      rw parsed (run_reader-Finishes read_scan bytes _ (read_scan-Finishes es more few short))

  -- A notification in its layout is read with all its fields.
  pub decode_notification_layout :
      (n : KvNotification)
      → n.sub_id < 2 ^ 64
      → n.mutation_count < 2 ^ 64
      → IsWireText n.route
      → decode_notification (be 8 n.sub_id ++ (string_bytes n.route ++ be 8 n.mutation_count))
        ≡ ok n
  unfolding decode_notification read_notification
  decode_notification_layout n s m t = run_reader-Finishes _ _ n (
      Finishes-bind read_u64_be _ (be 8 n.sub_id) _ n.sub_id n (read_u64_be-Reads n.sub_id s) (
        Finishes-bind read_string _ (string_bytes n.route) _ n.route n (read_string-Reads n.route t)
          (Finishes-last read_u64_be _ _ (be 8 n.mutation_count) n.mutation_count
            (read_u64_be-Reads n.mutation_count m))))
