-- ===== src/Domains/Stream/Records.antt =====
-- src/domains/stream/codec.ts: the layout of the items of a page, each read with all its fields.
use mathlib.Core.Path.{subst}
use fitz_ts.Base.{
  ℕ, ◌^◌, ◌<◌, ◌≡◌, ap, List, [], ◌∷◌, ◌++◌, length, All, Option, some, none, Bool, true, false,
  not, Error,
}
use fitz_ts.Bytes.{Bytes, be}
use fitz_ts.Buffer.Text.{Utf8, Str}
use fitz_ts.Buffer.Writer.Strings.{string_bytes}
use fitz_ts.Buffer.Reader.{
  Read, ◌>>◌, throw_if, read_u8, read_u32_be, read_u64_be, read_bytes, read_string,
  read_optional_u64,
}
use fitz_ts.Buffer.Reader.Laws.{Reads, Reads-pure, Reads-bind, read_u8-Reads}
use fitz_ts.Buffer.Reader.Values.{
  IsWireText, Reads-map, read_u32_be-Reads, read_u64_be-Reads, read_bytes-Reads, read_string-Reads,
  read_optional_u64-Reads,
}
use fitz_ts.Routes.Shape.{is_route_shape}
use fitz_ts.Routes.Selectors.{stream_scheme}
use fitz_ts.Domains.Stream.{
  StreamRecord, StreamFilteredReason, server_filter, permission, projection, StreamReadItem, event,
  filtered, filtered_range, read_optional_bytes, read_global, decode_stream_record,
  decode_stream_filtered_reason, read_event, read_filtered, read_filtered_range,
  decode_stream_read_item, read_item, read_items,
}

-- A flag, and the eight bytes of a value.
abbrev pub optional : Option ℕ → Bytes
optional none = 0 ∷ []
optional (some v) = 1 ∷ be 8 v

abbrev pub IsSmall : Option ℕ → Type 0
IsSmall none = Unit {0}
IsSmall (some v) = v < 256 ^ 8

-- A field that only a global selector has.
abbrev pub global : Bool → Option ℕ → Bytes
global true o = optional o
global false o = []

abbrev pub IsGlobal : Bool → Option ℕ → Type 0
IsGlobal true o = IsSmall o
IsGlobal false o = o ≡ none

-- A flag, the length and the bytes.
abbrev pub optional_sized : Option Bytes → Bytes
optional_sized none = 0 ∷ []
optional_sized (some bs) = 1 ∷ (be 4 (length bs) ++ bs)

abbrev pub IsShort : Option Bytes → Type 0
IsShort none = Unit {0}
IsShort (some bs) = length bs < 256 ^ 4

abbrev pub record_bytes : Bool → StreamRecord → Bytes
record_bytes extended r =
    be 8 r.offset
    ++ (optional r.area_offset
        ++ (optional r.realm_offset
            ++ (global extended r.global_offset
                ++ (be 4 (length r.body)
                    ++ (r.body ++ (optional_sized r.metadata ++ be 8 r.timestamp))))))

abbrev pub reason_byte : Option StreamFilteredReason → ℕ
reason_byte none = 0
reason_byte (some server_filter) = 1
reason_byte (some permission) = 2
reason_byte (some projection) = 3

-- The numbers and the lengths of a record fit into their fields.
pub record IsWireRecord (extended : Bool) (r : StreamRecord) : Type 0 where
  pub offset : r.offset < 256 ^ 8
  pub area : IsSmall r.area_offset
  pub realm : IsSmall r.realm_offset
  pub global : IsGlobal extended r.global_offset
  pub body : length r.body < 256 ^ 4
  pub metadata : IsShort r.metadata
  pub timestamp : r.timestamp < 256 ^ 8

pub read_optional_u64-optional : (o : Option ℕ) → IsSmall o → Reads read_optional_u64 (optional o) o
unfolding read_optional_u64
read_optional_u64-optional none h =
    Reads-bind read_u8 _ (0 ∷ []) [] 0 none (read_u8-Reads 0) (Reads-pure none)
read_optional_u64-optional (some v) h = read_optional_u64-Reads v h

pub read_global-global :
    (extended : Bool) (o : Option ℕ)
    → IsGlobal extended o
    → Reads (read_global extended) (global extended o) o
unfolding read_global
read_global-global true o h = read_optional_u64-optional o h
read_global-global false none h = Reads-pure none
read_global-global false (some v) h = cc

read_optional_bytes-optional_sized :
    (o : Option Bytes) → IsShort o → Reads read_optional_bytes (optional_sized o) o
unfolding read_optional_bytes
read_optional_bytes-optional_sized none h =
    Reads-bind read_u8 _ (0 ∷ []) [] 0 none (read_u8-Reads 0) (Reads-pure none)
read_optional_bytes-optional_sized (some bs) h =
    Reads-bind read_u8 _ (1 ∷ []) (be 4 (length bs) ++ bs) 1 (some bs) (read_u8-Reads 1) (
      Reads-bind read_u32_be _ (be 4 (length bs)) bs (length bs) (some bs)
        (read_u32_be-Reads (length bs) h)
        (Reads-map (read_bytes (length bs)) some bs bs (read_bytes-Reads bs)))

record-Reads :
    (extended : Bool) (r : StreamRecord)
    → IsWireRecord extended r
    → Reads (decode_stream_record r.route extended) (record_bytes extended r) r
unfolding decode_stream_record
record-Reads extended r h =
    Reads-bind read_u64_be _ (be 8 r.offset) _ r.offset r (read_u64_be-Reads r.offset h.offset) (
      Reads-bind read_optional_u64 _ (optional r.area_offset) _ r.area_offset r
        (read_optional_u64-optional r.area_offset h.area)
        (Reads-bind read_optional_u64 _ (optional r.realm_offset) _ r.realm_offset r
          (read_optional_u64-optional r.realm_offset h.realm)
          (Reads-bind (read_global extended) _ (global extended r.global_offset) _ r.global_offset r
            (read_global-global extended r.global_offset h.global)
            (Reads-bind read_u32_be _ (be 4 (length r.body)) _ (length r.body) r
              (read_u32_be-Reads (length r.body) h.body)
              (Reads-bind (read_bytes (length r.body)) _ r.body _ r.body r (read_bytes-Reads r.body)
                (Reads-bind read_optional_bytes _ (optional_sized r.metadata) _ r.metadata r
                  (read_optional_bytes-optional_sized r.metadata h.metadata)
                  (Reads-map read_u64_be (λ t. record r { timestamp = t }) (be 8 r.timestamp)
                    r.timestamp (read_u64_be-Reads r.timestamp h.timestamp))))))))

reason-Reads :
    (reason : Option StreamFilteredReason)
    → Reads decode_stream_filtered_reason (reason_byte reason ∷ []) reason
unfolding decode_stream_filtered_reason
reason-Reads none = Reads-bind read_u8 _ (0 ∷ []) [] 0 none (read_u8-Reads 0) (Reads-pure none)
reason-Reads (some server_filter) =
    Reads-bind read_u8 _ (1 ∷ []) [] 1 (some server_filter) (read_u8-Reads 1)
      (Reads-pure (some server_filter))
reason-Reads (some permission) =
    Reads-bind read_u8 _ (2 ∷ []) [] 2 (some permission) (read_u8-Reads 2)
      (Reads-pure (some permission))
reason-Reads (some projection) =
    Reads-bind read_u8 _ (3 ∷ []) [] 3 (some projection) (read_u8-Reads 3)
      (Reads-pure (some projection))

pub Reads-guard :
    {A : Type 0} (b : Bool) (e : Error) (k : Read A) (bs : Bytes) (v : A)
    → b ≡ false
    → Reads k bs v
    → Reads (throw_if b e >> k) bs v
Reads-guard b e k bs v h f r t a = rw h (f r t a)

abbrev pub route_of : StreamReadItem → Str
route_of (event route r) = route
route_of (filtered route offset reason) = route
route_of (filtered_range route from to reason) = route

-- The tag of an item, and its fields.
abbrev pub tagged_bytes : Bool → StreamReadItem → Bytes
tagged_bytes extended (event route r) = 0 ∷ record_bytes extended r
tagged_bytes extended (filtered route offset reason) = 1 ∷ (be 8 offset ++ reason_byte reason ∷ [])
tagged_bytes extended (filtered_range route from to reason) =
    2 ∷ (be 8 from ++ (be 8 to ++ reason_byte reason ∷ []))

-- The fields fit, and a record has its item's route.
abbrev pub FieldsFit : Bool → StreamReadItem → Type 0
FieldsFit extended (event route r) = (r.route ≡ route) × IsWireRecord extended r
FieldsFit extended (filtered route offset reason) = offset < 256 ^ 8
FieldsFit extended (filtered_range route from to reason) = (from < 256 ^ 8) × (to < 256 ^ 8)

tagged-Reads :
    (extended : Bool) (i : StreamReadItem)
    → FieldsFit extended i
    → Reads (decode_stream_read_item (route_of i) extended) (tagged_bytes extended i) i
unfolding decode_stream_read_item read_event read_filtered read_filtered_range
tagged-Reads extended (event route r) h =
    Reads-bind read_u8 _ (0 ∷ []) (record_bytes extended r) 0 (event route r) (read_u8-Reads 0) (
      Reads-map (decode_stream_record route extended) (event route) (record_bytes extended r) r (
        subst (λ s. Reads (decode_stream_record s extended) (record_bytes extended r) r) h.0
          (record-Reads extended r h.1)))
tagged-Reads extended (filtered route offset reason) h =
    Reads-bind read_u8 _ (1 ∷ []) (be 8 offset ++ reason_byte reason ∷ []) 1
      (filtered route offset reason) (read_u8-Reads 1)
      (Reads-bind read_u64_be _ (be 8 offset) (reason_byte reason ∷ []) offset
        (filtered route offset reason) (read_u64_be-Reads offset h)
        (Reads-map decode_stream_filtered_reason (filtered route offset) (reason_byte reason ∷ [])
          reason (reason-Reads reason)))
tagged-Reads extended (filtered_range route from to reason) h =
    Reads-bind read_u8 _ (2 ∷ []) (be 8 from ++ (be 8 to ++ reason_byte reason ∷ [])) 2
      (filtered_range route from to reason) (read_u8-Reads 2)
      (Reads-bind read_u64_be _ (be 8 from) (be 8 to ++ reason_byte reason ∷ []) from
        (filtered_range route from to reason) (read_u64_be-Reads from h.0)
        (Reads-bind read_u64_be _ (be 8 to) (reason_byte reason ∷ []) to
          (filtered_range route from to reason) (read_u64_be-Reads to h.1)
          (Reads-map decode_stream_filtered_reason (filtered_range route from to)
            (reason_byte reason ∷ []) reason (reason-Reads reason))))

module _ ⦃u : Utf8⦄ where
  -- An item's route is a concrete stream route that the wire can carry, and its fields fit.
  pub record IsWireItem (extended : Bool) (i : StreamReadItem) : Type 0 where
    pub text : IsWireText (route_of i)
    pub concrete : is_route_shape (route_of i) stream_scheme 3 false ≡ true
    pub fields : FieldsFit extended i

  -- The items one after the other, each behind its route.
  abbrev pub items_bytes : Bool → List StreamReadItem → Bytes
  items_bytes extended [] = []
  items_bytes extended (i ∷ items) =
      (string_bytes (route_of i) ++ tagged_bytes extended i) ++ items_bytes extended items

  item-Reads :
      (extended : Bool) (i : StreamReadItem)
      → IsWireItem extended i
      → Reads (read_item extended) (string_bytes (route_of i) ++ tagged_bytes extended i) i
  unfolding read_item
  item-Reads extended i h =
      Reads-bind read_string _ (string_bytes (route_of i)) (tagged_bytes extended i) (route_of i) i
        (read_string-Reads (route_of i) h.text)
        (Reads-guard _ _ (decode_stream_read_item (route_of i) extended) (tagged_bytes extended i) i
          (ap not h.concrete) (tagged-Reads extended i h.fields))

  pub items-Reads :
      (extended : Bool) (items : List StreamReadItem)
      → All (IsWireItem extended) items
      → Reads (read_items extended (length items)) (items_bytes extended items) items
  unfolding read_items
  items-Reads extended [] h = Reads-pure []
  items-Reads extended (i ∷ items) h =
      Reads-bind (read_item extended) _ (string_bytes (route_of i) ++ tagged_bytes extended i)
        (items_bytes extended items) i (i ∷ items) (item-Reads extended i h.0)
        (Reads-map (read_items extended (length items)) (λ l. i ∷ l) (items_bytes extended items)
          items (items-Reads extended items h.1))
