-- ===== src/Domains/Stream/Concrete.antt =====
-- src/domains/stream/codec.ts: what a READ response can bring into the client.
use mathlib.Core.Path.{subst}
use fitz_ts.Base.{
  ℕ, zero, suc, ◌≡◌, refl, [], ◌∷◌, All, Bool, true, false, not, ◌==◌, if◌then◌else◌, Result, ok,
  err, stream_error, plain_error,
}
use fitz_ts.Bytes.{Bytes}
use fitz_ts.Buffer.Text.{Utf8, Str}
use fitz_ts.Buffer.Reader.{
  Reader, new_reader, Read, ◌>>=◌, pure, throw_if, lift, read_u8, read_u32_be, read_u64_be,
  read_bytes, read_string, read_optional_u64, run_reader, remaining_bytes, throw_unless_eof,
}
use fitz_ts.Buffer.Reader.Ensures.{Holds, Ensures, Ensures->>=, Ensures-after, Ensures-throw_if}
use fitz_ts.Response.{ParsedResponse, success, failure, parse_standard_response}
use fitz_ts.Routes.Shape.{is_route_shape}
use fitz_ts.Routes.Selectors.{stream_scheme, is_stream_selector_shape, is_global_selector}
use fitz_ts.Domains.Kv.{on_response}
use fitz_ts.Domains.Stream.{
  StreamReadItem, StreamReadPage, StreamReply, replied, refused, event, filtered, filtered_range,
  read_optional_bytes, read_global, read_cursor, item_on, read_item, read_items, with_cursor,
  read_page, page_of, read_envelope, read_bytes_of, reply, decode_page, decode_read_response,
  decode_stream_read_item, decode_stream_record, decode_stream_filtered_reason, read_event,
  read_filtered, read_filtered_range, item_of,
}

-- An item's route is a concrete stream route of three segments, and an event's record has the same
-- route.
abbrev pub IsConcrete : StreamReadItem → Type 0
IsConcrete (event route r) = (is_route_shape route stream_scheme 3 false ≡ true) × (r.route ≡ route)
IsConcrete (filtered route offset reason) = is_route_shape route stream_scheme 3 false ≡ true
IsConcrete (filtered_range route from to reason) = is_route_shape route stream_scheme 3 false ≡ true

record-Ensures :
    (route : Str) (extended : Bool)
    → Ensures (λ r. r.route ≡ route) (decode_stream_record route extended)
unfolding decode_stream_record
record-Ensures route extended = Ensures-after _ read_u64_be _ λ offset.
    Ensures-after _ read_optional_u64 _ λ area. Ensures-after _ read_optional_u64 _ λ realm.
      Ensures-after _ (read_global extended) _ λ whole. Ensures-after _ read_u32_be _ λ body_length.
        Ensures-after _ (read_bytes body_length) _ λ body.
          Ensures-after _ read_optional_bytes _
            λ metadata. Ensures-after _ read_u64_be _ λ timestamp r. refl

filtered-Ensures :
    (route : Str)
    → is_route_shape route stream_scheme 3 false ≡ true
    → Ensures IsConcrete (read_filtered route)
unfolding read_filtered
filtered-Ensures route h =
    Ensures-after _ read_u64_be _
      λ offset. Ensures-after _ decode_stream_filtered_reason _ λ reason r. h

filtered_range-Ensures :
    (route : Str)
    → is_route_shape route stream_scheme 3 false ≡ true
    → Ensures IsConcrete (read_filtered_range route)
unfolding read_filtered_range
filtered_range-Ensures route h = Ensures-after _ read_u64_be _ λ from.
    Ensures-after _ read_u64_be _
      λ to. Ensures-after _ decode_stream_filtered_reason _ λ reason r. h

event-Ensures :
    (route : Str) (extended : Bool)
    → is_route_shape route stream_scheme 3 false ≡ true
    → Ensures IsConcrete (read_event route extended)
unfolding read_event
event-Ensures route extended h =
    Ensures->>= (λ r. r.route ≡ route) IsConcrete (decode_stream_record route extended)
      (λ r. pure (event route r)) (record-Ensures route extended) λ r same place. (h, same)

Ensures-if :
    {A : Type 0} (Q : A → Type 0) (b : Bool) (m k : Read A)
    → Ensures Q m
    → Ensures Q k
    → Ensures Q (if b then m else k)
Ensures-if Q true m k hm hk = hm
Ensures-if Q false m k hm hk = hk

tagged-Ensures :
    (route : Str) (extended : Bool)
    → is_route_shape route stream_scheme 3 false ≡ true
    → Ensures IsConcrete (decode_stream_read_item route extended)
unfolding decode_stream_read_item
tagged-Ensures route extended h = Ensures-after IsConcrete read_u8 (item_of route extended) λ tag.
    Ensures-if IsConcrete (tag == 0) _ _ (event-Ensures route extended h) (
      Ensures-if IsConcrete (tag == 1) _ _ (filtered-Ensures route h)
        (Ensures-if IsConcrete (tag == 2) _ _ (filtered_range-Ensures route h) (λ r. tt)))

not-false : (b : Bool) → not b ≡ false → b ≡ true
not-false true h = refl
not-false false h = cc

module _ ⦃u : Utf8⦄ where
  item-Ensures : (extended : Bool) → Ensures IsConcrete (read_item extended)
  unfolding read_item
  item-Ensures extended = Ensures-after IsConcrete read_string (item_on extended) λ route.
      Ensures->>= _ IsConcrete
        (throw_if (not (is_route_shape route stream_scheme 3 false))
          (stream_error "READ response contains invalid concrete stream route"))
        (λ _. decode_stream_read_item route extended) (Ensures-throw_if _ _)
        λ _ shape. tagged-Ensures route extended (not-false _ shape)

  items-Ensures :
      (extended : Bool) (count : ℕ) → Ensures (All IsConcrete) (read_items extended count)
  unfolding read_items
  items-Ensures extended zero = λ r. tt
  items-Ensures extended (suc count) =
      Ensures->>= IsConcrete (All IsConcrete) (read_item extended)
        (λ item. read_items extended count >>= λ items. pure (item ∷ items)) (item-Ensures extended)
        λ item h.
          Ensures->>= (All IsConcrete) (All IsConcrete) (read_items extended count)
            (λ items. pure (item ∷ items)) (items-Ensures extended count) λ items hs r. (h, hs)

  abbrev PageIsConcrete : StreamReadPage → Type 0
  PageIsConcrete page = All IsConcrete page.items

  page-Ensures : (extended : Bool) → Ensures PageIsConcrete (read_page extended)
  unfolding read_page
  page-Ensures extended = Ensures-after PageIsConcrete read_u32_be _ λ count.
      Ensures->>= (All IsConcrete) PageIsConcrete (read_items extended count) (with_cursor extended)
        (items-Ensures extended count)
        λ items h. Ensures-after PageIsConcrete (read_cursor extended) _ λ cursor.
          Ensures-after PageIsConcrete
            (throw_unless_eof (plain_error "READ response has trailing bytes")) _ λ _ r. h

  -- A reader's value, without its place.
  abbrev Ends : {A : Type 0} → (A → Type 0) → Result A → Type 0
  Ends P (ok a) = P a
  Ends P (err e) = Unit {0}

  run_reader-Ends :
      {A : Type 0} (P : A → Type 0) (m : Read A) (bytes : Bytes)
      → Ensures P m
      → Ends P (run_reader m bytes)
  run_reader-Ends {A} P m bytes h = cases (m (new_reader bytes)) (h (new_reader bytes))
    where
      cases :
          (x : Result (A × Reader))
          → Holds P x
          → Ends P (elim x as (λ _. Result A) [ ok (a, r) ↦ ok a | err e ↦ err e ])
      cases (ok (a, r)) p = p
      cases (err e) p = tt

  lift-Ensures : {A : Type 0} (P : A → Type 0) (x : Result A) → Ends P x → Ensures P (lift x)
  lift-Ensures P (ok a) h r = h
  lift-Ensures P (err e) h r = tt

  envelope-Ensures : (extended : Bool) → Ensures PageIsConcrete (read_envelope extended)
  unfolding read_envelope
  envelope-Ensures extended = Ensures-after PageIsConcrete read_u8 _ λ flag.
      Ensures-after PageIsConcrete
        (throw_if (not (flag == 0)) (stream_error "READ response has invalid session flag")) _
        λ _. Ensures-after PageIsConcrete read_u32_be (page_of extended) λ data_length r.
          Ensures-after PageIsConcrete
            (throw_if (not (data_length == remaining_bytes r))
              (stream_error "READ response has invalid payload length"))
            _
            (λ _. Ensures-after PageIsConcrete (read_bytes data_length) _ λ bytes.
              lift-Ensures PageIsConcrete (run_reader (read_page extended) bytes)
                (run_reader-Ends PageIsConcrete (read_page extended) bytes (page-Ensures extended)))
            r

  abbrev AllConcrete : Result (StreamReply StreamReadPage) → Type 0
  AllConcrete (ok (replied page)) = PageIsConcrete page
  AllConcrete (ok (refused code f)) = Unit {0}
  AllConcrete (err e) = Unit {0}

  reply-AllConcrete : (x : Result StreamReadPage) → Ends PageIsConcrete x → AllConcrete (reply x)
  reply-AllConcrete (ok page) h = h
  reply-AllConcrete (err e) h = tt

  bytes-Ends :
      (extended : Bool) (bytes : Bytes) → Ends PageIsConcrete (read_bytes_of extended bytes)
  bytes-Ends extended [] = tt
  bytes-Ends extended (b ∷ bs) =
      run_reader-Ends PageIsConcrete (read_envelope extended) (b ∷ bs) (envelope-Ensures extended)

  decode_page-AllConcrete :
      (selector : Str) (bytes : Bytes) → AllConcrete (decode_page selector bytes)
  decode_page-AllConcrete selector bytes = cases (not (is_stream_selector_shape selector))
    where
      page : Result (StreamReply StreamReadPage)
      page = reply (read_bytes_of (is_global_selector selector) bytes)

      cases :
          (b : Bool)
          → AllConcrete (
              if b
              then err (stream_error "READ response requires a canonical stream selector")
              else page)
      cases true = tt
      cases false =
          reply-AllConcrete (read_bytes_of (is_global_selector selector) bytes)
            (bytes-Ends (is_global_selector selector) bytes)

  on_response-AllConcrete :
      (selector : Str) (parsed : Result ParsedResponse)
      → AllConcrete (on_response refused (decode_page selector) parsed)
  on_response-AllConcrete selector (err e) = tt
  on_response-AllConcrete selector (ok (success bytes)) = decode_page-AllConcrete selector bytes
  on_response-AllConcrete selector (ok (failure error code class effect)) = tt

  -- Whatever the broker sends, each item of a page that is returned, an event, a filtered offset or a
  -- filtered range, has a concrete stream route of three segments, and the record of an event has
  -- that same route.
  pub decode_read_response-IsConcrete :
      (payload : Bytes) (selector : Str) (page : StreamReadPage)
      → decode_read_response payload selector ≡ ok (replied page)
      → All IsConcrete page.items
  unfolding decode_read_response
  decode_read_response-IsConcrete payload selector page e =
      subst AllConcrete e (on_response-AllConcrete selector (parse_standard_response payload))
