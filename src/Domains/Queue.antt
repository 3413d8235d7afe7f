-- ===== src/Domains/Queue.antt =====
-- src/domains/queue/codec.ts: the response to a RESERVE request.
pub mod Reserve
use fitz_ts.Base.{
  ℕ, zero, suc, List, [], ◌∷◌, length, Option, some, none, Bool, true, false, ltb, ◌==◌, not, ◌&&◌,
  ◌||◌, if◌then◌else◌, Result, ok, err, Error, queue_error,
}
use fitz_ts.Bytes.{Bytes}
use fitz_ts.Buffer.Text.{Utf8, Str}
use fitz_ts.Buffer.Reader.{
  Reader, Read, ◌>>=◌, ◌>>◌, pure, throw_if, read_u32_be, read_u64_be, read_bytes, read_string,
  run_reader, is_eof, remaining_bytes, throw_unless_eof,
}
use fitz_ts.Response.{parse_standard_response}
use fitz_ts.Routes.Shape.{contains_asterisk, is_route_shape}
use fitz_ts.Routes.Matcher.{route_matches_pattern}
use fitz_ts.Domains.Kv.{Failure, on_response}

pub record QueueItem : Type 0 where
  pub route : Str
  pub id : ℕ
  pub token : ℕ
  pub body : Bytes

-- `status` 0 and the items, or `status` 1 with the code and the rest of the failure.
pub data QueueReserveResponse : Type 0 where
  reserved : List QueueItem → QueueReserveResponse
  refused : ℕ → Failure → QueueReserveResponse

-- "queue"
abbrev pub queue_scheme : Str
queue_scheme = 113 ∷ 117 ∷ 101 ∷ 117 ∷ 101 ∷ []

-- What the matcher says; `none`, that its fuel ran out, is no yes.
abbrev pub says_yes : Option Bool → Bool
says_yes (some b) = b
says_yes none = false

-- `wildcard && selector && !routeMatchesPattern(route, selector)`
abbrev pub mismatches : Option Str → Str → Bool
mismatches none route = false
mismatches (some selector) route =
    contains_asterisk selector && not (says_yes (route_matches_pattern route selector))

module _ ⦃u : Utf8⦄ where
  -- `wildcard ? reader.readRoute() : selector`, where undefined is the empty text.
  abbrev pub route_of : Option Str → Read Str
  route_of none = pure []
  route_of (some selector) = if contains_asterisk selector then read_string else pure selector

  unfoldable pub check_route : Option Str → Str → Read (Unit {0})
  check_route selector route = do
    throw_if (length route == 0) (queue_error "RESERVE response missing concrete route")
    throw_if (not (is_route_shape route queue_scheme 3 false))
        (queue_error "RESERVE response contains invalid concrete queue route")
    throw_if (mismatches selector route)
        (queue_error "RESERVE response route does not match selector")

  -- `id`, `token` and `body`.
  unfoldable pub read_lease : Read (ℕ × ℕ × Bytes)
  read_lease = do
    id ← read_u64_be
    token ← read_u64_be
    body_len ← read_u32_be
    body ← read_bytes body_len
    pure (id, token, body)

  abbrev pub with_route : Str → Read QueueItem
  with_route route = do
    lease ← read_lease
    pure (record { route = route; id = lease.0; token = lease.1; body = lease.2 })

  abbrev pub checked : Option Str → Str → Read QueueItem
  checked selector route = check_route selector route >> with_route route

  unfoldable pub read_item : Option Str → Read QueueItem
  read_item selector = route_of selector >>= checked selector

  unfoldable pub read_items : Option Str → ℕ → Read (List QueueItem)
  read_items selector zero = pure []
  read_items selector (suc count) = do
    item ← read_item selector
    items ← read_items selector count
    pure (item ∷ items)

  abbrev pub at_end : List QueueItem → Read (List QueueItem)
  at_end items = throw_unless_eof (queue_error "RESERVE response has trailing bytes") >> pure items

  abbrev pub read_leases : Option Str → ℕ → Read (List QueueItem)
  read_leases selector lease_count = read_items selector lease_count >>= at_end

  unfoldable pub read_counted : Option Str → Read (List QueueItem)
  read_counted selector = read_u32_be >>= read_leases selector

  unfoldable pub read_reserved : Option Str → Read (List QueueItem)
  read_reserved selector r =
      if is_eof r || ltb (remaining_bytes r) 4 then ok ([], r) else read_counted selector r

  abbrev pub decode_reserved : Option Str → Bytes → Result QueueReserveResponse
  decode_reserved selector bytes =
      run_reader (read_reserved selector >>= λ items. pure (reserved items)) bytes

  unfoldable pub decode_reserve_response : Bytes → Option Str → Result QueueReserveResponse
  decode_reserve_response payload selector =
      on_response refused (decode_reserved selector) (parse_standard_response payload)
