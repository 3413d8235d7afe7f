-- ===== src/Domains/Queue/Reserve.antt =====
-- src/domains/queue/codec.ts: what a RESERVE response can bring into the client.
use mathlib.Core.Path.{subst}
use fitz_ts.Base.{
  ℕ, zero, suc, ◌≡◌, refl, ap, arith, List, [], ◌∷◌, length, ◌==◌, All, Option, some, none, Bool,
  true, false, not, ◌&&◌, ◌||◌, ltb, if◌then◌else◌, Result, ok, err, Error, queue_error,
}
use fitz_ts.Bytes.{Bytes}
use fitz_ts.Buffer.Text.{Utf8, Str}
use fitz_ts.Buffer.Reader.{
  Reader, ◌>>=◌, ◌>>◌, pure, throw_if, new_reader, run_reader, is_eof, remaining_bytes, read_string,
  read_u32_be, throw_unless_eof,
}
use fitz_ts.Buffer.Reader.Ensures.{Holds, Ensures, Ensures->>=, Ensures-any}
use fitz_ts.Response.{ParsedResponse, success, failure, parse_standard_response}
use fitz_ts.Routes.Shape.{contains_asterisk, is_route_shape}
use fitz_ts.Routes.Matcher.{route_matches_pattern}
use fitz_ts.Domains.Kv.{on_response}
use fitz_ts.Domains.Queue.{
  QueueItem, QueueReserveResponse, check_route, read_lease, with_route, checked, at_end,
  read_leases, reserved, refused, queue_scheme, mismatches, says_yes, route_of, read_item,
  read_items, read_counted, read_reserved, decode_reserved, decode_reserve_response,
}

-- The route of a lease that answers a wildcard matches it; otherwise it is the selector itself.
abbrev pub FitsSelector : Bool → Str → Str → Type 0
FitsSelector true selector route = route_matches_pattern route selector ≡ some true
FitsSelector false selector route = route ≡ selector

abbrev pub Fits : Option Str → QueueItem → Type 0
Fits none item = ⊥
Fits (some selector) item =
    (is_route_shape item.route queue_scheme 3 false ≡ true)
    × FitsSelector (contains_asterisk selector) selector item.route

-- What is known of a route before its checks.
abbrev Stems : Option Str → Str → Type 0
Stems none route = route ≡ []
Stems (some selector) route = (contains_asterisk selector ≡ false) → route ≡ selector

not-false : (b : Bool) → not b ≡ false → b ≡ true
not-false true h = refl
not-false false h = ground arith

Fits-checked :
    (selector : Option Str) (item : QueueItem)
    → Stems selector item.route
    → (length item.route == 0) ≡ false
    → not (is_route_shape item.route queue_scheme 3 false) ≡ false
    → mismatches selector item.route ≡ false
    → Fits selector item
Fits-checked none item stem some_route shape fit = absurd (ground (arith, ap length stem))
Fits-checked (some selector) item stem some_route shape fit =
    (not-false _ shape, cases (contains_asterisk selector) refl fit)
  where
    cases :
        (b : Bool)
        → contains_asterisk selector ≡ b
        → (b && not (says_yes (route_matches_pattern item.route selector))) ≡ false
        → FitsSelector b selector item.route
    cases false e h = stem e
    cases true e h = yes (route_matches_pattern item.route selector) h
      where
        yes : (o : Option Bool) → not (says_yes o) ≡ false → o ≡ some true
        yes none h = ground arith
        yes (some true) h = refl
        yes (some false) h = ground arith

module _ ⦃u : Utf8⦄ where
  route_of-Stems : (selector : Option Str) → Ensures (Stems selector) (route_of selector)
  route_of-Stems none r = refl
  route_of-Stems (some selector) r = cases (contains_asterisk selector) refl
    where
      cases :
          (b : Bool)
          → contains_asterisk selector ≡ b
          → Holds (Stems (some selector)) ((if b then read_string else pure selector) r)
      cases false e = λ _. refl
      cases true e = starred (read_string r)
        where
          starred : (x : Result (Str × Reader)) → Holds (Stems (some selector)) x
          starred (ok (route, r')) = λ no. ground (arith, e, no)
          starred (err e) = tt

  check_route-Ensures :
      (selector : Option Str) (route : Str)
      → Ensures
          (λ _.
            ((length route == 0) ≡ false)
            × (not (is_route_shape route queue_scheme 3 false) ≡ false)
            × (mismatches selector route ≡ false))
          (check_route selector route)
  unfolding check_route
  check_route-Ensures selector route r =
      cases _ _ _ (length route == 0) (not (is_route_shape route queue_scheme 3 false))
        (mismatches selector route)
    where
      cases :
          (e f g : Error) (a b c : Bool)
          → Holds
              (λ _. (a ≡ false) × (b ≡ false) × (c ≡ false))
              ((throw_if a e >> (throw_if b f >> throw_if c g)) r)
      cases e f g true b c = tt
      cases e f g false true c = tt
      cases e f g false false true = tt
      cases e f g false false false = (refl, refl, refl)

  read_item-Fits : (selector : Option Str) → Ensures (Fits selector) (read_item selector)
  unfolding read_item
  read_item-Fits selector =
      Ensures->>= _ _ (route_of selector) (checked selector) (route_of-Stems selector)
        (λ route stem.
          Ensures->>= _ _ (check_route selector route) (λ _. with_route route)
            (check_route-Ensures selector route)
            (λ _ h.
              Ensures->>= _ _ read_lease
                (λ lease.
                  pure (record { route = route; id = lease.0; token = lease.1; body = lease.2 }))
                (Ensures-any read_lease)
                (λ lease _ r.
                  Fits-checked selector
                    (record { route = route; id = lease.0; token = lease.1; body = lease.2 }) stem
                    h.0 h.1 h.2)))

  read_items-Fits :
      (selector : Option Str) (count : ℕ)
      → Ensures (All (Fits selector)) (read_items selector count)
  unfolding read_items
  read_items-Fits selector zero = λ r. tt
  read_items-Fits selector (suc count) =
      Ensures->>= _ _ (read_item selector)
        (λ item. read_items selector count >>= λ items. pure (item ∷ items))
        (read_item-Fits selector)
        (λ item h.
          Ensures->>= _ _ (read_items selector count) (λ items. pure (item ∷ items))
            (read_items-Fits selector count) (λ items hs r. (h, hs)))

  read_reserved-Fits :
      (selector : Option Str) → Ensures (All (Fits selector)) (read_reserved selector)
  unfolding read_reserved read_counted
  read_reserved-Fits selector r = cases (is_eof r || ltb (remaining_bytes r) 4)
    where
      cases :
          (b : Bool)
          → Holds (All (Fits selector)) (if b then ok ([], r) else read_counted selector r)
      cases true = tt
      cases false =
          Ensures->>= _ _ read_u32_be (read_leases selector) (Ensures-any read_u32_be)
            (λ count _.
              Ensures->>= _ _ (read_items selector count) at_end (read_items-Fits selector count)
                (λ items h.
                  Ensures->>= _ _
                    (throw_unless_eof (queue_error "RESERVE response has trailing bytes"))
                    (λ _. pure items) (Ensures-any _) (λ _ _ r. h)))
            r

  abbrev AllFit : Option Str → Result QueueReserveResponse → Type 0
  AllFit selector (ok (reserved items)) = All (Fits selector) items
  AllFit selector (ok (refused code f)) = Unit {0}
  AllFit selector (err e) = Unit {0}

  decode_reserved-AllFit :
      (selector : Option Str) (bytes : Bytes) → AllFit selector (decode_reserved selector bytes)
  decode_reserved-AllFit selector bytes =
      cases (read_reserved selector (new_reader bytes))
        (read_reserved-Fits selector (new_reader bytes))
    where
      cases :
          (x : Result (List QueueItem × Reader))
          → Holds (All (Fits selector)) x
          → AllFit selector (run_reader ((λ _. x) >>= λ items. pure (reserved items)) bytes)
      cases (ok (items, r)) h = h
      cases (err e) h = tt

  on_response-AllFit :
      (selector : Option Str) (parsed : Result ParsedResponse)
      → AllFit selector (on_response refused (decode_reserved selector) parsed)
  on_response-AllFit selector (err e) = tt
  on_response-AllFit selector (ok (success bytes)) = decode_reserved-AllFit selector bytes
  on_response-AllFit selector (ok (failure error code class effect)) = tt

  -- Whatever the broker sends, each item of a reservation that is returned has a concrete queue route of
  -- three segments: one that matches the selector, if that has an asterisk, and otherwise the
  -- selector itself.
  pub decode_reserve_response-Fits :
      (payload : Bytes) (selector : Option Str) (items : List QueueItem)
      → decode_reserve_response payload selector ≡ ok (reserved items)
      → All (Fits selector) items
  unfolding decode_reserve_response
  decode_reserve_response-Fits payload selector items e =
      subst (AllFit selector) e (on_response-AllFit selector (parse_standard_response payload))
