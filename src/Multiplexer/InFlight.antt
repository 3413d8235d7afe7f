-- ===== src/Multiplexer/InFlight.antt =====
-- src/client/multiplexer.ts: what requestsInFlight counts.
use fitz_ts.Base.{
  ℕ, ◌+◌, ◌<◌, ◌≡◌, refl, ap, List, [], ◌∷◌, ◌++◌, All, Option, some, none, Bool, true, false, ◌==◌,
  not, ◌&&◌, if◌then◌else◌, arith, Bool-cases, inl, inr, Result, ok, err,
}
use fitz_ts.Bytes.{Bytes}
use fitz_ts.Frame.Codec.{with_correlation}
use fitz_ts.Multiplexer.{
  Multiplexer, PendingRequest, new_multiplexer, set_connected, cancel_all, set_disconnected, get,
  delete, discard, unregister, on_discarded, on_unregistered, on_labelled, on_found, fail_request,
  send_rejected, send_resolved, issue_request, dispatch, entry, behind, Event, connects,
  disconnects, cancels, issues, fails, send_rejects, send_resolves, responds, step, run, Reason,
  connection_closed, rejected, send_failed,
}
use fitz_ts.Multiplexer.Fresh.{IsFresh, AllHonest, put-fresh, step-IsFresh}
use fitz_ts.Multiplexer.Account.{live}

abbrev pub weight : PendingRequest → ℕ
weight p = if p.discard_response then 0 else 1

-- How many entries wait for a response.
abbrev pub unsettled : List PendingRequest → ℕ
unsettled [] = 0
unsettled (p ∷ ps) = weight p + unsettled ps

abbrev pub IsCounted : Multiplexer → Type 0
IsCounted m = m.requests_in_flight ≡ unsettled m.pending

-- Every promise of `send` is resolved, or its rejection comes after the request is settled.
abbrev pub IsDelivered : Event → Type 0
IsDelivered (send_rejects id) = ⊥
IsDelivered _ = Unit {0}

unsettled-append :
    (ps qs : List PendingRequest) → unsettled (ps ++ qs) ≡ unsettled ps + unsettled qs
unsettled-append [] qs = omega arith
unsettled-append (p ∷ ps) qs = omega (arith, unsettled-append ps qs)

abbrev OneLess : List PendingRequest → Option (List PendingRequest) → Type 0
OneLess ps none = Unit {0}
OneLess ps (some qs) = unsettled ps ≡ unsettled qs + 1

behind-OneLess :
    (p : PendingRequest) (ps : List PendingRequest) (o : Option (List PendingRequest))
    → OneLess ps o
    → OneLess (p ∷ ps) (behind p o)
behind-OneLess p ps none h = tt
behind-OneLess p ps (some qs) h = omega arith

discard-OneLess : (id : ℕ) (ps : List PendingRequest) → OneLess ps (discard id ps)
unfolding discard
discard-OneLess id [] = tt
discard-OneLess id (p ∷ ps) = elim (Bool-cases (p.id == id && not p.discard_response)) [
  | inl found ↦ rw found (ground (arith, found))
  | inr other ↦ rw other (behind-OneLess p ps (discard id ps) (discard-OneLess id ps))
]

unregister-OneLess : (id : ℕ) (ps : List PendingRequest) → OneLess ps (unregister id ps)
unfolding unregister
unregister-OneLess id [] = tt
unregister-OneLess id (p ∷ ps) = elim (Bool-cases (p.id == id && not p.discard_response)) [
  | inl found ↦ rw found (ground (arith, found))
  | inr other ↦ rw other (behind-OneLess p ps (unregister id ps) (unregister-OneLess id ps))
]

abbrev Split : List PendingRequest → Option PendingRequest → List PendingRequest → Type 0
Split ps none qs = Unit {0}
Split ps (some p) qs = unsettled ps ≡ weight p + unsettled qs

behind-Split :
    (p : PendingRequest) (ps : List PendingRequest) (o : Option PendingRequest)
    (qs : List PendingRequest)
    → Split ps o qs
    → Split (p ∷ ps) o (p ∷ qs)
behind-Split p ps none qs h = tt
behind-Split p ps (some q) qs h = omega arith

get-Split : (c : ℕ) (ps : List PendingRequest) → Split ps (get c ps) (delete c ps)
unfolding get delete
get-Split c [] = tt
get-Split c (p ∷ ps) = elim (Bool-cases (p.correlation_id == c)) [
  | inl here ↦ rw here refl
  | inr other ↦ rw other (behind-Split p ps (get c ps) (delete c ps) (get-Split c ps))
]

fail_request-IsCounted :
    (m : Multiplexer) (id : ℕ) (reason : Reason)
    → IsCounted m
    → IsCounted (fail_request m id reason).0
unfolding fail_request
fail_request-IsCounted m id reason h =
    by_cases (discard id m.pending) (discard-OneLess id m.pending)
  where
    by_cases :
        (o : Option (List PendingRequest))
        → OneLess m.pending o
        → IsCounted (on_discarded m id reason o).0
    by_cases none t = h
    by_cases (some ps) t = omega arith

on_labelled-IsCounted :
    (m : Multiplexer) (id : ℕ) (r : Result Bytes)
    → (m.next_correlation_id == 0) ≡ false
    → IsFresh m
    → IsCounted m
    → IsCounted (on_labelled m id r).0
on_labelled-IsCounted m id (err e) more f h = h
on_labelled-IsCounted m id (ok frame) more f h =
    let p = entry id m.next_correlation_id in
    rw (put-fresh p m.pending (rw more at f)) (omega (arith, unsettled-append m.pending (p ∷ [])))

issue_request-IsCounted :
    (m : Multiplexer) (id : ℕ) (frame : Bytes) (signal_aborted : Bool)
    → IsFresh m
    → IsCounted m
    → IsCounted (issue_request m id frame signal_aborted).0
unfolding issue_request
issue_request-IsCounted m id frame true f h = h
issue_request-IsCounted m id frame false f h = elim (Bool-cases (m.next_correlation_id == 0)) [
  | inl over ↦ rw over h
  | inr more ↦
      rw more (on_labelled-IsCounted m id (with_correlation frame m.next_correlation_id) more f h)
]

on_found-IsCounted :
    (m : Multiplexer) (c : ℕ) (payload : Bytes) (final : Bool) (o : Option PendingRequest)
    → Split m.pending o (delete c m.pending)
    → IsCounted m
    → IsCounted (on_found m c payload final o).0
on_found-IsCounted m c payload final none t h = h
on_found-IsCounted m c payload final (some p) t h = ground (arith, t)

step-IsCounted :
    (m : Multiplexer) (e : Event) → IsDelivered e → IsFresh m → IsCounted m → IsCounted (step m e).0
unfolding step set_connected set_disconnected cancel_all send_resolved dispatch
step-IsCounted m connects d f h = h
step-IsCounted m disconnects d f h = refl
step-IsCounted m cancels d f h = refl
step-IsCounted m (issues id frame signal_aborted) d f h =
    issue_request-IsCounted m id frame signal_aborted f h
step-IsCounted m (fails id reason) d f h = fail_request-IsCounted m id reason h
step-IsCounted m (send_rejects id) d f h = elim d [ ]
step-IsCounted m (send_resolves id) d f h =
    ground (arith, fail_request-IsCounted m id connection_closed h)
step-IsCounted m (responds c payload final) d f h =
    on_found-IsCounted m c payload final (get c m.pending) (get-Split c m.pending) h

run-IsCounted :
    (m : Multiplexer) (es : List Event)
    → All IsDelivered es
    → AllHonest m es
    → IsFresh m
    → IsCounted m
    → IsCounted (run m es).0
unfolding run
run-IsCounted m [] d t f h = h
run-IsCounted m (e ∷ es) d t f h =
    run-IsCounted (step m e).0 es d.1 t.1 (step-IsFresh m e t.0 f) (step-IsCounted m e d.0 f h)

-- In every history without a rejected send, in which the connection is set up only when nothing is
-- pending, requestsInFlight is the number of entries that wait for a response.
pub run-new_multiplexer-IsCounted :
    (es : List Event)
    → All IsDelivered es
    → AllHonest new_multiplexer es
    → IsCounted (run new_multiplexer es).0
unfolding new_multiplexer
run-new_multiplexer-IsCounted es d t = run-IsCounted new_multiplexer es d t tt refl

abbrev Missing : ℕ → List PendingRequest → Option (List PendingRequest) → Type 0
Missing id ps none = live id ps ≡ 0
Missing id ps (some qs) = Unit {0}

behind-Missing :
    (id : ℕ) (p : PendingRequest) (ps : List PendingRequest) (o : Option (List PendingRequest))
    → (p.id == id && not p.discard_response) ≡ false
    → Missing id ps o
    → Missing id (p ∷ ps) (behind p o)
behind-Missing id p ps none other h = rw other (omega (arith, h))
behind-Missing id p ps (some qs) other h = tt

unregister-Missing : (id : ℕ) (ps : List PendingRequest) → Missing id ps (unregister id ps)
unfolding unregister
unregister-Missing id [] = refl
unregister-Missing id (p ∷ ps) = elim (Bool-cases (p.id == id && not p.discard_response)) [
  | inl found ↦ rw found tt
  | inr other ↦
      rw other (behind-Missing id p ps (unregister id ps) other (unregister-Missing id ps))
]

-- The lists without and with one unsettled entry of request `id` in between.
abbrev pub Leaves : ℕ → List PendingRequest → List PendingRequest → Type 0
Leaves id ps qs =
    (before : List PendingRequest) × (p : PendingRequest) × (after : List PendingRequest) × (ps
      ≡ before ++ p ∷ after)
    × (qs ≡ before ++ after)
    × (p.id ≡ id)
    × (p.discard_response ≡ false)

abbrev Left : ℕ → List PendingRequest → Option (List PendingRequest) → Type 0
Left id ps none = Unit {0}
Left id ps (some qs) = Leaves id ps qs

behind-Left :
    (id : ℕ) (q : PendingRequest) (ps : List PendingRequest) (o : Option (List PendingRequest))
    → Left id ps o
    → Left id (q ∷ ps) (behind q o)
behind-Left id q ps none h = tt
behind-Left id q ps (some qs) h =
    let (before, p, after, whole, rest, same, unsettled_still) = h in
    (q ∷ before, p, after, ap (λ l. q ∷ l) whole, ap (λ l. q ∷ l) rest, same, unsettled_still)

unregister-Left : (id : ℕ) (ps : List PendingRequest) → Left id ps (unregister id ps)
unfolding unregister
unregister-Left id [] = tt
unregister-Left id (p ∷ ps) = elim (Bool-cases (p.id == id && not p.discard_response)) [
  | inl found ↦ rw found ([], p, ps, refl, refl, ground (arith, found), ground (arith, found))
  | inr other ↦ rw other (behind-Left id p ps (unregister id ps) (unregister-Left id ps))
]

-- When the send of a waiting request is rejected, an unsettled entry of it leaves the map and all
-- others stay, the request is rejected, once, and requestsInFlight stays: where it was the number of
-- waiting entries it is one more than that afterwards.
pub send_rejected_leaks :
    (m : Multiplexer) (id : ℕ)
    → IsCounted m
    → 0 < live id m.pending
    → let x = send_rejected m id in
      Leaves id m.pending x.0.pending
      × (x.1 ≡ rejected id send_failed ∷ [])
      × (x.0.requests_in_flight ≡ unsettled x.0.pending + 1)
unfolding send_rejected
send_rejected_leaks m id h waiting =
    by_cases (unregister id m.pending) (unregister-OneLess id m.pending)
      (unregister-Missing id m.pending) (unregister-Left id m.pending)
  where
    by_cases :
        (o : Option (List PendingRequest))
        → OneLess m.pending o
        → Missing id m.pending o
        → Left id m.pending o
        → let x = on_unregistered m id o in
          Leaves id m.pending x.0.pending
          × (x.1 ≡ rejected id send_failed ∷ [])
          × (x.0.requests_in_flight ≡ unsettled x.0.pending + 1)
    by_cases none t g l = absurd (omega arith)
    by_cases (some ps) t g l = (l, refl, omega arith)
