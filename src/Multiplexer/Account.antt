-- ===== src/Multiplexer/Account.antt =====
-- src/client/multiplexer.ts: the account of a request over each operation.
use fitz_ts.Base.{
  ℕ, ◌+◌, ◌≡◌, refl, List, [], ◌∷◌, ◌++◌, Option, some, none, Bool, true, false, ◌==◌, not, ◌&&◌,
  if◌then◌else◌, arith, Bool-cases, inl, inr, Result, ok, err,
}
use fitz_ts.Bytes.{Bytes}
use fitz_ts.Frame.Codec.{with_correlation}
use fitz_ts.Multiplexer.{
  Multiplexer, PendingRequest, cancel_all, get, delete, discard, unregister, on_discarded,
  on_unregistered, on_labelled, on_found, fail_request, send_rejected, issue_request, dispatch,
  entry, reject_all, behind, Outcome, refused, correlation_ids_exhausted, not_encoded, sent,
  resolved, rejected, unexpected_correlation, Reason,
}
use fitz_ts.Multiplexer.Fresh.{IsFresh, put-fresh}

-- How often the frame of request `a` was sent.
abbrev pub sends : ℕ → List Outcome → ℕ
sends a [] = 0
sends a (sent id frame ∷ os) = (if id == a then 1 else 0) + sends a os
sends a (_ ∷ os) = sends a os

-- How often request `a` was settled.
abbrev pub settles : ℕ → List Outcome → ℕ
settles a [] = 0
settles a (resolved id payload ∷ os) = (if id == a then 1 else 0) + settles a os
settles a (rejected id reason ∷ os) = (if id == a then 1 else 0) + settles a os
settles a (_ ∷ os) = settles a os

abbrev pub waits : ℕ → PendingRequest → ℕ
waits a p = if p.id == a && not p.discard_response then 1 else 0

-- How many entries of request `a` wait for a response.
abbrev pub live : ℕ → List PendingRequest → ℕ
live a [] = 0
live a (p ∷ ps) = waits a p + live a ps

pub sends-append : (a : ℕ) (os qs : List Outcome) → sends a (os ++ qs) ≡ sends a os + sends a qs
sends-append a [] qs = omega arith
sends-append a (sent id frame ∷ os) qs = omega (arith, sends-append a os qs)
sends-append a (refused id ∷ os) qs = sends-append a os qs
sends-append a (correlation_ids_exhausted id ∷ os) qs = sends-append a os qs
sends-append a (not_encoded id e ∷ os) qs = sends-append a os qs
sends-append a (resolved id payload ∷ os) qs = sends-append a os qs
sends-append a (rejected id reason ∷ os) qs = sends-append a os qs
sends-append a (unexpected_correlation c ∷ os) qs = sends-append a os qs

pub settles-append :
    (a : ℕ) (os qs : List Outcome) → settles a (os ++ qs) ≡ settles a os + settles a qs
settles-append a [] qs = omega arith
settles-append a (sent id frame ∷ os) qs = settles-append a os qs
settles-append a (refused id ∷ os) qs = settles-append a os qs
settles-append a (correlation_ids_exhausted id ∷ os) qs = settles-append a os qs
settles-append a (not_encoded id e ∷ os) qs = settles-append a os qs
settles-append a (resolved id payload ∷ os) qs = omega (arith, settles-append a os qs)
settles-append a (rejected id reason ∷ os) qs = omega (arith, settles-append a os qs)
settles-append a (unexpected_correlation c ∷ os) qs = settles-append a os qs

live-append : (a : ℕ) (ps qs : List PendingRequest) → live a (ps ++ qs) ≡ live a ps + live a qs
live-append a [] qs = omega arith
live-append a (p ∷ ps) qs = omega (arith, live-append a ps qs)

-- A step keeps the account of `a`: what waited or was sent waits or is settled.
abbrev pub Balanced : ℕ → Multiplexer → Multiplexer × List Outcome → Type 0
Balanced a m r = live a m.pending + sends a r.1 ≡ settles a r.1 + live a r.0.pending

live-reject_all : (a : ℕ) (ps : List PendingRequest) → live a ps ≡ settles a (reject_all ps)
unfolding reject_all
live-reject_all a [] = refl
live-reject_all a (p ∷ ps) = ground (arith, live-reject_all a ps)

sends-reject_all : (a : ℕ) (ps : List PendingRequest) → sends a (reject_all ps) ≡ 0
unfolding reject_all
sends-reject_all a [] = refl
sends-reject_all a (p ∷ ps) = ground (arith, sends-reject_all a ps)

pub cancel_all-Balanced : (a : ℕ) (m : Multiplexer) → Balanced a m (cancel_all m)
unfolding cancel_all
cancel_all-Balanced a m = omega (arith, live-reject_all a m.pending, sends-reject_all a m.pending)

-- What the search for a live entry of `id` leaves: all but one of the entries that wait.
abbrev TakesOne : ℕ → ℕ → List PendingRequest → Option (List PendingRequest) → Type 0
TakesOne a id ps none = Unit {0}
TakesOne a id ps (some qs) = live a ps ≡ (if id == a then 1 else 0) + live a qs

behind-TakesOne :
    (a id : ℕ) (p : PendingRequest) (ps : List PendingRequest) (o : Option (List PendingRequest))
    → TakesOne a id ps o
    → TakesOne a id (p ∷ ps) (behind p o)
behind-TakesOne a id p ps none t = tt
behind-TakesOne a id p ps (some qs) t = omega arith

discard-TakesOne : (a id : ℕ) (ps : List PendingRequest) → TakesOne a id ps (discard id ps)
unfolding discard
discard-TakesOne a id [] = tt
discard-TakesOne a id (p ∷ ps) = elim (Bool-cases (p.id == id && not p.discard_response)) [
  | inl found ↦ rw found (ground (arith, found))
  | inr other ↦ rw other (behind-TakesOne a id p ps (discard id ps) (discard-TakesOne a id ps))
]

unregister-TakesOne : (a id : ℕ) (ps : List PendingRequest) → TakesOne a id ps (unregister id ps)
unfolding unregister
unregister-TakesOne a id [] = tt
unregister-TakesOne a id (p ∷ ps) = elim (Bool-cases (p.id == id && not p.discard_response)) [
  | inl found ↦ rw found (ground (arith, found))
  | inr other ↦
      rw other (behind-TakesOne a id p ps (unregister id ps) (unregister-TakesOne a id ps))
]

pub fail_request-Balanced :
    (a : ℕ) (m : Multiplexer) (id : ℕ) (reason : Reason) → Balanced a m (fail_request m id reason)
unfolding fail_request
fail_request-Balanced a m id reason =
    by_cases (discard id m.pending) (discard-TakesOne a id m.pending)
  where
    by_cases :
        (o : Option (List PendingRequest))
        → TakesOne a id m.pending o
        → Balanced a m (on_discarded m id reason o)
    by_cases none t = omega arith
    by_cases (some ps) t = omega arith

pub send_rejected-Balanced : (a : ℕ) (m : Multiplexer) (id : ℕ) → Balanced a m (send_rejected m id)
unfolding send_rejected
send_rejected-Balanced a m id =
    by_cases (unregister id m.pending) (unregister-TakesOne a id m.pending)
  where
    by_cases :
        (o : Option (List PendingRequest))
        → TakesOne a id m.pending o
        → Balanced a m (on_unregistered m id o)
    by_cases none t = omega arith
    by_cases (some ps) t = omega arith

on_labelled-Balanced :
    (a : ℕ) (m : Multiplexer) (id : ℕ) (r : Result Bytes)
    → (m.next_correlation_id == 0) ≡ false
    → IsFresh m
    → Balanced a m (on_labelled m id r)
on_labelled-Balanced a m id (err e) more h = omega arith
on_labelled-Balanced a m id (ok frame) more h =
    let p = entry id m.next_correlation_id in
    rw (put-fresh p m.pending (rw more at h)) (ground (arith, live-append a m.pending (p ∷ [])))

pub issue_request-Balanced :
    (a : ℕ) (m : Multiplexer) (id : ℕ) (frame : Bytes) (signal_aborted : Bool)
    → IsFresh m
    → Balanced a m (issue_request m id frame signal_aborted)
unfolding issue_request
issue_request-Balanced a m id frame true h = omega arith
issue_request-Balanced a m id frame false h = elim (Bool-cases (m.next_correlation_id == 0)) [
  | inl over ↦ rw over (omega arith)
  | inr more ↦
      rw more (on_labelled-Balanced a m id (with_correlation frame m.next_correlation_id) more h)
]

-- An entry of `ps`, and the others.
abbrev Parts : ℕ → List PendingRequest → Option PendingRequest → List PendingRequest → Type 0
Parts a ps none qs = Unit {0}
Parts a ps (some p) qs = live a ps ≡ waits a p + live a qs

behind-Parts :
    (a : ℕ) (p : PendingRequest) (ps : List PendingRequest) (o : Option PendingRequest)
    (qs : List PendingRequest)
    → Parts a ps o qs
    → Parts a (p ∷ ps) o (p ∷ qs)
behind-Parts a p ps none qs h = tt
behind-Parts a p ps (some q) qs h = omega arith

get-Parts : (a c : ℕ) (ps : List PendingRequest) → Parts a ps (get c ps) (delete c ps)
unfolding get delete
get-Parts a c [] = tt
get-Parts a c (p ∷ ps) = elim (Bool-cases (p.correlation_id == c)) [
  | inl here ↦ rw here refl
  | inr other ↦ rw other (behind-Parts a p ps (get c ps) (delete c ps) (get-Parts a c ps))
]

on_found-Balanced :
    (a : ℕ) (m : Multiplexer) (c : ℕ) (payload : Bytes) (final : Bool) (o : Option PendingRequest)
    → Parts a m.pending o (delete c m.pending)
    → Balanced a m (on_found m c payload final o)
on_found-Balanced a m c payload final none h = omega arith
on_found-Balanced a m c payload final (some p) h = ground (arith, h)

pub dispatch-Balanced :
    (a : ℕ) (m : Multiplexer) (c : ℕ) (payload : Bytes) (final : Bool)
    → Balanced a m (dispatch m c payload final)
unfolding dispatch
dispatch-Balanced a m c payload final =
    on_found-Balanced a m c payload final (get c m.pending) (get-Parts a c m.pending)
