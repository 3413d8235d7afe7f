-- ===== src/Multiplexer/Fresh.antt =====
-- src/client/multiplexer.ts: the correlations in the map are older than the next one.
use fitz_ts.Base.{
  ℕ, ◌+◌, ◌<◌, ◌^◌, ◌≡◌, refl, List, [], ◌∷◌, ◌++◌, All, Option, some, none, Bool, true, false,
  ◌==◌, if◌then◌else◌, arith, Bool-cases, inl, inr, Result, ok, err,
}
use fitz_ts.Bytes.{Bytes}
use fitz_ts.Frame.Codec.{with_correlation}
use fitz_ts.Multiplexer.{
  connection_closed, Multiplexer, PendingRequest, set_connected, cancel_all, set_disconnected, put,
  get, delete, discard, unregister, on_discarded, on_unregistered, on_labelled, on_found,
  fail_request, send_rejected, send_resolved, issue_request, dispatch, entry, after_correlation,
  Event, connects, disconnects, cancels, issues, fails, send_rejects, send_resolves, responds, step,
  Reason,
}

-- All 64-bit correlations are in use when the next one is 0.
abbrev pub limit : ℕ → ℕ
limit next = if next == 0 then 2 ^ 64 else next

abbrev pub Below : ℕ → List PendingRequest → Type 0
Below n ps = All (λ p. p.correlation_id < n) ps

abbrev pub IsFresh : Multiplexer → Type 0
IsFresh m = Below (limit m.next_correlation_id) m.pending

-- The connection is set up again only when nothing is pending, as after set_disconnected.
abbrev pub Honest : Multiplexer → Event → Type 0
Honest m connects = m.pending ≡ []
Honest m _ = Unit {0}

abbrev pub AllHonest : Multiplexer → List Event → Type 0
AllHonest m [] = Unit {0}
AllHonest m (e ∷ es) = Honest m e × AllHonest (step m e).0 es

pub put-fresh :
    (p : PendingRequest) (ps : List PendingRequest)
    → Below p.correlation_id ps
    → put p ps ≡ ps ++ p ∷ []
unfolding put
put-fresh p [] h = refl
put-fresh p (q ∷ qs) h = ground (arith, put-fresh p qs h.1)

Below-le : (m n : ℕ) (ps : List PendingRequest) → m < n → Below m ps → Below n ps
Below-le m n [] l h = tt
Below-le m n (p ∷ ps) l h = (omega arith, Below-le m n ps l h.1)

Below-put :
    (n : ℕ) (p : PendingRequest) (ps : List PendingRequest)
    → p.correlation_id < n
    → Below n ps
    → Below n (put p ps)
unfolding put
Below-put n p [] l h = (l, tt)
Below-put n p (q ∷ qs) l h = ground (arith, Below-put n p qs l h.1)

Below-delete : (n c : ℕ) (ps : List PendingRequest) → Below n ps → Below n (delete c ps)
unfolding delete
Below-delete n c [] h = tt
Below-delete n c (p ∷ ps) h = ground (arith, Below-delete n c ps h.1)

abbrev BelowIn : ℕ → Option (List PendingRequest) → Type 0
BelowIn n none = Unit {0}
BelowIn n (some ps) = Below n ps

BelowIn-discard : (n id : ℕ) (ps : List PendingRequest) → Below n ps → BelowIn n (discard id ps)
unfolding discard
BelowIn-discard n id [] h = tt
BelowIn-discard n id (p ∷ ps) h = ground (arith, BelowIn-discard n id ps h.1)

BelowIn-unregister :
    (n id : ℕ) (ps : List PendingRequest) → Below n ps → BelowIn n (unregister id ps)
unfolding unregister
BelowIn-unregister n id [] h = tt
BelowIn-unregister n id (p ∷ ps) h = ground (arith, BelowIn-unregister n id ps h.1)

fail_request-IsFresh :
    (m : Multiplexer) (id : ℕ) (reason : Reason) → IsFresh m → IsFresh (fail_request m id reason).0
unfolding fail_request
fail_request-IsFresh m id reason h =
    by_cases (discard id m.pending) (BelowIn-discard (limit m.next_correlation_id) id m.pending h)
  where
    by_cases :
        (o : Option (List PendingRequest))
        → BelowIn (limit m.next_correlation_id) o
        → IsFresh (on_discarded m id reason o).0
    by_cases none b = h
    by_cases (some ps) b = b

send_rejected-IsFresh : (m : Multiplexer) (id : ℕ) → IsFresh m → IsFresh (send_rejected m id).0
unfolding send_rejected
send_rejected-IsFresh m id h =
    by_cases (unregister id m.pending)
      (BelowIn-unregister (limit m.next_correlation_id) id m.pending h)
  where
    by_cases :
        (o : Option (List PendingRequest))
        → BelowIn (limit m.next_correlation_id) o
        → IsFresh (on_unregistered m id o).0
    by_cases none b = h
    by_cases (some ps) b = b

after_correlation-limit : (c : ℕ) → (c == 0) ≡ false → limit (after_correlation c) ≡ c + 1
after_correlation-limit c h = ground arith

on_labelled-IsFresh :
    (m : Multiplexer) (id : ℕ) (r : Result Bytes)
    → (m.next_correlation_id == 0) ≡ false
    → IsFresh m
    → IsFresh (on_labelled m id r).0
on_labelled-IsFresh m id (err e) more h =
    let c = m.next_correlation_id in
    rw (after_correlation-limit c more) (Below-le c (c + 1) m.pending (omega arith) (rw more at h))
on_labelled-IsFresh m id (ok frame) more h =
    let c = m.next_correlation_id in
    rw (after_correlation-limit c more) (
      Below-put (c + 1) (entry id c) m.pending (omega arith)
        (Below-le c (c + 1) m.pending (omega arith) (rw more at h)))

issue_request-IsFresh :
    (m : Multiplexer) (id : ℕ) (frame : Bytes) (signal_aborted : Bool)
    → IsFresh m
    → IsFresh (issue_request m id frame signal_aborted).0
unfolding issue_request
issue_request-IsFresh m id frame true h = h
issue_request-IsFresh m id frame false h = elim (Bool-cases (m.next_correlation_id == 0)) [
  | inl over ↦ rw over h
  | inr more ↦
      rw more (on_labelled-IsFresh m id (with_correlation frame m.next_correlation_id) more h)
]

on_found-IsFresh :
    (m : Multiplexer) (c : ℕ) (payload : Bytes) (final : Bool) (o : Option PendingRequest)
    → IsFresh m
    → IsFresh (on_found m c payload final o).0
on_found-IsFresh m c payload final none h = h
on_found-IsFresh m c payload final (some p) h =
    ground (arith, Below-delete (limit m.next_correlation_id) c m.pending h)

dispatch-IsFresh :
    (m : Multiplexer) (c : ℕ) (payload : Bytes) (final : Bool)
    → IsFresh m
    → IsFresh (dispatch m c payload final).0
unfolding dispatch
dispatch-IsFresh m c payload final h = on_found-IsFresh m c payload final (get c m.pending) h

pub step-IsFresh : (m : Multiplexer) (e : Event) → Honest m e → IsFresh m → IsFresh (step m e).0
unfolding step set_connected set_disconnected cancel_all send_resolved
step-IsFresh m connects none_pending h = rw none_pending tt
step-IsFresh m disconnects t h = tt
step-IsFresh m cancels t h = tt
step-IsFresh m (issues id frame signal_aborted) t h =
    issue_request-IsFresh m id frame signal_aborted h
step-IsFresh m (fails id reason) t h = fail_request-IsFresh m id reason h
step-IsFresh m (send_rejects id) t h = send_rejected-IsFresh m id h
step-IsFresh m (send_resolves id) t h =
    ground (arith, fail_request-IsFresh m id connection_closed h)
step-IsFresh m (responds c payload final) t h = dispatch-IsFresh m c payload final h
