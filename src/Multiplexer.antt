-- ===== src/Multiplexer.antt =====
-- src/client/multiplexer.ts: requests in flight, each with a correlation of its own in its frame,
-- and the responses that settle them. An entry stands in the map by its correlation; `settled` of
-- an entry in the map is its discard_response, and an entry outside the map is settled.
pub mod Fresh
pub mod Account
pub mod Settled
pub mod InFlight
pub mod Answers
pub mod Timers
use fitz_ts.Base.{
  ℕ, ◌+◌, ◌-◌, ◌^◌, List, [], ◌∷◌, ◌++◌, Option, some, none, Bool, true, false, not, ◌&&◌, ◌==◌,
  if◌then◌else◌, Result, ok, err, Error,
}
use fitz_ts.Bytes.{Bytes}
use fitz_ts.Frame.Codec.{max_u64, with_correlation}

pub record PendingRequest : Type 0 where
  pub id : ℕ
  pub correlation_id : ℕ
  pub discard_response : Bool

pub record Multiplexer : Type 0 where
  pub authenticated : Bool
  pub next_correlation_id : ℕ
  pub pending : List PendingRequest
  pub requests_in_flight : ℕ
  pub requests_total : ℕ
  pub responses_total : ℕ
  pub responses_ignored : ℕ

pub data Reason : Type 0 where
  aborted timeout send_failed connection_closed : Reason

-- What a call does outside the multiplexer: it throws, passes a frame on, or settles a request.
pub data Outcome : Type 0 where
  refused : ℕ → Outcome
  correlation_ids_exhausted : ℕ → Outcome
  not_encoded : ℕ → Error → Outcome
  sent : (id : ℕ) → Bytes → Outcome
  resolved : (id : ℕ) → Bytes → Outcome
  rejected : (id : ℕ) → Reason → Outcome
  unexpected_correlation : ℕ → Outcome

unfoldable pub new_multiplexer : Multiplexer
new_multiplexer = record {
  authenticated = false;
  next_correlation_id = 1;
  pending = [];
  requests_in_flight = 0;
  requests_total = 0;
  responses_total = 0;
  responses_ignored = 0;
}

unfoldable pub set_connected : Multiplexer → Multiplexer
set_connected m = record m { authenticated = true; next_correlation_id = 1 }

-- `rejectRequest` of every entry, which does nothing for those that are settled.
unfoldable pub reject_all : List PendingRequest → List Outcome
reject_all [] = []
reject_all (p ∷ ps) =
    let rest = reject_all ps in
    if p.discard_response then rest else rejected p.id connection_closed ∷ rest

unfoldable pub cancel_all : Multiplexer → Multiplexer × List Outcome
cancel_all m = (record m { pending = []; requests_in_flight = 0 }, reject_all m.pending)

unfoldable pub set_disconnected : Multiplexer → Multiplexer × List Outcome
set_disconnected m = cancel_all (record m { authenticated = false })

-- `pendingByCorrelation.set`: the value of a key that is there is replaced.
unfoldable pub put : PendingRequest → List PendingRequest → List PendingRequest
put p [] = p ∷ []
put p (q ∷ qs) = if q.correlation_id == p.correlation_id then p ∷ qs else q ∷ put p qs

unfoldable pub get : ℕ → List PendingRequest → Option PendingRequest
get c [] = none
get c (p ∷ ps) = if p.correlation_id == c then some p else get c ps

unfoldable pub delete : ℕ → List PendingRequest → List PendingRequest
delete c [] = []
delete c (p ∷ ps) = if p.correlation_id == c then ps else p ∷ delete c ps

abbrev pub behind : PendingRequest → Option (List PendingRequest) → Option (List PendingRequest)
behind p none = none
behind p (some ps) = some (p ∷ ps)

-- The unsettled entry of a request becomes one whose response is discarded.
unfoldable pub discard : ℕ → List PendingRequest → Option (List PendingRequest)
discard id [] = none
discard id (p ∷ ps) =
    let rest = behind p (discard id ps) in
    if p.id == id && not p.discard_response
    then some (record p { discard_response = true } ∷ ps)
    else rest

-- The unsettled entry of a request is taken out of the map.
unfoldable pub unregister : ℕ → List PendingRequest → Option (List PendingRequest)
unregister id [] = none
unregister id (p ∷ ps) =
    let rest = behind p (unregister id ps) in
    if p.id == id && not p.discard_response then some ps else rest

abbrev pub on_discarded :
    Multiplexer → ℕ → Reason → Option (List PendingRequest) → Multiplexer × List Outcome
on_discarded m id reason none = (m, [])
on_discarded m id reason (some ps) = (
  record m { pending = ps; requests_in_flight = m.requests_in_flight - 1 },
  rejected id reason ∷ [],
)

-- `failRequest`, and `rejectRequest` that retains the slot.
unfoldable pub fail_request : Multiplexer → ℕ → Reason → Multiplexer × List Outcome
fail_request m id reason = on_discarded m id reason (discard id m.pending)

abbrev pub on_unregistered :
    Multiplexer → ℕ → Option (List PendingRequest) → Multiplexer × List Outcome
on_unregistered m id none = (m, [])
on_unregistered m id (some ps) = (record m { pending = ps }, rejected id send_failed ∷ [])

-- The promise of `send` is rejected. `unregisterRequest` of an entry with a correlation returns
-- before recordRequestFinished.
unfoldable pub send_rejected : Multiplexer → ℕ → Multiplexer × List Outcome
send_rejected m id = on_unregistered m id (unregister id m.pending)

-- The promise of `send` is resolved.
unfoldable pub send_resolved : Multiplexer → ℕ → Multiplexer × List Outcome
send_resolved m id = if m.authenticated then (m, []) else fail_request m id connection_closed

-- `nextCorrelationId` after `correlationId`.
abbrev pub after_correlation : ℕ → ℕ
after_correlation c = if c == max_u64 then 0 else c + 1

abbrev pub entry : ℕ → ℕ → PendingRequest
entry id c = record { id = id; correlation_id = c; discard_response = false }

-- What follows the labelling of the frame: the entry is registered, and the frame is sent.
abbrev pub on_labelled : Multiplexer → ℕ → Result Bytes → Multiplexer × List Outcome
on_labelled m id (err e) = (
  record m { next_correlation_id = after_correlation m.next_correlation_id },
  not_encoded id e ∷ [],
)
on_labelled m id (ok frame) = (
  record m {
    next_correlation_id = after_correlation m.next_correlation_id;
    pending = put (entry id m.next_correlation_id) m.pending;
    requests_in_flight = m.requests_in_flight + 1;
    requests_total = m.requests_total + 1;
  },
  sent id frame ∷ [],
)

-- `issueRequest` of request `id`, where correlation is enabled and `send` does not throw at once: a
-- throw is fail_request as the next event.
unfoldable pub issue_request : Multiplexer → ℕ → Bytes → Bool → Multiplexer × List Outcome
issue_request m id frame signal_aborted =
    if signal_aborted
    then (m, refused id ∷ [])
    else if m.next_correlation_id == 0
    then (m, correlation_ids_exhausted id ∷ [])
    else on_labelled m id (with_correlation frame m.next_correlation_id)

abbrev pub on_found :
    Multiplexer → ℕ → Bytes → Bool → Option PendingRequest → Multiplexer × List Outcome
on_found m c payload final none = (m, unexpected_correlation c ∷ [])
on_found m c payload final (some p) =
    if p.discard_response
    then (
      record m {
        pending = if final then delete c m.pending else m.pending;
        responses_ignored = m.responses_ignored + 1;
      },
      [],
    )
    else if not final
    then (m, [])
    else (
      record m {
        pending = delete c m.pending;
        requests_in_flight = m.requests_in_flight - 1;
        responses_total = m.responses_total + 1;
      },
      resolved p.id payload ∷ [],
    )

-- `dispatch` of a response with correlation `c`.
unfoldable pub dispatch : Multiplexer → ℕ → Bytes → Bool → Multiplexer × List Outcome
dispatch m c payload final = on_found m c payload final (get c m.pending)

pub data Event : Type 0 where
  connects disconnects cancels : Event
  issues : (id : ℕ) → Bytes → Bool → Event
  fails : (id : ℕ) → Reason → Event
  send_rejects send_resolves : (id : ℕ) → Event
  responds : (correlation : ℕ) → Bytes → Bool → Event

unfoldable pub step : Multiplexer → Event → Multiplexer × List Outcome
step m connects = (set_connected m, [])
step m disconnects = set_disconnected m
step m cancels = cancel_all m
step m (issues id frame signal_aborted) = issue_request m id frame signal_aborted
step m (fails id reason) = fail_request m id reason
step m (send_rejects id) = send_rejected m id
step m (send_resolves id) = send_resolved m id
step m (responds c payload final) = dispatch m c payload final

-- The multiplexer after a history, and all outcomes in order.
unfoldable pub run : Multiplexer → List Event → Multiplexer × List Outcome
run m [] = (m, [])
run m (e ∷ es) = let rest = run (step m e).0 es in (rest.0, (step m e).1 ++ rest.1)
