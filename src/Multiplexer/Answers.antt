-- ===== src/Multiplexer/Answers.antt =====
-- src/client/multiplexer.ts and src/frame/codec.ts: whose a response is.
use fitz_ts.Base.{
  ℕ, ◌+◌, ◌<◌, ◌≤◌, ◌^◌, ◌≡◌, refl, ap, List, [], ◌∷◌, ◌++◌, length, some, true, false, ◌==◌, arith,
  ok,
}
use fitz_ts.Bytes.{Bytes}
use fitz_ts.Frame.Codec.{Frame, header_length, decode_frame, with_correlation}
use fitz_ts.Frame.Codec.Layout.{IsSendable, wire, encode_frame-wire}
use fitz_ts.Frame.Codec.RoundTrip.{with_correlation-encode_frame, decode_frame-encode_frame}
use fitz_ts.Multiplexer.{
  Multiplexer, PendingRequest, put, get, delete, discard, on_labelled, fail_request, issue_request,
  dispatch, entry, sent, resolved, rejected, Reason,
}
use fitz_ts.Multiplexer.Fresh.{IsFresh, Below, put-fresh}
use fitz_ts.Multiplexer.Account.{live}

get-put : (p : PendingRequest) (ps : List PendingRequest) → get p.correlation_id (put p ps) ≡ some p
unfolding get put
get-put p [] = ground arith
get-put p (q ∷ qs) = ground (arith, get-put p qs)

-- The frame that the multiplexer sends for a frame that it is given.
abbrev labelled : Frame → ℕ → Frame
labelled f c = record f { correlation = c }

labelled-IsSendable : (f : Frame) (c : ℕ) → IsSendable f → c < 2 ^ 64 → IsSendable (labelled f c)
labelled-IsSendable f c s h = record {
  message_type_bound = s.message_type_bound;
  flags_bound = s.flags_bound;
  flags_known = s.flags_known;
  correlation_bound = h;
  size = s.size;
}

with_correlation-wire :
    (f : Frame) (c : ℕ)
    → IsSendable f
    → 0 < c
    → c < 2 ^ 64
    → with_correlation (wire f) c ≡ ok (wire (labelled f c))
with_correlation-wire f c s pos small =
    let chain = with_correlation-encode_frame f c s pos small in
    rw (encode_frame-wire f s, encode_frame-wire (labelled f c) (labelled-IsSendable f c s small))
      at chain

decode_frame-wire :
    (f : Frame) (max_bytes : ℕ)
    → IsSendable f
    → length f.payload + header_length ≤ max_bytes
    → decode_frame (wire f) max_bytes ≡ ok f
decode_frame-wire f max_bytes s small =
    let chain = decode_frame-encode_frame f max_bytes s small in rw (encode_frame-wire f s) at chain

module _ (m : Multiplexer) (id : ℕ) (f : Frame) (s : IsSendable f)
    (open_ids : 0 < m.next_correlation_id) (small : m.next_correlation_id < 2 ^ 64) where
  issued :
      issue_request m id (wire f) false
      ≡ on_labelled m id (ok (wire (labelled f m.next_correlation_id)))
  unfolding issue_request
  issued =
      let more : (m.next_correlation_id == 0) ≡ false = ground arith in
      rw (more, with_correlation-wire f m.next_correlation_id s open_ids small)

  -- A request's frame is sent with a correlation, under which it is decoded again with all else as
  -- it was; and the final response with that correlation resolves that request and nothing else.
  pub issue_request-dispatch :
      (payload : Bytes) (max_bytes : ℕ)
      → length f.payload + header_length ≤ max_bytes
      → (frame : Bytes) × ((issue_request m id (wire f) false).1 ≡ sent id frame ∷ [])
        × (decode_frame frame max_bytes ≡ ok (record f { correlation = m.next_correlation_id }))
        × ((dispatch (issue_request m id (wire f) false).0 m.next_correlation_id payload true).1
            ≡ resolved id payload ∷ [])
  unfolding dispatch
  issue_request-dispatch payload max_bytes fits =
      let c = m.next_correlation_id in
      (
        wire (labelled f c),
        ap (λ r. r.1) issued,
        decode_frame-wire (labelled f c) max_bytes (labelled-IsSendable f c s small) fits,
        rw (issued, get-put (entry id c) m.pending),
      )

discarded : ℕ → ℕ → PendingRequest
discarded id c = record (entry id c) { discard_response = true }

discard-append :
    (id c : ℕ) (ps : List PendingRequest)
    → live id ps ≡ 0
    → discard id (ps ++ entry id c ∷ []) ≡ some (ps ++ discarded id c ∷ [])
unfolding discard discarded
discard-append id c [] h = ground arith
discard-append id c (p ∷ ps) h = ground (arith, discard-append id c ps (omega arith))

get-append :
    (p : PendingRequest) (ps : List PendingRequest)
    → Below p.correlation_id ps
    → get p.correlation_id (ps ++ p ∷ []) ≡ some p
unfolding get
get-append p [] h = ground arith
get-append p (q ∷ qs) h = ground (arith, get-append p qs h.1)

delete-append :
    (p : PendingRequest) (ps : List PendingRequest)
    → Below p.correlation_id ps
    → delete p.correlation_id (ps ++ p ∷ []) ≡ ps
unfolding delete
delete-append p [] h = ground arith
delete-append p (q ∷ qs) h = ground (arith, delete-append p qs h.1)

module _ (m : Multiplexer) (id : ℕ) (f : Frame) (s : IsSendable f)
    (open_ids : 0 < m.next_correlation_id) (small : m.next_correlation_id < 2 ^ 64)
    (fresh : IsFresh m) (unused : live id m.pending ≡ 0) where
  -- A request that times out or is aborted while its response is on the way: it is rejected then,
  -- the late response settles nobody, whatever it holds, and the map is as it was before the request.
  pub late_response_discarded :
      (reason : Reason) (payload : Bytes)
      → ((fail_request (issue_request m id (wire f) false).0 id reason).1 ≡ rejected id reason ∷ [])
        × ((dispatch
              (fail_request (issue_request m id (wire f) false).0 id reason).0
              m.next_correlation_id
              payload
              true).1
            ≡ [])
        × ((dispatch
              (fail_request (issue_request m id (wire f) false).0 id reason).0
              m.next_correlation_id
              payload
              true).0.pending
            ≡ m.pending)
  unfolding fail_request dispatch discarded
  late_response_discarded reason payload =
      let c = m.next_correlation_id in
      let more : (m.next_correlation_id == 0) ≡ false = ground arith in
      let below : Below c m.pending = rw more at fresh in
      let e = issued m id f s open_ids small in
      let d = discard-append id c m.pending unused in
      rw
        (
          e,
          put-fresh (entry id c) m.pending below,
          d,
          get-append (discarded id c) m.pending below,
          delete-append (discarded id c) m.pending below,
        )
        (refl, refl, refl)
