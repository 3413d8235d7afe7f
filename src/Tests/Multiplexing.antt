-- ===== src/Tests/Multiplexing.antt =====
-- The multiplexer on small histories.
use fitz_ts.Base.{◌+◌, ◌≡◌, refl, arith, List, [], ◌∷◌, ◌++◌, true, false, ok}
use fitz_ts.Bytes.{Bytes}
use fitz_ts.Frame.Codec.{Frame, decode_frame}
use fitz_ts.Frame.Codec.Layout.{IsSendable, wire}
use fitz_ts.Multiplexer.{
  send_failed, Multiplexer, new_multiplexer, Event, connects, disconnects, issues, fails, responds,
  run, sent, resolved, rejected, timeout, issue_request, fail_request, send_rejected, dispatch,
}
use fitz_ts.Multiplexer.Fresh.{AllHonest}
use fitz_ts.Multiplexer.Account.{sends, settles, live}
use fitz_ts.Multiplexer.Settled.{run-sends-settles, run-settles_all}
use fitz_ts.Multiplexer.InFlight.{
  IsCounted, Leaves, unsettled, run-new_multiplexer-IsCounted, send_rejected_leaks,
}
use fitz_ts.Multiplexer.Answers.{issue_request-dispatch, late_response_discarded}

abbrev ping : Frame
ping = record { message_type = 2; flags = 0; correlation = 0; payload = 5 ∷ [] }

ping-IsSendable : IsSendable ping
ping-IsSendable = record {
  message_type_bound = omega arith;
  flags_bound = omega arith;
  flags_known = refl;
  correlation_bound = omega arith;
  size = omega arith;
}

-- Request 7 is answered, request 8 times out and its late response is discarded, request 9 waits.
abbrev history : List Event
history =
    connects
    ∷ issues 7 (wire ping) false
    ∷ issues 8 (wire ping) false
    ∷ fails 8 timeout
    ∷ responds 1 (4 ∷ []) true
    ∷ responds 2 (6 ∷ []) true
    ∷ issues 9 (wire ping) false
    ∷ []

history_honest : AllHonest new_multiplexer (history ++ disconnects ∷ [])
unfolding new_multiplexer
history_honest = (refl, ground arith)

history_honest_first : AllHonest new_multiplexer history
unfolding new_multiplexer
history_honest_first = (refl, ground arith)

run-sends-settles_example :
    sends 8 (run new_multiplexer history).1
    ≡ settles 8 (run new_multiplexer history).1 + live 8 (run new_multiplexer history).0.pending
run-sends-settles_example = run-sends-settles 8 history history_honest_first

run-settles_all_example :
    settles 9 (run new_multiplexer (history ++ disconnects ∷ [])).1
    ≡ sends 9 (run new_multiplexer (history ++ disconnects ∷ [])).1
run-settles_all_example = run-settles_all 9 history history_honest

run-new_multiplexer-IsCounted_example : IsCounted (run new_multiplexer history).0
run-new_multiplexer-IsCounted_example =
    run-new_multiplexer-IsCounted history (ground arith) history_honest_first

abbrev connected : Multiplexer
connected = record {
  authenticated = true;
  next_correlation_id = 1;
  pending = [];
  requests_in_flight = 0;
  requests_total = 0;
  responses_total = 0;
  responses_ignored = 0;
}

abbrev busy : Multiplexer
busy = record connected {
  next_correlation_id = 2;
  pending = record { id = 3; correlation_id = 1; discard_response = false } ∷ [];
  requests_in_flight = 1;
}

send_rejected_leaks_example :
    let x = send_rejected busy 3 in
    Leaves 3 busy.pending x.0.pending
    × (x.1 ≡ rejected 3 send_failed ∷ [])
    × (x.0.requests_in_flight ≡ unsettled x.0.pending + 1)
send_rejected_leaks_example = send_rejected_leaks busy 3 refl (omega arith)

issue_request-dispatch_example :
    (frame : Bytes) × ((issue_request busy 4 (wire ping) false).1 ≡ sent 4 frame ∷ [])
    × (decode_frame frame 64 ≡ ok (record ping { correlation = 2 }))
    × ((dispatch (issue_request busy 4 (wire ping) false).0 2 (9 ∷ []) true).1
        ≡ resolved 4 (9 ∷ []) ∷ [])
issue_request-dispatch_example =
    issue_request-dispatch busy 4 ping ping-IsSendable (omega arith) (omega arith) (9 ∷ []) 64
      (omega arith)

late_response_discarded_example :
    ((fail_request (issue_request busy 4 (wire ping) false).0 4 timeout).1
      ≡ rejected 4 timeout ∷ [])
    × ((dispatch
          (fail_request (issue_request busy 4 (wire ping) false).0 4 timeout).0
          2
          (9 ∷ [])
          true).1
        ≡ [])
    × ((dispatch
          (fail_request (issue_request busy 4 (wire ping) false).0 4 timeout).0
          2
          (9 ∷ [])
          true).0.pending
        ≡ busy.pending)
late_response_discarded_example =
    late_response_discarded busy 4 ping ping-IsSendable (omega arith) (omega arith) (omega arith)
      refl timeout (9 ∷ [])
