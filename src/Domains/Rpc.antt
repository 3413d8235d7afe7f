-- ===== src/Domains/Rpc.antt =====
-- src/domains/rpc/iterator.ts: the frames that answer one call, and who waits for the next. Frames
-- are opaque, and a call of `next` is known by its identity. Each method runs to its end, so that a
-- method, a signal or a timer is one step.
pub mod Frames
pub mod Steps
pub mod Next
pub mod Calls
use fitz_ts.Base.{
  ℕ, List, [], ◌∷◌, ◌++◌, Option, some, none, Bool, true, false, not, ◌&&◌, ◌||◌, if◌then◌else◌,
}

-- An error, and whether its name is AbortError.
pub record Failure : Type 0 where
  pub reason : ℕ
  pub is_abort_error : Bool

pub data CancellationOutcome : Type 0 where
  not_requested unconfirmed : CancellationOutcome
  reported : ℕ → CancellationOutcome

-- `waiting` is resolveNext and rejectNext, `armed` is timeout, `listening` whether the listener is on
-- the signal.
pub record RpcIterator (F : Type 0) : Type 0 where
  pub buffer : List F
  pub done : Bool
  pub failure_reason : Option Failure
  pub waiting : Option ℕ
  pub cancellation_requested : Bool
  pub cancellation : Option CancellationOutcome
  pub armed : Bool
  pub listening : Bool
  pub aborted : Bool

-- What becomes of the calls of `next` and `return`, of the frames that are thrown away, and which
-- callbacks are called. A failure rejects in a later turn, and with an abort error where the signal is
-- aborted by then.
pub data Effect (F : Type 0) : Type 0 where
  yields : (call : ℕ) → F → Effect F
  finishes : (call : ℕ) → Effect F
  throws throws_later : (call : ℕ) → Failure → Effect F
  discards : F → Effect F
  abandons : (reason : ℕ) → Effect F
  calls_finish : Effect F

abbrev pub abort_error : Failure
abort_error = record { reason = 0; is_abort_error = true }

abbrev pub timeout_error : Failure
timeout_error = record { reason = 1; is_abort_error = false }

abbrev pub settle_cancellation :
    CancellationOutcome → Option CancellationOutcome → Option CancellationOutcome
settle_cancellation outcome none = some outcome
settle_cancellation outcome (some settled) = some settled

abbrev pub is_abort : Option Failure → Bool
is_abort none = false
is_abort (some error) = error.is_abort_error

module _ {F : Type 0} where
  abbrev pub discard_all : List F → List (Effect F)
  discard_all [] = []
  discard_all (f ∷ fs) = discards f ∷ discard_all fs

  abbrev pub reject : Option ℕ → Failure → List (Effect F)
  reject none error = []
  reject (some call) error = throws call error ∷ []

  unfoldable pub cancel : ℕ → Failure → RpcIterator F → RpcIterator F × List (Effect F)
  cancel reason error i = if i.done || i.cancellation_requested then (i, []) else (
    record i {
      cancellation_requested = true;
      done = true;
      buffer = [];
      failure_reason = some error;
      armed = false;
      waiting = none;
      listening = false;
    },
    discard_all i.buffer ++ abandons reason ∷ reject i.waiting error,
  )

  abbrev pub push_to : F → Option ℕ → RpcIterator F → RpcIterator F × List (Effect F)
  push_to frame none i = (record i { buffer = i.buffer ++ frame ∷ [] }, [])
  push_to frame (some call) i = (record i { waiting = none }, yields call frame ∷ [])

  unfoldable pub push : F → RpcIterator F → RpcIterator F × List (Effect F)
  push frame i = if i.done then (i, []) else push_to frame i.waiting i

  abbrev pub finish_waiting : Option ℕ → List (Effect F)
  finish_waiting none = []
  finish_waiting (some call) = finishes call ∷ []

  unfoldable pub end : RpcIterator F → RpcIterator F × List (Effect F)
  end i = (
    record i {
      cancellation =
          if i.cancellation_requested
          then i.cancellation
          else settle_cancellation not_requested i.cancellation;
      armed = false;
      listening = false;
      done = true;
      waiting = none;
    },
    finish_waiting i.waiting,
  )

  abbrev pub reject_later : Option ℕ → Failure → List (Effect F)
  reject_later none error = []
  reject_later (some call) error = throws_later call error ∷ []

  unfoldable pub fail : Failure → RpcIterator F → RpcIterator F × List (Effect F)
  fail reason i = if i.done then (i, []) else (
    record i {
      done = true;
      failure_reason = some reason;
      armed = false;
      cancellation = settle_cancellation not_requested i.cancellation;
      listening = false;
      waiting = none;
    },
    calls_finish ∷ reject_later i.waiting reason,
  )

  -- `next`, from the test of the buffer on.
  abbrev pub next_of :
      ℕ → List F → Option Failure → Bool → RpcIterator F → RpcIterator F × List (Effect F)
  next_of call (f ∷ fs) failure done i = (record i { buffer = fs }, yields call f ∷ [])
  next_of call [] (some error) done i = (i, throws call error ∷ [])
  next_of call [] none true i = (i, finishes call ∷ [])
  next_of call [] none false i = (record i { waiting = some call }, [])

  abbrev pub throw_reason : ℕ → Option Failure → List (Effect F)
  throw_reason call none = []
  throw_reason call (some error) = throws call error ∷ []

  -- What is thrown after a cancellation.
  abbrev pub thrown : ℕ → RpcIterator F × List (Effect F) → RpcIterator F × List (Effect F)
  thrown call r = (r.0, r.1 ++ throw_reason call r.0.failure_reason)

  unfoldable pub next : ℕ → RpcIterator F → RpcIterator F × List (Effect F)
  next call i =
      if not i.done && i.aborted
      then thrown call (cancel 1 abort_error i)
      else if is_abort i.failure_reason
      then (i, throw_reason call i.failure_reason)
      else next_of call i.buffer i.failure_reason i.done i

  abbrev pub finished : ℕ → RpcIterator F × List (Effect F) → RpcIterator F × List (Effect F)
  finished call r = (r.0, r.1 ++ finishes call ∷ [])

  unfoldable pub return_method : ℕ → RpcIterator F → RpcIterator F × List (Effect F)
  return_method call i =
      if i.done then (i, finishes call ∷ []) else finished call (cancel 1 abort_error i)

  -- The signal is aborted.
  unfoldable pub handle_abort : RpcIterator F → RpcIterator F × List (Effect F)
  handle_abort i =
      let now : RpcIterator F = record i { aborted = true } in
      if i.listening then cancel 1 abort_error now else (now, [])

  -- The timer fires.
  unfoldable pub time_out : RpcIterator F → RpcIterator F × List (Effect F)
  time_out i = if i.armed then cancel 2 timeout_error (record i { armed = false }) else (i, [])

  -- The promise of `abandon` settles.
  unfoldable pub abandon_settled : CancellationOutcome → RpcIterator F → RpcIterator F
  abandon_settled outcome i =
      if i.cancellation_requested
      then record i { cancellation = settle_cancellation outcome i.cancellation }
      else i

  abbrev pub empty_iterator : Bool → RpcIterator F
  empty_iterator has_signal = record {
    buffer = [];
    done = false;
    failure_reason = none;
    waiting = none;
    cancellation_requested = false;
    cancellation = none;
    armed = true;
    listening = has_signal;
    aborted = false;
  }

  -- `createRpcIterator`, where the signal may be aborted already.
  unfoldable pub create_rpc_iterator : (has_signal aborted : Bool) → RpcIterator F × List (Effect F)
  create_rpc_iterator has_signal aborted =
      if has_signal && aborted
      then handle_abort (empty_iterator has_signal)
      else (empty_iterator has_signal, [])

pub data Event (F : Type 0) : Type 0 where
  pushes : F → Event F
  ends : Event F
  fails : Failure → Event F
  nexts returns : (call : ℕ) → Event F
  aborts times_out : Event F
  abandoned : CancellationOutcome → Event F

module _ {F : Type 0} where
  unfoldable pub step : Event F → RpcIterator F → RpcIterator F × List (Effect F)
  step (pushes frame) i = push frame i
  step ends i = end i
  step (fails reason) i = fail reason i
  step (nexts call) i = next call i
  step (returns call) i = return_method call i
  step aborts i = handle_abort i
  step times_out i = time_out i
  step (abandoned outcome) i = (abandon_settled outcome i, [])

  unfoldable pub run : List (Event F) → RpcIterator F → RpcIterator F × List (Effect F)
  run [] i = (i, [])
  run (e ∷ events) i =
      let now = step e i in let later = run events now.0 in (later.0, now.1 ++ later.1)
