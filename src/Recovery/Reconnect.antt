-- ===== src/Recovery/Reconnect.antt =====
-- src/client/internal/reconnect.ts, createReconnectScheduler. What happens outside in round `k` of
-- the loop, counted from 0, is `closes k` and `turn k` of the world; `none` as the number of
-- attempts is Infinity.
pub mod Laws
use fitz_ts.Base.{
  ℕ, zero, suc, ◌+◌, ◌*◌, min, List, [], ◌∷◌, Option, some, none, Bool, true, false, ltb,
  if◌then◌else◌,
}
use fitz_ts.Recovery.Backoff.{jittered_backoff_ms}

-- An error that is caught; `unsupported` is a ProtocolError with domainCode 50.
pub data Failure : Type 0 where
  abort authentication unsupported transient : Failure

-- After the sleep: a close is requested, or openAndAuthenticate succeeds, or the sleep or it throws
-- an error, and whether a close is requested then.
pub data Turn : Type 0 where
  closing connecting : Turn
  failing : Failure → Bool → Turn

pub record World : Type 0 where
  pub closes : ℕ → Bool
  pub turn : ℕ → Turn
  pub random : ℕ → ℕ

pub record Options : Type 0 where
  pub max_attempts : Option ℕ
  pub backoff_ms : ℕ
  pub max_backoff_ms : ℕ

pub data LoopResult : Type 0 where
  connected closed exhausted : LoopResult

-- The states that are set and the events that are emitted; an attempt comes with its delay.
pub data Effect : Type 0 where
  scheduled : (attempt delay : ℕ) → Effect
  set_closed set_disconnected : Effect
  reconnect_exhausted : (attempts : ℕ) → Effect

abbrev pub within : ℕ → Option ℕ → Bool
within attempts none = true
within attempts (some limit) = ltb attempts limit

abbrev pub also : Effect → Option (List Effect × LoopResult) → Option (List Effect × LoopResult)
also e none = none
also e (some (es, r)) = some (e ∷ es, r)

-- The `catch` and what follows it in the loop; `rest` is the next round.
abbrev pub on_failure :
    ℕ → Failure → Bool → Option (List Effect × LoopResult) → Option (List Effect × LoopResult)
on_failure attempts f true rest = some ([], closed)
on_failure attempts abort false rest = some ([], closed)
on_failure attempts authentication false rest = some (set_closed ∷ [], closed)
on_failure attempts unsupported false rest =
    some (set_disconnected ∷ reconnect_exhausted attempts ∷ [], exhausted)
on_failure attempts transient false rest = rest

abbrev pub on_turn :
    ℕ → Turn → Option (List Effect × LoopResult) → Option (List Effect × LoopResult)
on_turn attempts closing rest = some ([], closed)
on_turn attempts connecting rest = some ([], connected)
on_turn attempts (failing f close_requested) rest = on_failure attempts f close_requested rest

-- Behind the loop.
abbrev pub after_loop : ℕ → Bool → List Effect × LoopResult
after_loop attempts true = (set_closed ∷ [], closed)
after_loop attempts false = (set_disconnected ∷ reconnect_exhausted attempts ∷ [], exhausted)

-- `runLoop` from the head of the loop; `none` means that the fuel ran out.
unfoldable pub run_loop : World → Options → ℕ → ℕ → ℕ → Option (List Effect × LoopResult)
run_loop w o zero attempts delay_ms = none
run_loop w o (suc fuel) attempts delay_ms =
    let rest = run_loop w o fuel (suc attempts) (min (delay_ms * 2) o.max_backoff_ms) in
    let round =
      also (scheduled (suc attempts) (jittered_backoff_ms w.random delay_ms o.max_backoff_ms))
        (on_turn (suc attempts) (w.turn attempts) rest) in
    if w.closes attempts
    then some (after_loop attempts true)
    else if within attempts o.max_attempts
    then round
    else some (after_loop attempts false)

unfoldable pub reconnect : World → Options → ℕ → Option (List Effect × LoopResult)
reconnect w o fuel = run_loop w o fuel 0 o.backoff_ms
