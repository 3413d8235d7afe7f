-- ===== src/Recovery/Reconnect/Laws.antt =====
-- src/client/internal/reconnect.ts: the loop ends, waits no longer than allowed, and connects.
use fitz_ts.Base.{
  ℕ, zero, suc, ◌+◌, ◌*◌, ◌<◌, ◌≤◌, ◌≡◌, refl, ap, min, List, [], ◌∷◌, All, Option, some, none,
  true, false, ltb, arith, Bool-cases, inl, inr,
}
use fitz_ts.Recovery.Backoff.{jittered_backoff_ms, IsJitter, jittered_backoff_ms_bounds}
use fitz_ts.Recovery.Reconnect.{
  World, Options, Turn, closing, connecting, failing, abort, authentication, unsupported, transient,
  LoopResult, connected, Effect, scheduled, reconnect_exhausted, within, also, on_turn, run_loop,
  reconnect,
}

-- The delay of an attempt is at most `top`, and the attempt at most the last one.
abbrev pub IsBounded : ℕ → ℕ → Effect → Type 0
IsBounded last top (scheduled attempt delay) = (attempt ≤ last) × (delay ≤ top)
IsBounded last top (reconnect_exhausted attempts) = attempts ≤ last
IsBounded last top _ = Unit {0}

-- The loop has ended, and has done only what `P` allows.
abbrev pub Ends : (Effect → Type 0) → Option (List Effect × LoopResult) → Type 0
Ends P none = ⊥
Ends P (some (es, r)) = All P es

Ends-also :
    (P : Effect → Type 0) (e : Effect) (o : Option (List Effect × LoopResult))
    → P e
    → Ends P o
    → Ends P (also e o)
Ends-also P e none h k = k
Ends-also P e (some (es, r)) h k = (h, k)

Ends-on_turn :
    (last top attempts : ℕ) (t : Turn) (rest : Option (List Effect × LoopResult))
    → attempts ≤ last
    → Ends (IsBounded last top) rest
    → Ends (IsBounded last top) (on_turn attempts t rest)
Ends-on_turn last top attempts closing rest h k = tt
Ends-on_turn last top attempts connecting rest h k = tt
Ends-on_turn last top attempts (failing f true) rest h k = tt
Ends-on_turn last top attempts (failing abort false) rest h k = tt
Ends-on_turn last top attempts (failing authentication false) rest h k = (tt, tt)
Ends-on_turn last top attempts (failing unsupported false) rest h k = (tt, (h, tt))
Ends-on_turn last top attempts (failing transient false) rest h k = k

module _ (w : World) (backoff top last : ℕ) (jitter : IsJitter w.random) where
  abbrev limited : Options
  limited = record { max_attempts = some last; backoff_ms = backoff; max_backoff_ms = top }

  run_loop-Ends :
      (fuel attempts delay : ℕ)
      → attempts ≤ last
      → last < fuel + attempts
      → Ends (IsBounded last top) (run_loop w limited fuel attempts delay)
  unfolding run_loop
  run_loop-Ends zero attempts delay h k = absurd (omega arith)
  run_loop-Ends (suc fuel) attempts delay h k = elim (Bool-cases (w.closes attempts)) [
    | inl close ↦ rw close (tt, tt)
    | inr stay ↦ elim (Bool-cases (ltb attempts last)) [
      | inl more ↦
          rw (stay, more)
            (Ends-also (IsBounded last top) _ _
              (ground (arith, more), (jittered_backoff_ms_bounds w.random delay top jitter).1)
              (Ends-on_turn last top (suc attempts) (w.turn attempts) _ (ground (arith, more)) (
                run_loop-Ends fuel (suc attempts) (min (delay * 2) top) (ground (arith, more))
                  (omega arith))))
      | inr over ↦ rw (stay, over) (tt, (h, tt))
    ]
  ]

-- With a finite number of attempts the loop ends, whatever happens outside: it makes no more
-- attempts than allowed, and waits before none of them for more than the maximum.
pub reconnect-Ends :
    (w : World) (backoff_ms max_backoff_ms max_attempts : ℕ)
    → IsJitter w.random
    → Ends (IsBounded max_attempts max_backoff_ms) (
        reconnect w
          (record {
            max_attempts = some max_attempts;
            backoff_ms = backoff_ms;
            max_backoff_ms = max_backoff_ms;
          })
          (suc max_attempts))
unfolding reconnect
reconnect-Ends w backoff top last jitter =
    run_loop-Ends w backoff top last jitter (suc last) 0 backoff (omega arith) (omega arith)

-- Round `k` begins with no close requested, and the attempt fails with an error that is retried.
abbrev pub IsRetried : World → ℕ → Type 0
IsRetried w k = (w.closes k ≡ false) × (w.turn k ≡ failing transient false)

abbrev pub AllRetried : World → ℕ → ℕ → Type 0
AllRetried w k zero = Unit {0}
AllRetried w k (suc n) = IsRetried w k × AllRetried w (suc k) n

-- The attempts of such rounds, each with twice the base delay of the one before, up to the maximum.
abbrev pub attempts_made : World → ℕ → ℕ → ℕ → ℕ → List Effect → List Effect
attempts_made w top k zero delay es = es
attempts_made w top k (suc n) delay es =
    scheduled (suc k) (jittered_backoff_ms w.random delay top)
    ∷ attempts_made w top (suc k) n (min (delay * 2) top) es

connects_from :
    (w : World) (o : Options) (n k last delay : ℕ)
    → last ≡ k + n
    → AllRetried w k n
    → within last o.max_attempts ≡ true
    → w.closes last ≡ false
    → w.turn last ≡ connecting
    → run_loop w o (suc n) k delay
      ≡ some (attempts_made w o.max_backoff_ms k (suc n) delay [], connected)
unfolding run_loop
connects_from w o zero k last delay e t room stay up =
    let same : last ≡ k = omega arith in rw (rw same at stay, rw same at room, rw same at up)
connects_from w o (suc n) k last delay e t room stay up =
    let rest =
      connects_from w o n (suc k) last (min (delay * 2) o.max_backoff_ms) (omega arith) t.1 room
        stay up in
    rw (t.0.0, within_lem o.max_attempts room, t.0.1)
      (ap (also (scheduled (suc k) (jittered_backoff_ms w.random delay o.max_backoff_ms))) rest)
  where
    within_lem : (limit : Option ℕ) → within last limit ≡ true → within k limit ≡ true
    within_lem none h = refl
    within_lem (some m) h = ground (arith, h)

-- Any number of attempts that fail with errors that are retried, as many as are allowed, and then
-- one that succeeds: the loop makes exactly these, and returns connected.
pub reconnect_connects :
    (w : World) (o : Options) (n : ℕ)
    → AllRetried w 0 n
    → within n o.max_attempts ≡ true
    → w.closes n ≡ false
    → w.turn n ≡ connecting
    → reconnect w o (suc n)
      ≡ some (attempts_made w o.max_backoff_ms 0 (suc n) o.backoff_ms [], connected)
unfolding reconnect
reconnect_connects w o n = connects_from w o n 0 n o.backoff_ms (omega arith)
