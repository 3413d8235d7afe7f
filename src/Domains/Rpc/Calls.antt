-- ===== src/Domains/Rpc/Calls.antt =====
-- src/domains/rpc/iterator.ts: the frames and the calls over a whole history of steps.
use fitz_ts.Base.{
  ℕ, ◌+◌, ◌≡◌, inl, refl, sym, ap, ◌∙◌, List, [], ◌∷◌, ◌++◌, none, Bool, true, false, arith,
  append_assoc,
}
use fitz_ts.Domains.Rpc.{
  RpcIterator, Effect, cancel, Event, pushes, nexts, returns, abort_error, handle_abort, ends,
  fails, aborts, times_out, abandoned, step, run, create_rpc_iterator,
}
use fitz_ts.Domains.Rpc.Frames.{
  waits, left, answers, left-append, answers-append, IsValid, takes, asks, InTurn, Keeps,
  same-Keeps, flagged,
}
use fitz_ts.Domains.Rpc.Steps.{
  push-Keeps, end-Keeps, fail-Keeps, return_method-Keeps, abandon_settled-Keeps, handle_abort-Keeps,
  time_out-Keeps,
}
use fitz_ts.Domains.Rpc.Next.{next-Keeps}

module _ {F : Type 0} where
  step-Keeps :
      (e : Event F) (i : RpcIterator F)
      → IsValid i
      → InTurn e i
      → Keeps i (step e i) (takes e i) (λ c. asks c e)
  unfolding step
  step-Keeps (pushes f) i v t = push-Keeps f i v
  step-Keeps ends i v t = end-Keeps i v
  step-Keeps (fails reason) i v t = fail-Keeps reason i v
  step-Keeps (nexts call) i v t = next-Keeps call i v t
  step-Keeps (returns call) i v t = return_method-Keeps call i v
  step-Keeps aborts i v t = handle_abort-Keeps i v
  step-Keeps times_out i v t = time_out-Keeps i v
  step-Keeps (abandoned o) i v t = abandon_settled-Keeps o i v

  -- No call of `next` comes while another one waits.
  abbrev pub InTurns : List (Event F) → RpcIterator F → Type 0
  InTurns [] i = Unit
  InTurns (e ∷ events) i = InTurn e i × InTurns events (step e i).0

  -- The frames that come in before the iterator is done.
  abbrev pub taken : List (Event F) → RpcIterator F → List F
  taken [] i = []
  taken (e ∷ events) i = takes e i ++ taken events (step e i).0

  -- How often call `c` is made.
  abbrev pub asked : ℕ → List (Event F) → ℕ
  asked c [] = 0
  asked c (e ∷ events) = asks c e + asked c events

  -- A step, and what comes after it.
  followed-Keeps :
      (i : RpcIterator F) (x y : RpcIterator F × List (Effect F)) (fs gs : List F) (p q : ℕ → ℕ)
      → Keeps i x fs p
      → Keeps x.0 y gs q
      → Keeps i (y.0, x.1 ++ y.1) (fs ++ gs) (λ c. p c + q c)
  followed-Keeps i x y fs gs p q k l = record {
    valid = l.valid;
    frames =
        ap (λ s. s ++ y.0.buffer) (left-append x.1 y.1)
        ∙ append_assoc (left x.1) (left y.1) y.0.buffer
        ∙ ap (λ s. left x.1 ++ s) l.frames
        ∙ sym (append_assoc (left x.1) x.0.buffer gs)
        ∙ ap (λ s. s ++ gs) k.frames
        ∙ append_assoc i.buffer fs gs;
    calls = λ c. omega (arith, answers-append c x.1 y.1, k.calls c, l.calls c);
  }

  run-Keeps :
      (events : List (Event F)) (i : RpcIterator F)
      → IsValid i
      → InTurns events i
      → Keeps i (run events i) (taken events i) (λ c. asked c events)
  unfolding run
  run-Keeps [] i v t = same-Keeps i v
  run-Keeps (e ∷ events) i v t =
      let now : Keeps i (step e i) (takes e i) (λ c. asks c e) = step-Keeps e i v t.0 in
      followed-Keeps i (step e i) (run events (step e i).0) (takes e i) (taken events (step e i).0)
        (λ c. asks c e) (λ c. asked c events) now (run-Keeps events (step e i).0 now.valid t.1)

  abbrev pub created : Bool → Bool → RpcIterator F
  created has_signal aborted = (create_rpc_iterator has_signal aborted).0

  created_lem :
      (has_signal aborted : Bool)
      → IsValid (created has_signal aborted)
        × (created has_signal aborted).buffer ≡ []
        × ((created has_signal aborted).waiting ≡ none)
  unfolding create_rpc_iterator handle_abort cancel
  created_lem true true = ((refl, refl, refl, refl, (abort_error, refl)), refl, refl)
  created_lem false true = ((refl, refl, inl refl), refl, refl)
  created_lem true false = ((refl, refl, inl refl), refl, refl)
  created_lem false false = ((refl, refl, inl refl), refl, refl)

  at_rest :
      (i : RpcIterator F)
      → IsValid i
      → i.done ≡ true
      → (i.waiting ≡ none) × (i.armed ≡ false) × (i.listening ≡ false)
  at_rest i = cases i.done i.cancellation_requested
    where
      cases :
          (d r : Bool)
          → IsValid (flagged d r i)
          → d ≡ true
          → (i.waiting ≡ none) × (i.armed ≡ false) × (i.listening ≡ false)
      cases false r v p = cc
      cases true false v p = (v.0, v.1, v.2)
      cases true true v p = (v.0, v.1, v.2)

  -- Once the iterator is done, by its end, a failure, a cancellation, an abort, the deadline or a
  -- return, over every history in which no call of next comes while another one waits: every call of
  -- next and of return was answered as often as it was made, no timer is armed, and no listener is on
  -- the signal.
  pub answers-run :
      (has_signal aborted : Bool) (events : List (Event F)) (c : ℕ)
      → InTurns events (created has_signal aborted)
      → (run events (created has_signal aborted)).0.done ≡ true
      → (answers c (run events (created has_signal aborted)).1 ≡ asked c events)
        × ((run events (created has_signal aborted)).0.armed ≡ false)
        × ((run events (created has_signal aborted)).0.listening ≡ false)
  answers-run has_signal aborted events c t d =
      let (v, b, w) = created_lem has_signal aborted in
      let kept : Keeps (created has_signal aborted) (run events (created has_signal aborted))
          (taken events (created has_signal aborted)) (λ c. asked c events) =
        run-Keeps events (created has_signal aborted) v t in
      let (nobody_waits, unarmed, deaf) =
        at_rest (run events (created has_signal aborted)).0 kept.valid d in
      (omega (arith, kept.calls c, ap (waits c) nobody_waits, ap (waits c) w), unarmed, deaf)
