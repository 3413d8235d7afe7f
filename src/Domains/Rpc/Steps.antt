-- ===== src/Domains/Rpc/Steps.antt =====
-- src/domains/rpc/iterator.ts: each method and event but `next` keeps the frames and the calls.
use fitz_ts.Base.{
  ℕ, ◌+◌, ◌≡◌, inl, inr, refl, sym, ap, ◌∙◌, List, [], ◌∷◌, ◌++◌, append-nil, Option, some, none,
  Bool, true, false, ◌==◌, arith,
}
use fitz_ts.Domains.Rpc.{
  Failure, CancellationOutcome, not_requested, RpcIterator, Effect, finishes, calls_finish,
  settle_cancellation, cancel, push, finish_waiting, end, reject_later, fail, pushes, abort_error,
  timeout_error, return_method, handle_abort, time_out, abandon_settled,
}
use fitz_ts.Domains.Rpc.Frames.{
  one, waits, left, answers, IsValid, takes, Keeps, nobody, same-Keeps, cancel-Keeps,
  one_more-Keeps, flagged,
}

module _ {F : Type 0} where
  pub push-Keeps :
      (f : F) (i : RpcIterator F) → IsValid i → Keeps i (push f i) (takes (pushes f) i) nobody
  unfolding push
  push-Keeps f i = cases i.done i.cancellation_requested i.waiting
    where
      flag : Bool → Bool → Option ℕ → RpcIterator F
      flag d r w = record i { done = d; cancellation_requested = r; waiting = w }

      cases :
          (d r : Bool) (w : Option ℕ)
          → IsValid (flag d r w)
          → Keeps (flag d r w) (push f (flag d r w)) (takes (pushes f) (flag d r w)) nobody
      cases false false none v = record {
        valid = (v.0, v.1, inl refl);
        frames = refl;
        calls = λ c. omega arith;
      }
      cases false false (some call) v = elim v.2 [
        | inl p ↦ cc
        | inr p ↦ record {
          valid = (v.0, v.1, inl refl);
          frames = ap (λ l. f ∷ l) p ∙ sym (ap (λ l. l ++ f ∷ []) p);
          calls = λ c. omega arith;
        }
      ]
      cases false true w v = elim v [ ]
      cases true false w v = same-Keeps (flag true false w) v
      cases true true w v = same-Keeps (flag true true w) v

  pub end-Keeps : (i : RpcIterator F) → IsValid i → Keeps i (end i) [] nobody
  unfolding end
  end-Keeps i = cases i.done i.cancellation_requested i.waiting i.cancellation
    where
      flag : Bool → Bool → Option ℕ → Option CancellationOutcome → RpcIterator F
      flag d r w o = record i {
        done = d;
        cancellation_requested = r;
        waiting = w;
        cancellation = o;
      }

      settled :
          (o : Option CancellationOutcome)
          → (s : CancellationOutcome) × (settle_cancellation not_requested o ≡ some s)
      settled none = (not_requested, refl)
      settled (some s) = (s, refl)

      answered : (c : ℕ) (w : Option ℕ) → answers {F = F} c (finish_waiting w) + 0 ≡ waits c w + 0
      answered c none = omega arith
      answered c (some call) = omega arith

      no_frames : (w : Option ℕ) → left {F = F} (finish_waiting w) ≡ []
      no_frames none = refl
      no_frames (some call) = refl

      cases :
          (d r : Bool) (w : Option ℕ) (o : Option CancellationOutcome)
          → IsValid (flag d r w o)
          → Keeps (flag d r w o) (end (flag d r w o)) [] nobody
      cases d false w o v = record {
        valid = (refl, refl, refl, settled o);
        frames = ap (λ l. l ++ i.buffer) (no_frames w) ∙ sym (append-nil i.buffer);
        calls = λ c. answered c w;
      }
      cases false true w o v = elim v [ ]
      cases true true w o v = record {
        valid = (refl, refl, refl, v.3, v.4);
        frames = ap (λ l. l ++ i.buffer) (no_frames w) ∙ sym (append-nil i.buffer);
        calls = λ c. answered c w;
      }

  pub fail-Keeps :
      (reason : Failure) (i : RpcIterator F) → IsValid i → Keeps i (fail reason i) [] nobody
  unfolding fail
  fail-Keeps reason i = cases i.done i.cancellation_requested i.waiting i.cancellation
    where
      flag : Bool → Bool → Option ℕ → Option CancellationOutcome → RpcIterator F
      flag d r w o = record i {
        done = d;
        cancellation_requested = r;
        waiting = w;
        cancellation = o;
      }

      settled :
          (o : Option CancellationOutcome)
          → (s : CancellationOutcome) × (settle_cancellation not_requested o ≡ some s)
      settled none = (not_requested, refl)
      settled (some s) = (s, refl)

      answered :
          (c : ℕ) (w : Option ℕ)
          → answers {F = F} c (calls_finish ∷ reject_later w reason) + 0 ≡ waits c w + 0
      answered c none = omega arith
      answered c (some call) = omega arith

      no_frames : (w : Option ℕ) → left {F = F} (calls_finish ∷ reject_later w reason) ≡ []
      no_frames none = refl
      no_frames (some call) = refl

      cases :
          (d r : Bool) (w : Option ℕ) (o : Option CancellationOutcome)
          → IsValid (flag d r w o)
          → Keeps (flag d r w o) (fail reason (flag d r w o)) [] nobody
      cases false false w o v = record {
        valid = (refl, refl, refl, settled o);
        frames = ap (λ l. l ++ i.buffer) (no_frames w) ∙ sym (append-nil i.buffer);
        calls = λ c. answered c w;
      }
      cases false true w o v = elim v [ ]
      cases true false w o v = same-Keeps (flag true false w o) v
      cases true true w o v = same-Keeps (flag true true w o) v

  pub return_method-Keeps :
      (call : ℕ) (i : RpcIterator F)
      → IsValid i
      → Keeps i (return_method call i) [] (λ c. one (call == c))
  unfolding return_method
  return_method-Keeps call i = cases i.done
    where
      flag : Bool → RpcIterator F
      flag d = record i { done = d }

      cases :
          (d : Bool)
          → IsValid (flag d)
          → Keeps (flag d) (return_method call (flag d)) [] (λ c. one (call == c))
      cases false v =
          one_more-Keeps call (flag false) (cancel 1 abort_error (flag false)) (finishes call ∷ [])
            refl (λ c. omega arith) (cancel-Keeps 1 abort_error (flag false) v)
      cases true v =
          one_more-Keeps call (flag true) (flag true, []) (finishes call ∷ []) refl
            (λ c. omega arith) (same-Keeps (flag true) v)

  pub abandon_settled-Keeps :
      (o : CancellationOutcome) (i : RpcIterator F)
      → IsValid i
      → Keeps i (abandon_settled o i, []) [] nobody
  unfolding abandon_settled
  abandon_settled-Keeps o i = cases i.done i.cancellation_requested
    where
      cases :
          (d r : Bool)
          → IsValid (flagged d r i)
          → Keeps (flagged d r i) (abandon_settled o (flagged d r i), []) [] nobody
      cases d false v = same-Keeps (flagged d false i) v
      cases false true v = elim v [ ]
      cases true true v = record {
        valid = v;
        frames = sym (append-nil i.buffer);
        calls = λ c. omega arith;
      }

  pub handle_abort-Keeps : (i : RpcIterator F) → IsValid i → Keeps i (handle_abort i) [] nobody
  unfolding handle_abort
  handle_abort-Keeps i = cases i.done i.cancellation_requested i.listening
    where
      flag : Bool → Bool → Bool → RpcIterator F
      flag d r l = record i { done = d; cancellation_requested = r; listening = l }

      now : Bool → Bool → Bool → RpcIterator F
      now d r l = record (flag d r l) { aborted = true }

      valid : (d r l : Bool) → IsValid (flag d r l) → IsValid (now d r l)
      valid false false l v = v
      valid false true l v = v
      valid true false l v = v
      valid true true l v = v

      same :
          (d r l : Bool) (x : RpcIterator F × List (Effect F))
          → Keeps (now d r l) x [] nobody
          → Keeps (flag d r l) x [] nobody
      same d r l x k = record { valid = k.valid; frames = k.frames; calls = k.calls }

      cases :
          (d r l : Bool)
          → IsValid (flag d r l)
          → Keeps (flag d r l) (handle_abort (flag d r l)) [] nobody
      cases d r true v =
          same d r true (cancel 1 abort_error (now d r true))
            (cancel-Keeps 1 abort_error (now d r true) (valid d r true v))
      cases d r false v =
          same d r false (now d r false, []) (same-Keeps (now d r false) (valid d r false v))

  pub time_out-Keeps : (i : RpcIterator F) → IsValid i → Keeps i (time_out i) [] nobody
  unfolding time_out
  time_out-Keeps i = cases i.done i.cancellation_requested i.armed
    where
      flag : Bool → Bool → Bool → RpcIterator F
      flag d r a = record i { done = d; cancellation_requested = r; armed = a }

      valid : (d r a : Bool) → IsValid (flag d r a) → IsValid (flag d r false)
      valid false false a v = v
      valid false true a v = v
      valid true false a v = (v.0, refl, v.2, v.3)
      valid true true a v = (v.0, refl, v.2, v.3, v.4)

      same :
          (d r a : Bool) (x : RpcIterator F × List (Effect F))
          → Keeps (flag d r false) x [] nobody
          → Keeps (flag d r a) x [] nobody
      same d r a x k = record { valid = k.valid; frames = k.frames; calls = k.calls }

      cases :
          (d r a : Bool)
          → IsValid (flag d r a)
          → Keeps (flag d r a) (time_out (flag d r a)) [] nobody
      cases d r true v =
          same d r true (cancel 2 timeout_error (flag d r false))
            (cancel-Keeps 2 timeout_error (flag d r false) (valid d r true v))
      cases d r false v = same-Keeps (flag d r false) v
