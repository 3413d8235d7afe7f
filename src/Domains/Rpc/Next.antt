-- ===== src/Domains/Rpc/Next.antt =====
-- src/domains/rpc/iterator.ts: `next` keeps the frames and the calls, where nobody waits yet.
use fitz_ts.Base.{
  ℕ, ◌≡◌, inl, inr, refl, sym, ap, List, [], ◌∷◌, append-nil, Option, some, none, Bool, true, false,
  ◌==◌, if◌then◌else◌, arith,
}
use fitz_ts.Domains.Rpc.{
  Failure, RpcIterator, finishes, throws, cancel, abort_error, next_of, is_abort, throw_reason,
  next,
}
use fitz_ts.Domains.Rpc.Frames.{one, IsValid, Keeps, same-Keeps, cancel-Keeps, one_more-Keeps}

module _ {F : Type 0} where
  pub next-Keeps :
      (call : ℕ) (i : RpcIterator F)
      → IsValid i
      → i.waiting ≡ none
      → Keeps i (next call i) [] (λ c. one (call == c))
  unfolding next cancel
  next-Keeps call i v w =
      by_flags i.done i.cancellation_requested i.aborted i.failure_reason i.waiting v w
    where
      flag : Bool → Bool → Bool → Option Failure → Option ℕ → RpcIterator F
      flag d r a e w = record i {
        done = d;
        cancellation_requested = r;
        aborted = a;
        failure_reason = e;
        waiting = w;
      }

      plain :
          (d r a : Bool) (e : Option Failure)
          → IsValid (flag d r a e none)
          → Keeps
              (flag d r a e none)
              (next_of call i.buffer e d (flag d r a e none))
              []
              (λ c. one (call == c))
      plain d r a e v = by_buffer i.buffer e d r v
        where
          filled : List F → Bool → Bool → Option Failure → RpcIterator F
          filled b d r e = record (flag d r a e none) { buffer = b }

          by_buffer :
              (b : List F) (e : Option Failure) (d r : Bool)
              → IsValid (filled b d r e)
              → Keeps
                  (filled b d r e)
                  (next_of call b e d (filled b d r e))
                  []
                  (λ c. one (call == c))
          by_buffer (f ∷ fs) e false false v = record {
            valid = (v.0, v.1, inl refl);
            frames = ap (λ l. f ∷ l) (sym (append-nil fs));
            calls = λ c. omega arith;
          }
          by_buffer (f ∷ fs) e true false v = record {
            valid = v;
            frames = ap (λ l. f ∷ l) (sym (append-nil fs));
            calls = λ c. omega arith;
          }
          by_buffer (f ∷ fs) e false true v = elim v [ ]
          by_buffer (f ∷ fs) e true true v = cc
          by_buffer [] (some e) d r v =
              one_more-Keeps call (filled [] d r (some e)) (filled [] d r (some e), [])
                (throws call e ∷ []) refl (λ c. omega arith) (same-Keeps (filled [] d r (some e)) v)
          by_buffer [] none true r v =
              one_more-Keeps call (filled [] true r none) (filled [] true r none, [])
                (finishes call ∷ []) refl (λ c. omega arith) (same-Keeps (filled [] true r none) v)
          by_buffer [] none false false v = record {
            valid = (v.0, v.1, inr refl);
            frames = refl;
            calls = λ c. omega arith;
          }
          by_buffer [] none false true v = elim v [ ]

      by_failure :
          (d r a : Bool) (e : Option Failure)
          → IsValid (flag d r a e none)
          → Keeps
              (flag d r a e none)
              (if is_abort e
                then (flag d r a e none, throw_reason call e)
                else next_of call i.buffer e d (flag d r a e none))
              []
              (λ c. one (call == c))
      by_failure d r a none v = plain d r a none v
      by_failure d r a (some e) v = by_name e.is_abort_error v
        where
          named : Bool → Failure
          named k = record e { is_abort_error = k }

          by_name :
              (k : Bool)
              → IsValid (flag d r a (some (named k)) none)
              → Keeps
                  (flag d r a (some (named k)) none)
                  (if k
                    then (flag d r a (some (named k)) none, throws call (named k) ∷ [])
                    else next_of call i.buffer
                        (some (named k))
                        d
                        (flag d r a (some (named k)) none))
                  []
                  (λ c. one (call == c))
          by_name true v =
              one_more-Keeps call (flag d r a (some (named true)) none)
                (flag d r a (some (named true)) none, []) (throws call (named true) ∷ []) refl
                (λ c. omega arith) (same-Keeps (flag d r a (some (named true)) none) v)
          by_name false v = plain d r a (some (named false)) v

      by_flags :
          (d r a : Bool) (e : Option Failure) (w : Option ℕ)
          → IsValid (flag d r a e w)
          → w ≡ none
          → Keeps (flag d r a e w) (next call (flag d r a e w)) [] (λ c. one (call == c))
      by_flags d r a e (some waiting) v p = cc
      by_flags true r a e none v p = by_failure true r a e v
      by_flags false r false e none v p = by_failure false r false e v
      by_flags false false true e none v p =
          one_more-Keeps call (flag false false true e none)
            (cancel 1 abort_error (flag false false true e none)) (throws call abort_error ∷ [])
            refl (λ c. omega arith) (cancel-Keeps 1 abort_error (flag false false true e none) v)
      by_flags false true true e none v p = elim v [ ]
