-- ===== src/Domains/Rpc/Frames.antt =====
-- src/domains/rpc/iterator.ts: what each step does to the state, to the frames and to the calls.
use fitz_ts.Base.{
  ℕ, ◌+◌, ◌≡◌, ◌⊎◌, refl, sym, ap, ◌∙◌, List, [], ◌∷◌, ◌++◌, append-nil, Option, some, none, Bool,
  true, false, ◌==◌, if◌then◌else◌, arith,
}
use fitz_ts.Domains.Rpc.{
  Failure, CancellationOutcome, RpcIterator, Effect, yields, finishes, throws, throws_later,
  discards, abandons, calls_finish, discard_all, reject, cancel, Event, pushes, nexts, returns,
}

abbrev pub one : Bool → ℕ
one true = 1
one false = 0

-- How often call `c` waits.
abbrev pub waits : ℕ → Option ℕ → ℕ
waits c none = 0
waits c (some call) = one (call == c)

abbrev pub nobody : ℕ → ℕ
nobody c = 0

module _ {F : Type 0} where
  -- The frames that left the iterator, in order.
  abbrev pub left : List (Effect F) → List F
  left [] = []
  left (yields call f ∷ fx) = f ∷ left fx
  left (discards f ∷ fx) = f ∷ left fx
  left (finishes call ∷ fx) = left fx
  left (throws call error ∷ fx) = left fx
  left (throws_later call error ∷ fx) = left fx
  left (abandons reason ∷ fx) = left fx
  left (calls_finish ∷ fx) = left fx

  -- How often call `c` is answered.
  abbrev pub answers : ℕ → List (Effect F) → ℕ
  answers c [] = 0
  answers c (yields call f ∷ fx) = one (call == c) + answers c fx
  answers c (finishes call ∷ fx) = one (call == c) + answers c fx
  answers c (throws call error ∷ fx) = one (call == c) + answers c fx
  answers c (throws_later call error ∷ fx) = one (call == c) + answers c fx
  answers c (discards f ∷ fx) = answers c fx
  answers c (abandons reason ∷ fx) = answers c fx
  answers c (calls_finish ∷ fx) = answers c fx

  pub left-append : (xs ys : List (Effect F)) → left (xs ++ ys) ≡ left xs ++ left ys
  left-append [] ys = refl
  left-append (yields call f ∷ fx) ys = ap (λ l. f ∷ l) (left-append fx ys)
  left-append (discards f ∷ fx) ys = ap (λ l. f ∷ l) (left-append fx ys)
  left-append (finishes call ∷ fx) ys = left-append fx ys
  left-append (throws call error ∷ fx) ys = left-append fx ys
  left-append (throws_later call error ∷ fx) ys = left-append fx ys
  left-append (abandons reason ∷ fx) ys = left-append fx ys
  left-append (calls_finish ∷ fx) ys = left-append fx ys

  pub answers-append :
      (c : ℕ) (xs ys : List (Effect F)) → answers c (xs ++ ys) ≡ answers c xs + answers c ys
  answers-append c [] ys = omega arith
  answers-append c (yields call f ∷ fx) ys = omega (arith, answers-append c fx ys)
  answers-append c (discards f ∷ fx) ys = answers-append c fx ys
  answers-append c (finishes call ∷ fx) ys = omega (arith, answers-append c fx ys)
  answers-append c (throws call error ∷ fx) ys = omega (arith, answers-append c fx ys)
  answers-append c (throws_later call error ∷ fx) ys = omega (arith, answers-append c fx ys)
  answers-append c (abandons reason ∷ fx) ys = answers-append c fx ys
  answers-append c (calls_finish ∷ fx) ys = answers-append c fx ys

  left-discard_all : (fs : List F) → left (discard_all fs) ≡ fs
  left-discard_all [] = refl
  left-discard_all (f ∷ fs) = ap (λ l. f ∷ l) (left-discard_all fs)

  answers-discard_all : (c : ℕ) (fs : List F) → answers c (discard_all fs) ≡ 0
  answers-discard_all c [] = refl
  answers-discard_all c (f ∷ fs) = answers-discard_all c fs

  -- Nothing has failed while the iterator is open, and nobody waits while there are frames. Once it
  -- is done nobody waits, no timer is armed and no listener is left; a cancelled one is empty and
  -- has a failure, and any other has its cancellation settled.
  abbrev Phase : Bool → Bool → RpcIterator F → Type 0
  Phase false false i =
      (i.failure_reason ≡ none) × (i.cancellation ≡ none) × ((i.waiting ≡ none) ⊎ (i.buffer ≡ []))
  Phase false true i = ⊥
  Phase true false i =
      (i.waiting ≡ none)
      × (i.armed ≡ false)
      × (i.listening ≡ false)
      × ((o : CancellationOutcome) × (i.cancellation ≡ some o))
  Phase true true i =
      (i.waiting ≡ none)
      × (i.armed ≡ false)
      × (i.listening ≡ false)
      × (i.buffer ≡ [])
      × ((e : Failure) × (i.failure_reason ≡ some e))

  abbrev pub IsValid : RpcIterator F → Type 0
  IsValid i = Phase i.done i.cancellation_requested i

  -- What a step brings: frames that are taken, and calls that ask.
  abbrev pub takes : Event F → RpcIterator F → List F
  takes (pushes f) i = if i.done then [] else f ∷ []
  takes _ i = []

  abbrev pub asks : ℕ → Event F → ℕ
  asks c (nexts call) = one (call == c)
  asks c (returns call) = one (call == c)
  asks c _ = 0

  -- No call of `next` while another one waits.
  abbrev pub InTurn : Event F → RpcIterator F → Type 0
  InTurn (nexts call) i = i.waiting ≡ none
  InTurn _ i = Unit {0}

  pub record Keeps (i : RpcIterator F) (x : RpcIterator F × List (Effect F)) (fs : List F)
      (asked : ℕ → ℕ) : Type 0 where
    pub valid : IsValid x.0
    pub frames : left x.1 ++ x.0.buffer ≡ i.buffer ++ fs
    pub calls : (c : ℕ) → answers c x.1 + waits c x.0.waiting ≡ waits c i.waiting + asked c

  left-reject : (w : Option ℕ) (e : Failure) → left (reject {F = F} w e) ≡ []
  left-reject none e = refl
  left-reject (some call) e = refl

  abbrev pub flagged : Bool → Bool → RpcIterator F → RpcIterator F
  flagged d r i = record i { done = d; cancellation_requested = r }

  pub same-Keeps : (i : RpcIterator F) → IsValid i → Keeps i (i, []) [] nobody
  same-Keeps i v = record {
    valid = v;
    frames = sym (append-nil i.buffer);
    calls = λ c. omega arith;
  }

  -- More effects that answer calls and take no frame.
  pub also-Keeps :
      (i : RpcIterator F) (x : RpcIterator F × List (Effect F)) (fs : List F)
      (asked all_asked : ℕ → ℕ) (more : List (Effect F))
      → left more ≡ []
      → ((c : ℕ) → all_asked c ≡ asked c + answers c more)
      → Keeps i x fs asked
      → Keeps i (x.0, x.1 ++ more) fs all_asked
  also-Keeps i x fs asked all_asked more p q k = record {
    valid = k.valid;
    frames =
        ap (λ l. l ++ x.0.buffer)
          (left-append x.1 more ∙ ap (λ l. left x.1 ++ l) p ∙ append-nil (left x.1))
        ∙ k.frames;
    calls = λ c. omega (arith, answers-append c x.1 more, q c, k.calls c);
  }

  pub cancel-Keeps :
      (reason : ℕ) (e : Failure) (i : RpcIterator F)
      → IsValid i
      → Keeps i (cancel reason e i) [] nobody
  unfolding cancel
  cancel-Keeps reason e i = cases i.done i.cancellation_requested
    where
      rejected : (c : ℕ) (w : Option ℕ) → answers c (reject w e) ≡ waits c w
      rejected c none = refl
      rejected c (some call) = omega arith

      effects : List (Effect F)
      effects = discard_all i.buffer ++ abandons reason ∷ reject i.waiting e

      all_left : left effects ≡ i.buffer
      all_left =
          left-append (discard_all i.buffer) (abandons reason ∷ reject i.waiting e)
          ∙ ap (λ l. left (discard_all i.buffer) ++ l) (left-reject i.waiting e)
          ∙ append-nil (left (discard_all i.buffer))
          ∙ left-discard_all i.buffer

      cases :
          (d r : Bool)
          → IsValid (flagged d r i)
          → Keeps (flagged d r i) (cancel reason e (flagged d r i)) [] nobody
      cases false false v = record {
        valid = (refl, refl, refl, refl, (e, refl));
        frames = ap (λ l. l ++ []) all_left;
        calls = λ c. omega (
          arith,
          answers-append c (discard_all i.buffer) (abandons reason ∷ reject i.waiting e),
          answers-discard_all c i.buffer,
          rejected c i.waiting,
        );
      }
      cases false true v = elim v [ ]
      cases true false v = same-Keeps (flagged true false i) v
      cases true true v = same-Keeps (flagged true true i) v

  -- One more effect that answers a call.
  pub one_more-Keeps :
      (call : ℕ) (i : RpcIterator F) (x : RpcIterator F × List (Effect F)) (more : List (Effect F))
      → left more ≡ []
      → ((c : ℕ) → answers c more ≡ one (call == c))
      → Keeps i x [] nobody
      → Keeps i (x.0, x.1 ++ more) [] (λ c. one (call == c))
  one_more-Keeps call i x more p q k =
      also-Keeps i x [] nobody (λ c. one (call == c)) more p (λ c. omega (arith, q c)) k
