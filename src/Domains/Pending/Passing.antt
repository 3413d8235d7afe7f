-- ===== src/Domains/Pending/Passing.antt =====
-- src/domains/internal/pending-notifications.ts: each notification is passed on once, and in order.
use fitz_ts.Base.{
  ℕ, ◌≡◌, ◌≢◌, refl, sym, ap, ◌∙◌, List, [], ◌∷◌, ◌++◌, append-nil, Option, some, none, ◌==◌,
  if◌then◌else◌, arith, Bool-cases, inl, inr,
}
use fitz_ts.Base.Assoc.{
  remove, lookup-insert, lookup-insert_other, lookup-remove, lookup-remove_other,
}
use fitz_ts.Domains.Pending.{
  Effect, dispatches, drops, or_empty, waiting, dispatch_all, flush_to, flush, dispatch_or_queue_to,
  dispatch_or_queue, drop_all, remove_pending,
}

module _ {N : Type 0} where
  -- What effects pass on of subscription `s`.
  abbrev pub passed : ℕ → List (Effect N) → List N
  passed s [] = []
  passed s (dispatches t handlers n ∷ fx) =
      let rest = passed s fx in if t == s then n ∷ rest else rest
  passed s (drops t n ∷ fx) = let rest = passed s fx in if t == s then n ∷ rest else rest

  pub passed-append :
      (s : ℕ) (xs ys : List (Effect N)) → passed s (xs ++ ys) ≡ passed s xs ++ passed s ys
  passed-append s [] ys = refl
  passed-append s (dispatches t handlers n ∷ fx) ys = ground (arith, passed-append s fx ys)
  passed-append s (drops t n ∷ fx) ys = ground (arith, passed-append s fx ys)

  passed-dispatch_all :
      (s t : ℕ) (handlers : List ℕ) (ns : List N)
      → t ≡ s
      → passed s (dispatch_all t handlers ns) ≡ ns
  passed-dispatch_all s t handlers [] e = refl
  passed-dispatch_all s t handlers (n ∷ ns) e =
      ground (arith, passed-dispatch_all s t handlers ns e)

  passed-dispatch_all_other :
      (s t : ℕ) (handlers : List ℕ) (ns : List N)
      → t ≢ s
      → passed s (dispatch_all t handlers ns) ≡ []
  passed-dispatch_all_other s t handlers [] ne = refl
  passed-dispatch_all_other s t handlers (n ∷ ns) ne =
      ground (arith, passed-dispatch_all_other s t handlers ns ne)

  passed-drop_all : (s t : ℕ) (ns : List N) → t ≡ s → passed s (drop_all t ns) ≡ ns
  passed-drop_all s t [] e = refl
  passed-drop_all s t (n ∷ ns) e = ground (arith, passed-drop_all s t ns e)

  passed-drop_all_other : (s t : ℕ) (ns : List N) → t ≢ s → passed s (drop_all t ns) ≡ []
  passed-drop_all_other s t [] ne = refl
  passed-drop_all_other s t (n ∷ ns) ne = ground (arith, passed-drop_all_other s t ns ne)

  -- What is passed on, and what still waits after it, of subscription `s`.
  abbrev pub all_of : ℕ → List (ℕ × List N) × List (Effect N) → List N
  all_of s x = passed s x.1 ++ waiting s x.0

  remove-all_of :
      (s t : ℕ) (pending : List (ℕ × List N)) (fx : List (Effect N))
      → (t ≡ s → passed s fx ≡ waiting s pending)
      → (t ≢ s → passed s fx ≡ [])
      → all_of s (remove t pending, fx) ≡ waiting s pending
  remove-all_of s t pending fx same other = elim (Bool-cases (t == s)) [
    | inl e ↦
        let here : t ≡ s = ground arith in
        rw (same here, here, lookup-remove s pending) (append-nil (waiting s pending))
    | inr e ↦
        let there : t ≢ s = ground arith in
        rw (other there, lookup-remove_other s t pending there) refl
  ]

  pub flush-all_of :
      (resolve : ℕ → Option (List ℕ)) (s t : ℕ) (pending : List (ℕ × List N))
      → all_of s (flush resolve t pending) ≡ waiting s pending
  unfolding flush
  flush-all_of resolve s t pending = cases (resolve t) (waiting t pending) refl
    where
      cases :
          (o : Option (List ℕ)) (ns : List N)
          → waiting t pending ≡ ns
          → all_of s (flush_to o t ns pending) ≡ waiting s pending
      cases none ns e = refl
      cases (some handlers) [] e = refl
      cases (some handlers) (n ∷ ns) e =
          remove-all_of s t pending (dispatch_all t handlers (n ∷ ns))
            (λ here.
              passed-dispatch_all s t handlers (n ∷ ns) here
              ∙ (sym e ∙ ap (λ k. waiting k pending) here))
            (λ there. passed-dispatch_all_other s t handlers (n ∷ ns) there)

  pub remove_pending-all_of :
      (s t : ℕ) (pending : List (ℕ × List N))
      → all_of s (remove_pending t pending) ≡ waiting s pending
  unfolding remove_pending
  remove_pending-all_of s t pending =
      remove-all_of s t pending (drop_all t (waiting t pending))
        (λ here. passed-drop_all s t (waiting t pending) here ∙ ap (λ k. waiting k pending) here)
        (λ there. passed-drop_all_other s t (waiting t pending) there)

  -- The notifications for `s` among one for `t`.
  abbrev pub of_sub : ℕ → ℕ → N → List N
  of_sub s t n = if t == s then n ∷ [] else []

  pub dispatch_or_queue-all_of :
      (resolve : ℕ → Option (List ℕ)) (s t : ℕ) (n : N) (pending : List (ℕ × List N))
      → ((handlers : List ℕ) → resolve s ≡ some handlers → waiting s pending ≡ [])
      → all_of s (dispatch_or_queue resolve t n pending) ≡ waiting s pending ++ of_sub s t n
  unfolding dispatch_or_queue
  dispatch_or_queue-all_of resolve s t n pending clear = cases (resolve t) refl
    where
      cases :
          (o : Option (List ℕ))
          → resolve t ≡ o
          → all_of s (dispatch_or_queue_to o t n pending) ≡ waiting s pending ++ of_sub s t n
      cases none e = elim (Bool-cases (t == s)) [
        | inl here ↦
            let same : t ≡ s = ground arith in
            rw (here, same, lookup-insert s (waiting s pending ++ n ∷ []) pending) refl
        | inr there ↦
            let ne : t ≢ s = ground arith in
            rw
              (
                there,
                lookup-insert_other s t (waiting t pending ++ n ∷ []) pending ne,
                append-nil (waiting s pending),
              )
              refl
      ]
      cases (some handlers) e = elim (Bool-cases (t == s)) [
        | inl here ↦
            let nothing : waiting s pending ≡ [] =
              clear handlers (ap resolve (sym (ground arith)) ∙ e) in
            rw (here, nothing) refl
        | inr there ↦ rw (there, append-nil (waiting s pending)) refl
      ]

  -- What is known and flushed waits no longer, and nothing else starts to wait.
  pub flush-waiting :
      (resolve : ℕ → Option (List ℕ)) (t : ℕ) (pending : List (ℕ × List N)) (handlers : List ℕ)
      → resolve t ≡ some handlers
      → waiting t (flush resolve t pending).0 ≡ []
  unfolding flush
  flush-waiting resolve t pending handlers e = rw e (cases (waiting t pending) refl)
    where
      cases :
          (ns : List N)
          → waiting t pending ≡ ns
          → waiting t (flush_to (some handlers) t ns pending).0 ≡ []
      cases [] h = h
      cases (n ∷ ns) h = ap or_empty (lookup-remove t pending)

  pub waiting_nothing :
      (s : ℕ) (x : List (ℕ × List N) × List (Effect N)) (pending : List (ℕ × List N))
      → all_of s x ≡ waiting s pending
      → waiting s pending ≡ []
      → waiting s x.0 ≡ []
  waiting_nothing s x pending same nothing = back (passed s x.1) (waiting s x.0) (same ∙ nothing)
    where
      back : (xs ys : List N) → xs ++ ys ≡ [] → ys ≡ []
      back [] ys h = h
      back (x ∷ xs) ys h = cc
