-- ===== src/Lifecycle/Scope/Unwinding.antt =====
-- src/core/lifecycle.ts: the order in which a scope disposes of its resources, and how it ends.
use mathlib.Core.Path.{subst}
use mathlib.Core.List.{reverse}
use fitz_ts.Base.{
  ◌≡◌, refl, ap, ◌∙◌, List, [], ◌∷◌, ◌++◌, length, append-nil, append_assoc, Option, some, none,
  Bool, true, false, arith,
}
use fitz_ts.Lifecycle.Scope.{
  waiting, Scope, Effect, accepts, refuses, begins, catches, returns, new_scope, ensure_completion,
  add, outcome, dispose_from, dispose, settled, Event, adds, disposes, settles, step, run,
}

-- The head of a snapshot is being disposed of, and the rest is still to come.
abbrev Awaits : {R : Type 0} → List R → List R → List R → Type 0
Awaits [] ts bs = ⊥
Awaits (r ∷ rest) ts bs = bs ++ rest ≡ reverse ts

module _ {E R : Type 0} where
  -- What a history did: the resources taken, the disposals that began, and the errors caught.
  abbrev pub taken : List (Effect E R) → List R
  taken [] = []
  taken (accepts r ∷ fx) = r ∷ taken fx
  taken (refuses r ∷ fx) = taken fx
  taken (begins r ∷ fx) = taken fx
  taken (catches e ∷ fx) = taken fx
  taken (returns ∷ fx) = taken fx

  abbrev pub begun : List (Effect E R) → List R
  begun [] = []
  begun (accepts r ∷ fx) = begun fx
  begun (refuses r ∷ fx) = begun fx
  begun (begins r ∷ fx) = r ∷ begun fx
  begun (catches e ∷ fx) = begun fx
  begun (returns ∷ fx) = begun fx

  abbrev pub caught : List (Effect E R) → List E
  caught [] = []
  caught (accepts r ∷ fx) = caught fx
  caught (refuses r ∷ fx) = caught fx
  caught (begins r ∷ fx) = caught fx
  caught (catches e ∷ fx) = e ∷ caught fx
  caught (returns ∷ fx) = caught fx

  taken-append : (xs ys : List (Effect E R)) → taken (xs ++ ys) ≡ taken xs ++ taken ys
  taken-append [] ys = refl
  taken-append (accepts r ∷ fx) ys = ap (λ l. r ∷ l) (taken-append fx ys)
  taken-append (refuses r ∷ fx) ys = taken-append fx ys
  taken-append (begins r ∷ fx) ys = taken-append fx ys
  taken-append (catches e ∷ fx) ys = taken-append fx ys
  taken-append (returns ∷ fx) ys = taken-append fx ys

  pub begun-append : (xs ys : List (Effect E R)) → begun (xs ++ ys) ≡ begun xs ++ begun ys
  begun-append [] ys = refl
  begun-append (accepts r ∷ fx) ys = begun-append fx ys
  begun-append (refuses r ∷ fx) ys = begun-append fx ys
  begun-append (begins r ∷ fx) ys = ap (λ l. r ∷ l) (begun-append fx ys)
  begun-append (catches e ∷ fx) ys = begun-append fx ys
  begun-append (returns ∷ fx) ys = begun-append fx ys

  caught-append : (xs ys : List (Effect E R)) → caught (xs ++ ys) ≡ caught xs ++ caught ys
  caught-append [] ys = refl
  caught-append (accepts r ∷ fx) ys = caught-append fx ys
  caught-append (refuses r ∷ fx) ys = caught-append fx ys
  caught-append (begins r ∷ fx) ys = caught-append fx ys
  caught-append (catches e ∷ fx) ys = ap (λ l. e ∷ l) (caught-append fx ys)
  caught-append (returns ∷ fx) ys = caught-append fx ys

  -- An open scope holds what it has taken. One that is disposed of has begun with the last resource
  -- and goes on to the first; at the end it has disposed of each once, and is settled by the first
  -- error, if there is one.
  abbrev Phase : Bool → Bool → Scope E R → List R → List R → List E → Type 0
  Phase false false s ts bs es =
      (s.resources ≡ ts) × (s.snapshot ≡ []) × (bs ≡ []) × (es ≡ []) × (s.completion ≡ none)
  Phase false true s ts bs es =
      Awaits s.snapshot ts bs × (s.errors ≡ es) × (s.completion ≡ some waiting)
  Phase true false s ts bs es =
      (bs ≡ reverse ts) × (s.snapshot ≡ []) × (s.completion ≡ some (outcome es))
  Phase true true s ts bs es = ⊥

  abbrev pub Unwinds : Scope E R → List R → List R → List E → Type 0
  Unwinds s ts bs es = Phase s.disposed s.disposing s ts bs es

  -- A scope after effects, if `ts`, `bs` and `es` were the case before them.
  abbrev After : Scope E R × List (Effect E R) → List R → List R → List E → Type 0
  After x ts bs es = Unwinds x.0 (ts ++ taken x.1) (bs ++ begun x.1) (es ++ caught x.1)

  After-nothing :
      (s : Scope E R) (ts bs : List R) (es : List E) → Unwinds s ts bs es → After (s, []) ts bs es
  After-nothing s ts bs es h = rw (append-nil ts, append-nil bs, append-nil es) h

  abbrev pub flagged : Bool → Bool → Scope E R → Scope E R
  flagged d g s = record s { disposed = d; disposing = g }

  dispose_from-After :
      (snapshot : List R) (errors : List E) (s : Scope E R) (ts bs : List R)
      → s.completion ≡ some waiting
      → bs ++ snapshot ≡ reverse ts
      → After (dispose_from snapshot errors (flagged false true s)) ts bs errors
  dispose_from-After [] errors s ts bs c order =
      rw (append-nil ts, append-nil errors) (order, refl, refl)
  dispose_from-After (r ∷ rest) errors s ts bs c order =
      rw (append-nil ts, append-nil errors) (append_assoc bs (r ∷ []) rest ∙ order, refl, c)

  add-After :
      (r : R) (s : Scope E R) (ts bs : List R) (es : List E)
      → Unwinds s ts bs es
      → After (add r s) ts bs es
  unfolding add
  add-After r s ts bs es = cases s.disposed s.disposing
    where
      cases :
          (d g : Bool) → Unwinds (flagged d g s) ts bs es → After (add r (flagged d g s)) ts bs es
      cases false false h =
          rw (append-nil bs, append-nil es) (ap (λ l. l ++ r ∷ []) h.0, h.1, h.2, h.3, h.4)
      cases false true h = After-nothing (flagged false true s) ts bs es h
      cases true false h = After-nothing (flagged true false s) ts bs es h
      cases true true h = elim h [ ]

  dispose-After :
      (s : Scope E R) (ts bs : List R) (es : List E)
      → Unwinds s ts bs es
      → After (dispose s) ts bs es
  unfolding dispose
  dispose-After s ts bs es = cases s.disposed s.disposing
    where
      cases :
          (d g : Bool) → Unwinds (flagged d g s) ts bs es → After (dispose (flagged d g s)) ts bs es
      cases false false h =
          rw (h.2, h.3)
            (dispose_from-After (reverse s.resources) []
              (record s {
                aborted = true;
                completion = ensure_completion s.completion;
                resources = [];
              })
              ts [] (ap ensure_completion h.4) (ap reverse h.0))
      cases false true h =
          After-nothing (dispose (flagged false true s)).0 ts bs es
            (h.0, h.1, ap ensure_completion h.2)
      cases true false h =
          After-nothing (dispose (flagged true false s)).0 ts bs es
            (h.0, h.1, ap ensure_completion h.2)
      cases true true h = elim h [ ]

  settled-After :
      (result : Option E) (s : Scope E R) (ts bs : List R) (es : List E)
      → Unwinds s ts bs es
      → After (settled result s.snapshot s) ts bs es
  settled-After result s ts bs es = cases s.disposed s.disposing result s.snapshot
    where
      with_snapshot : Bool → Bool → List R → Scope E R
      with_snapshot d g l = record s { disposed = d; disposing = g; snapshot = l }

      cases :
          (d g : Bool) (result : Option E) (l : List R)
          → Unwinds (with_snapshot d g l) ts bs es
          → After (settled result l (with_snapshot d g l)) ts bs es
      cases d g result [] h = After-nothing (with_snapshot d g []) ts bs es h
      cases false false result (r ∷ rest) h = absurd (omega (arith, ap length h.1))
      cases false true none (r ∷ rest) h =
          rw (← h.1) (dispose_from-After rest s.errors (record s { snapshot = rest }) ts bs h.2 h.0)
      cases false true (some e) (r ∷ rest) h =
          let t : Scope E R = record s { snapshot = rest } in
          let x : Scope E R × List (Effect E R) =
            dispose_from rest (s.errors ++ e ∷ []) (flagged false true t) in
          rw (← h.1) (
            subst (λ l. Unwinds x.0 (ts ++ taken x.1) (bs ++ begun x.1) l)
              (append_assoc s.errors (e ∷ []) (caught x.1))
              (dispose_from-After rest (s.errors ++ e ∷ []) t ts bs h.2 h.0))
      cases true false result (r ∷ rest) h = absurd (omega (arith, ap length h.1))
      cases true true result (r ∷ rest) h = elim h [ ]

  pub step-After :
      (e : Event E R) (s : Scope E R) (ts bs : List R) (es : List E)
      → Unwinds s ts bs es
      → After (step e s) ts bs es
  unfolding step
  step-After (adds r) s ts bs es h = add-After r s ts bs es h
  step-After disposes s ts bs es h = dispose-After s ts bs es h
  step-After (settles result) s ts bs es h = settled-After result s ts bs es h

  run-After :
      (events : List (Event E R)) (s : Scope E R) (ts bs : List R) (es : List E)
      → Unwinds s ts bs es
      → After (run events s) ts bs es
  unfolding run
  run-After [] s ts bs es h = After-nothing s ts bs es h
  run-After (e ∷ events) s ts bs es h =
      let x : Scope E R × List (Effect E R) = step e s in
      let y : Scope E R × List (Effect E R) = run events x.0 in
      rw
        (
          taken-append x.1 y.1,
          begun-append x.1 y.1,
          caught-append x.1 y.1,
          ← append_assoc ts (taken x.1) (taken y.1),
          ← append_assoc bs (begun x.1) (begun y.1),
          ← append_assoc es (caught x.1) (caught y.1),
        )
        (run-After events x.0 _ _ _ (step-After e s ts bs es h))

  -- Whatever is called and however disposals settle, in any order: a new scope holds what it has
  -- taken until it is disposed of; from then on it takes nothing, begins to dispose of its resources
  -- one after another, the last that it took first, and when it is disposed of it has begun with
  -- each exactly once and is settled by the first error that was caught, or resolved without one.
  pub run-new_scope-Unwinds :
      (events : List (Event E R))
      → let x = run events (new_scope {E = E} {R = R}) in
        Unwinds x.0 (taken x.1) (begun x.1) (caught x.1)
  run-new_scope-Unwinds events = run-After events new_scope [] [] [] (refl, refl, refl, refl, refl)
