-- ===== src/Lifecycle/Scope/Ends.antt =====
-- src/core/lifecycle.ts: the disposal of an open scope comes to its end.
use mathlib.Core.Path.{subst}
use mathlib.Core.List.{reverse, reverse_aux}
use fitz_ts.Base.{
  ◌+◌, ◌≡◌, refl, sym, ap, ◌∙◌, List, [], ◌∷◌, ◌++◌, map, length, append-nil, append_assoc, Option,
  some, none, Bool, true, false, arith,
}
use fitz_ts.Lifecycle.Scope.{
  Scope, Effect, ensure_completion, outcome, dispose_from, dispose, disposes, settles, step, run,
}
use fitz_ts.Lifecycle.Scope.Unwinding.{begun, flagged}

-- The errors among what the disposals settle with.
abbrev pub thrown : {E : Type 0} → List (Option E) → List E
thrown [] = []
thrown (none ∷ results) = thrown results
thrown (some e ∷ results) = e ∷ thrown results

length-reverse_aux :
    {A : Type 0} (xs acc : List A) → length (reverse_aux xs acc) ≡ length xs + length acc
length-reverse_aux [] acc = omega arith
length-reverse_aux (x ∷ xs) acc = omega (arith, length-reverse_aux xs (x ∷ acc))

module _ {E R : Type 0} where
  -- A scope that has disposed of `rs`, and whose completion is settled by the first of `errors`.
  abbrev pub IsDisposed : Scope E R × List (Effect E R) → List R → List E → Type 0
  IsDisposed x rs errors =
      (x.0.disposed ≡ true) × (begun x.1 ≡ rs) × (x.0.completion ≡ some (outcome errors))

  abbrev goes_on : List (Option E) → Scope E R × List (Effect E R) → Scope E R × List (Effect E R)
  goes_on results x = let y = run (map settles results) x.0 in (y.0, x.1 ++ y.1)

  goes_on-IsDisposed :
      (snapshot : List R) (errors : List E) (s : Scope E R) (results : List (Option E))
      → length results ≡ length snapshot
      → IsDisposed
          (goes_on results (dispose_from snapshot errors (flagged false true s)))
          snapshot
          (errors ++ thrown results)
  unfolding run step
  goes_on-IsDisposed [] errors s [] same = (refl, refl, rw (append-nil errors) refl)
  goes_on-IsDisposed [] errors s (r ∷ results) same = absurd (omega (arith, same))
  goes_on-IsDisposed (x ∷ rest) errors s [] same = absurd (omega (arith, same))
  goes_on-IsDisposed (x ∷ rest) errors s (none ∷ results) same =
      let h =
        goes_on-IsDisposed rest errors (record s { snapshot = rest; errors = errors }) results
          (omega (arith, same)) in
      (h.0, ap (λ l. x ∷ l) h.1, h.2)
  goes_on-IsDisposed (x ∷ rest) errors s (some e ∷ results) same =
      let h =
        goes_on-IsDisposed rest (errors ++ e ∷ []) (record s { snapshot = rest; errors = errors })
          results (omega (arith, same)) in
      (
        h.0,
        ap (λ l. x ∷ l) h.1,
        h.2 ∙ ap (λ l. some (outcome l)) (append_assoc errors (e ∷ []) (thrown results)),
      )

  -- When an open scope is disposed of and the disposal of each of its resources settles, whatever it
  -- settles with, all resources are disposed of, in reverse order, also those behind one that
  -- throws; the completion is rejected with the first error, or resolved if there is none.
  pub run-disposes :
      (s : Scope E R) (results : List (Option E))
      → s.disposed ≡ false
      → s.disposing ≡ false
      → length results ≡ length s.resources
      → IsDisposed (run (disposes ∷ map settles results) s) (reverse s.resources) (thrown results)
  unfolding run step dispose
  run-disposes s results d g same =
      subst (λ x. Ended x s.disposing) (sym d)
        (subst (λ x. Ended false x) (sym g)
          (goes_on-IsDisposed (reverse s.resources) []
            (record s {
              aborted = true;
              completion = ensure_completion s.completion;
              resources = [];
            })
            results (omega (arith, same, length-reverse_aux s.resources []))))
    where
      Ended : Bool → Bool → Type 0
      Ended x y =
          IsDisposed (run (disposes ∷ map settles results) (flagged x y s)) (reverse s.resources)
            (thrown results)
