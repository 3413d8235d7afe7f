-- ===== src/Base/Assoc.antt =====
-- A JavaScript Map whose keys are numbers, as an association list.
use Prim.Native.Nat.{ℕ}
use mathlib.Core.Path.{◌≡◌, refl, sym, ap, ◌∙◌}
use mathlib.Core.Logic.{◌≢◌}
use mathlib.Core.Option.{Option, none, some}
use mathlib.Core.List.{List, [], ◌∷◌}
use native.Mathlib.Omega.{arith}
use fitz_ts.Base.Tests.{◌==◌, if◌then◌else◌}

module _ {ℓ} {V : Type ℓ} where
  unfoldable pub lookup : ℕ → List (ℕ × V) → Option V
  lookup k [] = none
  lookup k ((j, v) ∷ m) = let rest = lookup k m in if j == k then some v else rest

  -- `set`: the value of a key that is there is replaced.
  unfoldable pub insert : ℕ → V → List (ℕ × V) → List (ℕ × V)
  insert k v [] = (k, v) ∷ []
  insert k v ((j, w) ∷ m) = let rest = insert k v m in if j == k then (k, v) ∷ m else (j, w) ∷ rest

  unfoldable pub remove : ℕ → List (ℕ × V) → List (ℕ × V)
  remove k [] = []
  remove k ((j, w) ∷ m) = let rest = remove k m in if j == k then rest else (j, w) ∷ rest

  pub lookup-insert : (k : ℕ) (v : V) (m : List (ℕ × V)) → lookup k (insert k v m) ≡ some v
  unfolding lookup insert
  lookup-insert k v [] = ground arith
  lookup-insert k v ((j, w) ∷ m) = ground (arith, lookup-insert k v m)

  -- At a key that is the one inserted.
  pub lookup-insert_at :
      (k j : ℕ) (v : V) (m : List (ℕ × V)) → j ≡ k → lookup k (insert j v m) ≡ some v
  lookup-insert_at k j v m e = ap (λ i. lookup i (insert j v m)) (sym e) ∙ lookup-insert j v m

  pub some-injective : (x y : V) → some x ≡ some y → x ≡ y
  some-injective x y h = cc

  pub none-some : (x : V) → none ≡ some x → ⊥
  none-some x h = cc

  pub lookup-insert_other :
      (k j : ℕ) (v : V) (m : List (ℕ × V)) → j ≢ k → lookup k (insert j v m) ≡ lookup k m
  unfolding lookup insert
  lookup-insert_other k j v [] ne = ground arith
  lookup-insert_other k j v ((i, w) ∷ m) ne = ground (arith, lookup-insert_other k j v m ne)

  pub lookup-remove : (k : ℕ) (m : List (ℕ × V)) → lookup k (remove k m) ≡ none
  unfolding lookup remove
  lookup-remove k [] = refl
  lookup-remove k ((j, w) ∷ m) = ground (arith, lookup-remove k m)

  pub lookup-remove_at : (k j : ℕ) (m : List (ℕ × V)) → j ≡ k → lookup k (remove j m) ≡ none
  lookup-remove_at k j m e = ap (λ i. lookup i (remove j m)) (sym e) ∙ lookup-remove j m

  pub lookup-remove_other :
      (k j : ℕ) (m : List (ℕ × V)) → j ≢ k → lookup k (remove j m) ≡ lookup k m
  unfolding lookup remove
  lookup-remove_other k j [] ne = refl
  lookup-remove_other k j ((i, w) ∷ m) ne = ground (arith, lookup-remove_other k j m ne)
