-- ===== src/Base/Results.antt =====
-- src/core/errors.ts: the errors that the modelled code throws, and results that may be one.
use Prim.Native.Nat.{ℕ}
use Prim.Native.String.{String}
use mathlib.Core.Path.{◌≡◌, refl}
use mathlib.Core.Bool.{Bool, true, false}
use mathlib.Core.Option.{Option}
use mathlib.Core.List.{List}

-- Each has the text of its message, without the numbers that the source puts into it or into the
-- error's context; these are the list, in order.
pub data Error : Type 0 where
  codec_error : String → List ℕ → Error
  protocol_error : String → Option ℕ → List ℕ → Error
  queue_error : String → Error
  stream_error : String → Error
  range_error : String → List ℕ → Error
  plain_error : String → Error

-- What a call returns, or what it throws.
pub data Result {ℓ} (Value : Type ℓ) : Type ℓ where
  err : (thrown : Error) → Result Value
  ok : (value : Value) → Result Value

module _ {ℓ κ} {A : Type ℓ} {B : Type κ} where
  infixl 5 ◌>>=◌
  abbrev pub ◌>>=◌ : Result A → (A → Result B) → Result B
  err thrown >>= next = err thrown
  ok value >>= next = next value

  -- One step of a chain that succeeds.
  pub >>=-ok :
      (m : Result A) (next : A → Result B) (value : A) {r : Result B}
      → m ≡ ok value
      → next value ≡ r
      → (m >>= next) ≡ r
  >>=-ok m next value e h = rw e h

  -- A chain that succeeds has a first step that did.
  pub >>=-eq-ok :
      (m : Result A) (next : A → Result B) {last : B}
      → (m >>= next) ≡ ok last
      → (value : A) × (m ≡ ok value) × (next value ≡ ok last)
  >>=-eq-ok (err thrown) next h = cc
  >>=-eq-ok (ok value) next h = (value, refl, h)

-- `if (test) throw e`
abbrev pub throw_if : Bool → Error → Result (Unit {0})
throw_if true e = err e
throw_if false e = ok tt

module _ {ℓ} {B : Type ℓ} where
  infixl 5 ◌>>◌
  abbrev pub ◌>>◌ : Result (Unit {0}) → Result B → Result B
  first >> second = first >>= (λ done. second)

  -- A guard that does not hold is passed.
  pub throw_if-then :
      (b : Bool) (e : Error) (k : Result B) {r : Result B}
      → b ≡ false
      → k ≡ r
      → (throw_if b e >> k) ≡ r
  throw_if-then b e k h g = rw h g

  pub throw_if-eq-ok :
      (b : Bool) (e : Error) (k : Result B) {v : B}
      → (throw_if b e >> k) ≡ ok v
      → (b ≡ false) × (k ≡ ok v)
  throw_if-eq-ok true e k h = cc
  throw_if-eq-ok false e k h = (refl, h)
