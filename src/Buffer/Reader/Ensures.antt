-- ===== src/Buffer/Reader/Ensures.antt =====
-- What holds of every value that a reader can return, whatever the array.
use fitz_ts.Base.{◌≡◌, refl, Bool, true, false, Result, ok, err, Error}
use fitz_ts.Buffer.Reader.{Reader, Read, ◌>>=◌, throw_if}

-- A value that a result has, if it has one.
abbrev pub Holds : {A : Type 0} → (A → Type 0) → Result (A × Reader) → Type 0
Holds P (ok (a, r)) = P a
Holds P (err e) = Unit {0}

-- Whatever a reader returns has a property.
abbrev pub Ensures : {A : Type 0} → (A → Type 0) → Read A → Type 0
Ensures P m = (r : Reader) → Holds P (m r)

pub Ensures->>= :
    {A B : Type 0} (P : A → Type 0) (Q : B → Type 0) (m : Read A) (f : A → Read B)
    → Ensures P m
    → ((a : A) → P a → Ensures Q (f a))
    → Ensures Q (m >>= f)
Ensures->>= {A} {B} P Q m f h k r = go (m r) (h r)
  where
    go :
        (x : Result (A × Reader))
        → Holds P x
        → Holds Q (elim x as (λ _. Result (B × Reader)) [ ok (a, r') ↦ f a r' | err e ↦ err e ])
    go (ok (a, r')) p = k a p r'
    go (err e) p = tt

pub Ensures-any : {A : Type 0} (m : Read A) → Ensures (λ _. Unit {0}) m
Ensures-any {A} m r = go (m r)
  where
    go : (x : Result (A × Reader)) → Holds (λ _. Unit {0}) x
    go (ok (a, r')) = tt
    go (err e) = tt

pub Ensures-throw_if : (b : Bool) (e : Error) → Ensures (λ _. b ≡ false) (throw_if b e)
Ensures-throw_if true e r = tt
Ensures-throw_if false e r = refl

-- What the rest ensures for every value.
pub Ensures-after :
    {A B : Type 0} (Q : B → Type 0) (m : Read A) (f : A → Read B)
    → ((a : A) → Ensures Q (f a))
    → Ensures Q (m >>= f)
Ensures-after Q m f k = Ensures->>= (λ _. Unit {0}) Q m f (Ensures-any m) (λ a _. k a)
