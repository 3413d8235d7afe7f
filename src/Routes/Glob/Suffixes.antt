-- ===== src/Routes/Glob/Suffixes.antt =====
-- Rests of a list of segments.
use fitz_ts.Base.{List, [], ◌∷◌, Bool, true, ◌||◌, ◌≡◌, refl, arith, Bool-cases, inl, inr, ◌⊎◌}
use fitz_ts.Buffer.Text.{Str}
use fitz_ts.Routes.Matcher.{tail}
use fitz_ts.Routes.Glob.{some_rest}

pub data Suffix (xs : List Str) : List Str → Type 0 where
  whole : Suffix xs xs
  later : {y : Str} {ys : List Str} → Suffix xs ys → Suffix xs (y ∷ ys)

pub Suffix-trans : {xs ys zs : List Str} → Suffix xs ys → Suffix ys zs → Suffix xs zs
Suffix-trans a whole = a
Suffix-trans a (later b) = later (Suffix-trans a b)

pub tail-Suffix : (xs : List Str) → Suffix (tail xs) xs
tail-Suffix [] = whole
tail-Suffix (x ∷ xs) = later whole

pub Suffix-tail : {xs ys : List Str} → Suffix xs ys → Suffix (tail xs) (tail ys)
Suffix-tail whole = whole
Suffix-tail {xs} (later h) = Suffix-trans (tail-Suffix xs) h

Suffix-nil : {xs ys : List Str} → Suffix xs ys → ys ≡ [] → xs ≡ []
Suffix-nil whole e = e
Suffix-nil (later h) e = cc

pub Suffix-of_nil : {xs : List Str} → Suffix xs [] → xs ≡ []
Suffix-of_nil h = Suffix-nil h refl

pub Suffix-cases :
    {xs : List Str} {y : Str} {ys : List Str} → Suffix xs (y ∷ ys) → (xs ≡ y ∷ ys) ⊎ Suffix xs ys
Suffix-cases whole = inl refl
Suffix-cases (later h) = inr h

some_rest_here : (k : List Str → Bool) (ys : List Str) → k ys ≡ true → some_rest k ys ≡ true
unfolding some_rest
some_rest_here k [] e = e
some_rest_here k (y ∷ ys) e = ground arith

pub some_rest_intro :
    (k : List Str → Bool) {xs ys : List Str} → Suffix xs ys → k xs ≡ true → some_rest k ys ≡ true
unfolding some_rest
some_rest_intro k {ys} whole e = some_rest_here k ys e
some_rest_intro k (later h) e = ground (arith, some_rest_intro k h e)

pub some_rest_elim :
    (k : List Str → Bool) (ys : List Str)
    → some_rest k ys ≡ true
    → (xs : List Str) × Suffix xs ys × (k xs ≡ true)
unfolding some_rest
some_rest_elim k [] e = ([], whole, e)
some_rest_elim k (y ∷ ys) e = elim (Bool-cases (k (y ∷ ys))) [
  | inl h ↦ (y ∷ ys, whole, h)
  | inr h ↦ let (xs, s, f) = some_rest_elim k ys (rw h at e) in (xs, later s, f)
]

-- A rest of a rest.
pub some_rest_mono :
    (k : List Str → Bool) {xs : List Str} (ys : List Str)
    → Suffix xs ys
    → some_rest k xs ≡ true
    → some_rest k ys ≡ true
some_rest_mono k {xs} ys h e =
    let (zs, s, f) = some_rest_elim k xs e in some_rest_intro k (Suffix-trans s h) f

pub some_rest-tail :
    (k : List Str → Bool) (ys : List Str) → (k ys || some_rest k (tail ys)) ≡ some_rest k ys
unfolding some_rest
some_rest-tail k [] = ground arith
some_rest-tail k (y ∷ ys) = refl
