-- ===== src/Routes/Glob/Loop.antt =====
-- The loop with one place to go back to decides the meaning of a pattern.
use fitz_ts.Base.{
  ℕ, zero, suc, ◌+◌, ◌-◌, ◌*◌, List, [], ◌∷◌, Bool, true, false, ◌||◌, ◌≡◌, ◌≤◌, ◌<◌, refl, sym, ap,
  ◌∙◌, arith, length, Bool-cases, inl, inr, Option, some, none, All,
}
use fitz_ts.Buffer.Text.{Str}
use fitz_ts.Routes.Segments.{single_wildcard, double_wildcard, str_eq, str_eq_iff}
use fitz_ts.Routes.Matcher.{
  Saved, tail, only_doubles, back, next, round, match_loop, match_fuel, segments_match,
}
use fitz_ts.Routes.Glob.{some_rest, one_segment, glob}
use fitz_ts.Routes.Glob.Suffixes.{
  Suffix, later, Suffix-trans, Suffix-tail, tail-Suffix, some_rest-tail, Suffix-of_nil,
  some_rest_elim, some_rest_mono,
}

-- The segment is not itself `**`.
abbrev pub IsPlain : Str → Type 0
IsPlain s = str_eq s double_wildcard ≡ false

-- Whether going back to the saved place succeeds.
abbrev fallback : Option Saved → Bool
fallback none = false
fallback (some s) = some_rest (glob s.pattern) (tail s.segments)

-- A match from the saved place is also one from here, with fewer segments.
abbrev Covers : List Str → List Str → Saved → Type 0
Covers r p s =
    (m : List Str)
    → Suffix m (tail s.segments)
    → glob s.pattern m ≡ true
    → (r' : List Str) × Suffix r' r × (glob p r' ≡ true)

-- `size` bounds the segments that the loop can still come to, `width` the pattern.
abbrev Inv : ℕ → ℕ → List Str → List Str → Option Saved → Type 0
Inv width size r p none = length r ≤ size
Inv width size r p (some s) =
    (length r ≤ length s.segments)
    × (length s.segments ≤ size)
    × (length s.pattern ≤ width)
    × All IsPlain s.segments
    × Covers r p s

abbrev Right : ℕ → ℕ → Type 0
Right width fuel =
    (size : ℕ) (r p : List Str) (saved : Option Saved)
    → length p ≤ width
    → All IsPlain r
    → Inv width size r p saved
    → size * suc width + length p < fuel
    → match_loop fuel r p saved ≡ some (glob p r || fallback saved)

only_doubles-glob : (p : List Str) → only_doubles p ≡ glob p []
unfolding only_doubles glob some_rest one_segment
only_doubles-glob [] = refl
only_doubles-glob (x ∷ p) = ground (arith, only_doubles-glob p)

-- A match from the saved place adds nothing once the rest is empty.
fallback_end :
    (width size : ℕ) (p : List Str) (saved : Option Saved)
    → Inv width size [] p saved
    → (glob p [] || fallback saved) ≡ glob p []
fallback_end width size p none h = ground arith
fallback_end width size p (some s) h = elim (Bool-cases (fallback (some s))) [
  | inl e ↦
      let (m, sm, em) = some_rest_elim (glob s.pattern) (tail s.segments) e in
      let (r', sr, er) = h.4 m sm em in
      let here : glob p [] ≡ true = rw (Suffix-of_nil sr) at er in rw here
  | inr e ↦ rw e (ground arith)
]

-- The first of several doubles can stand for whatever an earlier one would.
fallback_double :
    (width size : ℕ) (x : Str) (r p : List Str) (saved : Option Saved)
    → str_eq x double_wildcard ≡ true
    → Inv width size r (x ∷ p) saved
    → (some_rest (glob p) r || fallback saved) ≡ some_rest (glob p) r
unfolding glob
fallback_double width size x r p none d h = ground arith
fallback_double width size x r p (some s) d h = elim (Bool-cases (fallback (some s))) [
  | inl e ↦
      let (m, sm, em) = some_rest_elim (glob s.pattern) (tail s.segments) e in
      let (r', sr, er) = h.4 m sm em in
      let here : some_rest (glob p) r ≡ true = some_rest_mono (glob p) r sr (rw d at er) in rw here
  | inr e ↦ rw e (ground arith)
]

glob-tail :
    (x : Str) (p r : List Str)
    → str_eq x double_wildcard ≡ false
    → glob (x ∷ p) r ≡ true
    → glob p (tail r) ≡ true
unfolding glob one_segment
glob-tail x p [] d e = ground arith
glob-tail x p (s ∷ r) d e = ground arith

-- A segment that fits keeps the invariant.
Inv-tail :
    (width size : ℕ) (x s : Str) (r p : List Str) (saved : Option Saved)
    → str_eq x double_wildcard ≡ false
    → Inv width size (s ∷ r) (x ∷ p) saved
    → Inv width size r p saved
Inv-tail width size x s r p none d h = omega arith
Inv-tail width size x s r p (some v) d h = (
  omega arith,
  h.1,
  h.2,
  h.3,
  λ m sm em. let (r', sr, er) = h.4 m sm em in (tail r', Suffix-tail sr, glob-tail x p r' d er),
)

length-tail : (xs : List Str) → length (tail xs) ≡ length xs - 1
length-tail [] = omega arith
length-tail (x ∷ xs) = omega arith

All-tail : (xs : List Str) → All IsPlain xs → All IsPlain (tail xs)
All-tail [] h = tt
All-tail (x ∷ xs) h = h.1

fuel_left :
    (size width n fuel : ℕ)
    → size * suc width < suc fuel
    → 0 < size
    → n ≤ width
    → (size - 1) * suc width + n < fuel
fuel_left zero width n fuel h pos le = absurd (omega arith)
fuel_left (suc size) width n fuel h pos le = grind arith

-- Going back tries the rests behind the saved place.
back_step :
    (width fuel : ℕ)
    → Right width fuel
    → (size : ℕ) (s : Str) (r p : List Str) (saved : Option Saved) → Inv width size (s ∷ r) p saved
    → size * suc width < suc fuel
    → next (match_loop fuel) (back saved) ≡ some (fallback saved)
unfolding back
back_step width fuel ih size s r p none h f = refl
back_step width fuel ih size s r p (some v) h f =
    ih (size - 1) (tail v.segments) v.pattern (some (record v { segments = tail v.segments })) h.2
      (All-tail v.segments h.3)
      (
        omega arith,
        omega (arith, length-tail v.segments),
        h.2,
        All-tail v.segments h.3,
        λ m sm em. (m, Suffix-trans sm (tail-Suffix (tail v.segments)), em),
      )
      (fuel_left size width (length v.pattern) fuel f (omega arith) h.2)
    ∙ ap some (some_rest-tail (glob v.pattern) (tail v.segments))

abbrev fits : Str → Str → Bool
fits x s = str_eq x single_wildcard || str_eq x s

glob_nil : (s : Str) (r : List Str) → glob [] (s ∷ r) ≡ false
unfolding glob
glob_nil s r = refl

-- A segment that is not `**` itself is not taken for the wildcard.
fits-IsPlain : (x s : Str) → fits x s ≡ true → IsPlain s → IsPlain x
unfolding str_eq
fits-IsPlain x s f h =
    ground (arith, str_eq_iff x double_wildcard, str_eq_iff x s, str_eq_iff s double_wildcard)

glob-fits :
    (x s : Str) (p r : List Str) → IsPlain x → fits x s ≡ true → glob (x ∷ p) (s ∷ r) ≡ glob p r
unfolding glob one_segment
glob-fits x s p r h f = rw (h, f)

glob_unfit :
    (x s : Str) (p r : List Str) → IsPlain x → fits x s ≡ false → glob (x ∷ p) (s ∷ r) ≡ false
unfolding glob one_segment
glob_unfit x s p r h f = rw (h, f)

glob_double :
    (x : Str) (p r : List Str)
    → str_eq x double_wildcard ≡ true
    → glob (x ∷ p) r ≡ some_rest (glob p) r
unfolding glob
glob_double x p r d = rw d

Inv-size :
    (width size : ℕ) (r p : List Str) (saved : Option Saved)
    → Inv width size r p saved
    → length r ≤ size
Inv-size width size r p none h = h
Inv-size width size r p (some v) h = omega arith

-- One round, with what the later rounds do.
round_step : (width fuel : ℕ) → Right width fuel → Right width (suc fuel)
unfolding match_loop round
round_step width fuel ih size [] p saved w h v f =
    ap some (only_doubles-glob p ∙ sym (fallback_end width size p saved v))
round_step width fuel ih size (s ∷ r) [] saved w h v f =
    back_step width fuel ih size s r [] saved v (omega arith)
    ∙ ap (λ b. some (b || fallback saved)) (sym (glob_nil s r))
round_step width fuel ih size (s ∷ r) (x ∷ p) saved w h v f = elim (Bool-cases (fits x s)) [
  | inl fit ↦
      let plain = fits-IsPlain x s fit h.0 in
      rw (fit, glob-fits x s p r plain fit)
        (ih size r p saved (omega arith) h.1 (Inv-tail width size x s r p saved plain v)
          (omega arith))
  | inr unfit ↦ elim (Bool-cases (str_eq x double_wildcard)) [
    | inl double ↦
        rw (unfit, double, glob_double x p (s ∷ r) double)
          (ih size (s ∷ r) p (some (record { pattern = p; segments = s ∷ r })) (omega arith) h
              (
                omega arith,
                Inv-size width size (s ∷ r) (x ∷ p) saved v,
                omega arith,
                h,
                λ m sm em. (m, later sm, em),
              )
              (omega arith)
            ∙ ap some (some_rest-tail (glob p) (s ∷ r))
            ∙ ap some (sym (fallback_double width size x (s ∷ r) p saved double v)))
    | inr plain ↦
        rw (unfit, plain, glob_unfit x s p r plain unfit)
          (back_step width fuel ih size s r (x ∷ p) saved v (omega arith))
  ]
]

or_false : (b : Bool) → (b || false) ≡ b
or_false true = refl
or_false false = refl

match_loop-Right : (width fuel : ℕ) → Right width fuel
match_loop-Right width zero = λ size r p saved w h v f. absurd (omega arith)
match_loop-Right width (suc fuel) = round_step width fuel (match_loop-Right width fuel)

-- On a route with no segment `**` the loop ends with an answer, and the answer is the meaning of
-- the pattern.
pub segments_match-glob :
    (segments pattern : List Str)
    → All IsPlain segments
    → segments_match segments pattern ≡ some (glob pattern segments)
unfolding segments_match
segments_match-glob segments pattern h =
    match_loop-Right (length pattern) (match_fuel segments pattern) (length segments) segments
      pattern none (omega arith) h (omega arith) (omega arith)
    ∙ ap some (or_false (glob pattern segments))
