-- ===== src/Routes/Shape/Concrete.antt =====
-- A concrete route is one whose segments all are, and on it the matcher decides every pattern.
use fitz_ts.Base.{
  ℕ, suc, ◌+◌, ◌≡◌, refl, ap, sym, ◌∙◌, List, [], ◌∷◌, ◌++◌, some, none, Bool, true, false, ◌&&◌,
  ◌||◌, not, ◌==◌, ltb, if◌then◌else◌, length, All, arith, Bool-cases, inl, inr,
}
use fitz_ts.Buffer.Text.{Str}
use fitz_ts.Routes.Segments.{slash, str_eq, split_from, split_slash}
use fitz_ts.Routes.Matcher.{segments_match}
use fitz_ts.Routes.Glob.{glob}
use fitz_ts.Routes.Glob.Loop.{IsPlain, segments_match-glob}
use fitz_ts.Routes.Shape.{
  contains_asterisk, not_concrete, scan_concrete_from, scan_concrete, count_fits,
}

-- No segment is empty or has an asterisk.
unfoldable pub all_concrete : List Str → Bool
all_concrete [] = true
all_concrete (s ∷ segments) = not (not_concrete s) && all_concrete segments

scan_concrete_from-split :
    (segment : Str) (count : ℕ) (cs : Str)
    → scan_concrete_from segment count cs ≡ (
        if all_concrete (split_from segment cs)
        then some (count + length (split_from segment cs))
        else none)
unfolding scan_concrete_from split_from all_concrete
scan_concrete_from-split segment count [] = elim (Bool-cases (not_concrete segment)) [
  | inl e ↦ rw e
  | inr e ↦ rw e
]
scan_concrete_from-split segment count (c ∷ cs) = elim (Bool-cases (c == slash)) [
  | inl cut ↦ elim (Bool-cases (not_concrete segment)) [
    | inl e ↦ rw (cut, e)
    | inr e ↦
        let sum : (count + 1) + length (split_from [] cs)
            ≡ count + suc (length (split_from [] cs)) =
          omega arith in
        rw (cut, e, scan_concrete_from-split [] (count + 1) cs, sum)
  ]
  | inr more ↦ rw (more, scan_concrete_from-split (segment ++ c ∷ []) count cs)
]

split_from_pos : (segment cs : Str) → ltb 0 (length (split_from segment cs)) ≡ true
unfolding split_from
split_from_pos segment [] = refl
split_from_pos segment (c ∷ cs) = elim (Bool-cases (c == slash)) [
  | inl cut ↦ rw cut (ground arith)
  | inr more ↦ rw more (split_from_pos (segment ++ c ∷ []) cs)
]

counted :
    (all : Bool) (n expected : ℕ)
    → ltb 0 n ≡ true
    → count_fits expected (if all then some (0 + n) else none)
      ≡ (all && (expected == 0 || n == expected))
counted false n expected h = refl
counted true n expected h = let e : 0 + n ≡ n = omega arith in rw (e, h)

-- `scanConcrete` admits a path exactly when all its segments are concrete and, unless the expected
-- number is 0, there are as many as expected.
pub scan_concrete-split :
    (path : Str) (expected : ℕ)
    → scan_concrete path expected ≡ (
        all_concrete (split_slash path) && (expected == 0 || length (split_slash path) == expected))
unfolding scan_concrete split_slash
scan_concrete-split path expected =
    ap (count_fits expected) (scan_concrete_from-split [] 0 path)
    ∙ counted (all_concrete (split_from [] path)) (length (split_from [] path)) expected
        (split_from_pos [] path)

not_concrete-IsPlain : (s : Str) → not_concrete s ≡ false → IsPlain s
unfolding contains_asterisk str_eq
not_concrete-IsPlain [] h = refl
not_concrete-IsPlain (c ∷ cs) h = ground arith

all_concrete-IsPlain : (segments : List Str) → all_concrete segments ≡ true → All IsPlain segments
unfolding all_concrete
all_concrete-IsPlain [] h = tt
all_concrete-IsPlain (s ∷ segments) h = elim (Bool-cases (not_concrete s)) [
  | inl e ↦ cc (rw e at h)
  | inr e ↦ (not_concrete-IsPlain s e, all_concrete-IsPlain segments (rw e at h))
]

-- On an admitted path the matcher answers, for every pattern, what the pattern means.
pub segments_match_concrete :
    (path : Str) (expected : ℕ) (pattern : List Str)
    → scan_concrete path expected ≡ true
    → segments_match (split_slash path) pattern ≡ some (glob pattern (split_slash path))
segments_match_concrete path expected pattern h = segments_match-glob (split_slash path) pattern (
    all_concrete-IsPlain (split_slash path)
      (first (all_concrete (split_slash path)) _ (sym (scan_concrete-split path expected) ∙ h)))
  where
    first : (a b : Bool) → (a && b) ≡ true → a ≡ true
    first true b e = refl
    first false b e = e
