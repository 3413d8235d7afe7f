-- ===== src/Routes/Segments.antt =====
-- src/domains/_routes.ts: the parts of a route.
use fitz_ts.Base.{
  ◌≡◌, refl, ◌↔◌, arith, ℕ, List, [], ◌∷◌, ◌++◌, Option, some, none, Bool, true, false, ◌&&◌, ◌==◌,
  if◌then◌else◌,
}
use fitz_ts.Buffer.Text.{Str}

abbrev pub slash : ℕ
slash = b'/'

abbrev pub asterisk : ℕ
asterisk = b'*'

abbrev pub single_wildcard : Str
single_wildcard = asterisk ∷ []

abbrev pub double_wildcard : Str
double_wildcard = asterisk ∷ asterisk ∷ []

-- `===` on strings
unfoldable pub str_eq : Str → Str → Bool
str_eq [] [] = true
str_eq [] (b ∷ ys) = false
str_eq (a ∷ xs) [] = false
str_eq (a ∷ xs) (b ∷ ys) = a == b && str_eq xs ys

-- `split("/")`, with the segment that is being read.
unfoldable pub split_from : Str → Str → List Str
split_from segment [] = segment ∷ []
split_from segment (c ∷ cs) =
    if c == slash then segment ∷ split_from [] cs else split_from (segment ++ c ∷ []) cs

unfoldable pub split_slash : Str → List Str
split_slash = split_from []

-- `startsWith("://")`, and what follows.
unfoldable pub after_marker : Str → Option Str
after_marker (a ∷ b ∷ c ∷ cs) = if a == b':' && (b == slash && c == slash) then some cs else none
after_marker _ = none

-- The parts before and behind the first `://`.
unfoldable pub cut_marker_from : Str → Str → Option (Str × Str)
cut_marker_from scheme [] = none
cut_marker_from scheme (c ∷ cs) =
    let rest = cut_marker_from (scheme ++ c ∷ []) cs in
    elim (after_marker (c ∷ cs)) [ some path ↦ some (scheme, path) | none ↦ rest ]

unfoldable pub cut_marker : Str → Option (Str × Str)
cut_marker = cut_marker_from []

pub str_eq_iff : (s t : Str) → (str_eq s t ≡ true) ↔ (s ≡ t)
unfolding str_eq
str_eq_iff [] [] = (λ e. refl, λ e. refl)
str_eq_iff [] (b ∷ ys) = (λ e. cc, λ e. cc)
str_eq_iff (a ∷ xs) [] = (λ e. cc, λ e. cc)
str_eq_iff (a ∷ xs) (b ∷ ys) = ground (arith, str_eq_iff xs ys)
