-- ===== src/Routes/Matcher.antt =====
-- src/domains/_routes.ts, routeMatchesPattern: the loop with one place to go back to.
use fitz_ts.Base.{
  ℕ, zero, suc, ◌+◌, ◌*◌, List, [], ◌∷◌, Option, some, none, Bool, true, false, ◌&&◌, ◌||◌,
  if◌then◌else◌, length,
}
use fitz_ts.Buffer.Text.{Str}
use fitz_ts.Routes.Segments.{single_wildcard, double_wildcard, str_eq, split_slash, cut_marker}

-- The pattern behind the last `**` that was met, and the segments from `lastDoubleMatch` on.
pub record Saved : Type 0 where
  pub pattern : List Str
  pub segments : List Str

abbrev pub tail : List Str → List Str
tail [] = []
tail (s ∷ segments) = segments

-- `while (patternSegments[patternIndex] === "**") patternIndex++`, and the test behind it.
unfoldable pub only_doubles : List Str → Bool
only_doubles [] = true
only_doubles (x ∷ pattern) = str_eq x double_wildcard && only_doubles pattern

-- Where the loop goes on: the segments, the pattern and the saved place; or its answer.
pub data Round : Type 0 where
  answer : Bool → Round
  goes_on : List Str → List Str → Option Saved → Round

-- `if (lastDoubleWildcard < 0) return false;` and the way back.
unfoldable pub back : Option Saved → Round
back none = answer false
back (some s) = goes_on (tail s.segments) s.pattern (some (record s { segments = tail s.segments }))

unfoldable pub round : List Str → List Str → Option Saved → Round
round [] pattern saved = answer (only_doubles pattern)
round (s ∷ segments) [] saved = back saved
round (s ∷ segments) (x ∷ pattern) saved =
    if str_eq x single_wildcard || str_eq x s
    then goes_on segments pattern saved
    else if str_eq x double_wildcard
    then goes_on (s ∷ segments) pattern
        (some (record { pattern = pattern; segments = s ∷ segments }))
    else back saved

abbrev pub next : (List Str → List Str → Option Saved → Option Bool) → Round → Option Bool
next loop (answer b) = some b
next loop (goes_on segments pattern saved) = loop segments pattern saved

-- The rounds of the loop; `none` means that the fuel ran out.
unfoldable pub match_loop : ℕ → List Str → List Str → Option Saved → Option Bool
match_loop zero segments pattern saved = none
match_loop (suc fuel) segments pattern saved = next (match_loop fuel) (round segments pattern saved)

-- Enough for every way that the loop can take.
abbrev pub match_fuel : List Str → List Str → ℕ
match_fuel segments pattern = length segments * suc (length pattern) + length pattern + 1

unfoldable pub segments_match : List Str → List Str → Option Bool
segments_match segments pattern = match_loop (match_fuel segments pattern) segments pattern none

unfoldable pub same_scheme_match : Option (Str × Str) → Option (Str × Str) → Option Bool
same_scheme_match (some (c ∷ scheme, path)) (some (d ∷ scheme', path')) =
    if str_eq (c ∷ scheme) (d ∷ scheme')
    then segments_match (split_slash path) (split_slash path')
    else some false
same_scheme_match _ _ = some false

unfoldable pub route_matches_pattern : Str → Str → Option Bool
route_matches_pattern route pattern = same_scheme_match (cut_marker route) (cut_marker pattern)
