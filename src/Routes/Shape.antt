-- ===== src/Routes/Shape.antt =====
-- src/domains/_routes.ts: which routes and patterns have an admitted shape. `pathStart` returns what
-- follows the start, not its index, and a scan keeps the segment that it is reading.
pub mod Concrete
use fitz_ts.Base.{
  ℕ, suc, ◌+◌, ◌-◌, List, [], ◌∷◌, ◌++◌, Option, some, none, Bool, true, false, ◌&&◌, ◌||◌, not,
  ◌==◌, leb, ltb, if◌then◌else◌, length,
}
use fitz_ts.Buffer.Text.{Str}
use fitz_ts.Routes.Segments.{
  slash, asterisk, str_eq, after_marker, cut_marker, single_wildcard, double_wildcard,
}
use fitz_ts.Routes.Size.{wire_size_is_valid}

unfoldable pub contains_asterisk : Str → Bool
contains_asterisk [] = false
contains_asterisk (c ∷ cs) = c == asterisk || contains_asterisk cs

-- `index === segmentStart || containsAsterisk(route, segmentStart, index)`
abbrev pub not_concrete : Str → Bool
not_concrete segment = length segment == 0 || contains_asterisk segment

-- The loop of `scanConcrete`; `none` is its `return false`.
unfoldable pub scan_concrete_from : Str → ℕ → Str → Option ℕ
scan_concrete_from segment count [] = if not_concrete segment then none else some (count + 1)
scan_concrete_from segment count (c ∷ cs) =
    let rest = scan_concrete_from [] (count + 1) cs in
    let longer = scan_concrete_from (segment ++ c ∷ []) count cs in
    if c == slash then if not_concrete segment then none else rest else longer

abbrev pub count_fits : ℕ → Option ℕ → Bool
count_fits expected none = false
count_fits expected (some count) = ltb 0 count && (expected == 0 || count == expected)

unfoldable pub scan_concrete : Str → ℕ → Bool
scan_concrete path expected_segments = count_fits expected_segments (scan_concrete_from [] 0 path)

-- `startsWith`, with what follows.
unfoldable pub strip_prefix : Str → Str → Option Str
strip_prefix [] s = some s
strip_prefix (a ∷ xs) [] = none
strip_prefix (a ∷ xs) (b ∷ ys) = let rest = strip_prefix xs ys in if a == b then rest else none

abbrev pub marker : Str
marker = b':' ∷ slash ∷ slash ∷ []

abbrev pub bare_path : Bool → Str → Option (Str × Str) → Option Str
bare_path true (c ∷ cs) none = some (c ∷ cs)
bare_path _ _ _ = none

abbrev pub scheme_path : Option Str → Option Str → Option Str
scheme_path (some (c ∷ path)) bare = some (c ∷ path)
scheme_path _ bare = bare

unfoldable pub path_start : Str → Str → Bool → Option Str
path_start route scheme allow_bare =
    if not (wire_size_is_valid route)
    then none
    else scheme_path (strip_prefix (scheme ++ marker) route)
        (bare_path allow_bare route (cut_marker route))

abbrev pub scan_path : Option Str → ℕ → Bool
scan_path none expected_segments = false
scan_path (some path) expected_segments = scan_concrete path expected_segments

unfoldable pub is_route_shape : Str → Str → ℕ → Bool → Bool
is_route_shape route scheme segment_count allow_bare_route =
    scan_path (path_start route scheme allow_bare_route) segment_count

unfoldable pub is_concrete_route_shape : Str → Str → Bool
is_concrete_route_shape route scheme = scan_path (path_start route scheme false) 0
