-- ===== src/Tests/Matching.antt =====
-- Routes and patterns on small inputs.
use fitz_ts.Base.{◌≡◌, refl, arith, List, [], ◌∷◌, some, true, leb, ◌==◌, ◌&&◌, ◌||◌, length, All}
use fitz_ts.Buffer.Text.{Str}
use fitz_ts.Routes.Segments.{str_eq, split_slash}
use fitz_ts.Routes.Matcher.{segments_match}
use fitz_ts.Routes.Glob.{glob}
use fitz_ts.Routes.Glob.Loop.{IsPlain, segments_match-glob}
use fitz_ts.Routes.Size.{max_wire_bytes, wire_size_is_valid}
use fitz_ts.Routes.Size.Utf8Length.{utf8_length, wire_size_is_valid-utf8_length}
use fitz_ts.Routes.Shape.{contains_asterisk, scan_concrete_from, scan_concrete}
use fitz_ts.Routes.Shape.Concrete.{all_concrete, scan_concrete-split, segments_match_concrete}

-- "a/b/c", and the pattern of the segments "**" and "c".
abbrev path : Str
path = 97 ∷ 47 ∷ 98 ∷ 47 ∷ 99 ∷ []

abbrev segments : List Str
segments = (97 ∷ []) ∷ (98 ∷ []) ∷ (99 ∷ []) ∷ []

abbrev pattern : List Str
pattern = (42 ∷ 42 ∷ []) ∷ (99 ∷ []) ∷ []

segments-IsPlain : All IsPlain segments
unfolding str_eq
segments-IsPlain = (refl, (refl, (refl, tt)))

path_concrete : scan_concrete path 3 ≡ true
unfolding scan_concrete scan_concrete_from contains_asterisk
path_concrete = refl

segments_match-glob_example : segments_match segments pattern ≡ some (glob pattern segments)
segments_match-glob_example = segments_match-glob segments pattern segments-IsPlain

wire_size_is_valid-utf8_length_example :
    wire_size_is_valid (0x20ac ∷ 0xd83d ∷ 0xde00 ∷ [])
    ≡ leb (utf8_length (0x20ac ∷ 0xd83d ∷ 0xde00 ∷ [])) max_wire_bytes
wire_size_is_valid-utf8_length_example =
    wire_size_is_valid-utf8_length (0x20ac ∷ 0xd83d ∷ 0xde00 ∷ []) (ground arith)

scan_concrete-split_example :
    scan_concrete path 3
    ≡ (all_concrete (split_slash path) && (3 == 0 || length (split_slash path) == 3))
scan_concrete-split_example = scan_concrete-split path 3

segments_match_concrete_run :
    segments_match (split_slash path) pattern ≡ some (glob pattern (split_slash path))
segments_match_concrete_run = segments_match_concrete path 3 pattern path_concrete
