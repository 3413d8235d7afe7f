-- ===== src/Routes/Registration.antt =====
-- src/domains/_routes.ts, isRegistrationPatternShape: which patterns may be registered. The scan keeps
-- the segment that it is reading, in place of its start.
use fitz_ts.Base.{
  ℕ, ◌+◌, ◌-◌, ◌≡◌, refl, sym, ◌∙◌, List, [], ◌∷◌, ◌++◌, length, Option, some, none, Bool, true,
  false, not, ◌&&◌, ◌==◌, leb, if◌then◌else◌, Bool-cases, inl, inr,
}
use fitz_ts.Buffer.Text.{Str}
use fitz_ts.Routes.Segments.{slash, str_eq, split_from, single_wildcard, double_wildcard}
use fitz_ts.Routes.Shape.{contains_asterisk, path_start}

pub record SegmentCounts : Type 0 where
  pub segment_count : ℕ
  pub double_wildcard_count : ℕ
  pub previous_was_double : Bool

-- The loop's body at the end of a segment; `none` is its `return false`.
unfoldable pub count_segment : Str → SegmentCounts → Option SegmentCounts
count_segment segment c =
    let single = str_eq segment single_wildcard in
    let double = str_eq segment double_wildcard in
    if length segment == 0
    then none
    else if not single && (not double && contains_asterisk segment)
    then none
    else if double && c.previous_was_double
    then none
    else some (record {
      segment_count = c.segment_count + 1;
      double_wildcard_count = c.double_wildcard_count + (if double then 1 else 0);
      previous_was_double = double;
    })

unfoldable pub scan_pattern_from : Str → Option SegmentCounts → Str → Option SegmentCounts
scan_pattern_from segment none cs = none
scan_pattern_from segment (some c) [] = count_segment segment c
scan_pattern_from segment (some c) (b ∷ cs) =
    let cut = b == slash in
    scan_pattern_from (if cut then [] else segment ++ b ∷ [])
      (if cut then count_segment segment c else some c) cs

abbrev pub no_segments : SegmentCounts
no_segments = record { segment_count = 0; double_wildcard_count = 0; previous_was_double = false }

abbrev pub admits : ℕ → Option SegmentCounts → Bool
admits required_segments none = false
admits required_segments (some c) =
    if required_segments == 0
    then true
    else if c.double_wildcard_count == 0
    then c.segment_count == required_segments
    else leb (c.segment_count - c.double_wildcard_count) required_segments

abbrev pub scan_registration : ℕ → Option Str → Bool
scan_registration required_segments none = false
scan_registration required_segments (some path) =
    admits required_segments (scan_pattern_from [] (some no_segments) path)

unfoldable pub is_registration_pattern_shape : Str → Str → ℕ → Bool
is_registration_pattern_shape route scheme required_segments =
    scan_registration required_segments (path_start route scheme false)

-- The segments one after the other.
unfoldable pub count_segments : List Str → Option SegmentCounts → Option SegmentCounts
count_segments [] c = c
count_segments (segment ∷ segments) none = none
count_segments (segment ∷ segments) (some c) = count_segments segments (count_segment segment c)

none-stays : (segments : List Str) → count_segments segments none ≡ none
unfolding count_segments
none-stays [] = refl
none-stays (segment ∷ segments) = refl

scan_none : (segment cs : Str) → scan_pattern_from segment none cs ≡ none
unfolding scan_pattern_from
scan_none segment cs = refl

scan_last :
    (segment : Str) (c : SegmentCounts)
    → scan_pattern_from segment (some c) [] ≡ count_segment segment c
unfolding scan_pattern_from
scan_last segment c = refl

scan_unit :
    (segment : Str) (c : SegmentCounts) (b : ℕ) (cs : Str)
    → scan_pattern_from segment (some c) (b ∷ cs)
      ≡ scan_pattern_from
          (if b == slash then [] else segment ++ b ∷ [])
          (if b == slash then count_segment segment c else some c)
          cs
unfolding scan_pattern_from
scan_unit segment c b cs = refl

-- The scan of a pattern's path counts the segments of its split at the slashes, one after the other,
-- and stops at the first one that is not admitted.
pub scan_pattern_from-split_from :
    (segment : Str) (c : Option SegmentCounts) (cs : Str)
    → scan_pattern_from segment c cs ≡ count_segments (split_from segment cs) c
unfolding count_segments split_from
scan_pattern_from-split_from segment none cs =
    scan_none segment cs ∙ sym (none-stays (split_from segment cs))
scan_pattern_from-split_from segment (some c) [] = scan_last segment c
scan_pattern_from-split_from segment (some c) (b ∷ cs) = elim (Bool-cases (b == slash)) [
  | inl cut ↦
      rw (scan_unit segment c b cs, cut)
        (scan_pattern_from-split_from [] (count_segment segment c) cs)
  | inr more ↦
      rw (scan_unit segment c b cs, more)
        (scan_pattern_from-split_from (segment ++ b ∷ []) (some c) cs)
]
