-- ===== src/Routes/Glob.antt =====
-- What it means that segments match a pattern, and that the loop decides it.
pub mod Suffixes
pub mod Loop
use fitz_ts.Base.{ℕ, List, [], ◌∷◌, Bool, true, false, ◌&&◌, ◌||◌, if◌then◌else◌}
use fitz_ts.Buffer.Text.{Str}
use fitz_ts.Routes.Segments.{single_wildcard, double_wildcard, str_eq}

-- Some rest of the segments satisfies `k`.
unfoldable pub some_rest : (List Str → Bool) → List Str → Bool
some_rest k [] = k []
some_rest k (s ∷ segments) = k (s ∷ segments) || some_rest k segments

-- The first segment fits `x`, and what follows satisfies `k`.
unfoldable pub one_segment : Str → (List Str → Bool) → List Str → Bool
one_segment x k [] = false
one_segment x k (s ∷ segments) = (str_eq x single_wildcard || str_eq x s) && k segments

-- The meaning of a pattern: `**` stands for any number of segments, `*` for one.
unfoldable pub glob : List Str → List Str → Bool
glob [] [] = true
glob [] (s ∷ segments) = false
glob (x ∷ pattern) segments =
    if str_eq x double_wildcard
    then some_rest (glob pattern) segments
    else one_segment x (glob pattern) segments
