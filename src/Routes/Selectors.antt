-- ===== src/Routes/Selectors.antt =====
-- src/domains/_routes.ts: the scope of a stream's selector.
use fitz_ts.Base.{
  List, [], ◌∷◌, Option, some, none, Bool, true, false, ◌&&◌, ◌||◌, not, ◌==◌, ltb, if◌then◌else◌,
  length,
}
use fitz_ts.Buffer.Text.{Utf8, Str}
use fitz_ts.Routes.Segments.{str_eq, split_slash, single_wildcard, double_wildcard}
use fitz_ts.Routes.Shape.{contains_asterisk, path_start}

pub data StreamSelectorScope : Type 0 where
  resource_scope area_scope realm_scope global_scope : StreamSelectorScope

-- "stream"
abbrev pub stream_scheme : Str
stream_scheme = 115 ∷ 116 ∷ 114 ∷ 101 ∷ 97 ∷ 109 ∷ []

-- "stream://**"
abbrev pub everything : Str
everything = 115 ∷ 116 ∷ 114 ∷ 101 ∷ 97 ∷ 109 ∷ 58 ∷ 47 ∷ 47 ∷ 42 ∷ 42 ∷ []

abbrev pub literal_or_wild : Str → Bool
literal_or_wild segment = not (contains_asterisk segment) || str_eq segment single_wildcard

-- The scope of three segments that are admitted.
abbrev pub widest : Str → Str → Str → StreamSelectorScope
widest realm area resource =
    if str_eq realm single_wildcard
    then global_scope
    else if str_eq area single_wildcard
    then realm_scope
    else if str_eq resource single_wildcard
    then area_scope
    else resource_scope

unfoldable pub scope_of_segments : List Str → Option StreamSelectorScope
scope_of_segments (realm ∷ rest ∷ []) =
    if str_eq rest double_wildcard
      && (not (str_eq realm single_wildcard) && not (contains_asterisk realm))
    then some realm_scope
    else none
scope_of_segments (realm ∷ area ∷ resource ∷ []) =
    if length realm == 0 || (length area == 0 || length resource == 0)
    then none
    else if not (literal_or_wild realm && (literal_or_wild area && literal_or_wild resource))
    then none
    else some (widest realm area resource)
scope_of_segments _ = none

abbrev pub is_some : {A : Type 0} → Option A → Bool
is_some none = false
is_some (some a) = true

abbrev pub is_global : Option StreamSelectorScope → Bool
is_global (some global_scope) = true
is_global _ = false

module _ ⦃u : Utf8⦄ where
  open u use {encode}

  abbrev pub scope_of_path : Str → Option Str → Option StreamSelectorScope
  scope_of_path route none = none
  scope_of_path route (some path) =
      if ltb 4096 (length (encode route))
      then none
      else if str_eq route everything
      then some global_scope
      else scope_of_segments (split_slash path)

  unfoldable pub classify_stream_selector_scope : Str → Option StreamSelectorScope
  classify_stream_selector_scope route = scope_of_path route (path_start route stream_scheme false)

  unfoldable pub is_stream_selector_shape : Str → Bool
  is_stream_selector_shape route = is_some (classify_stream_selector_scope route)

  unfoldable pub is_global_selector : Str → Bool
  is_global_selector selector = is_global (classify_stream_selector_scope selector)
