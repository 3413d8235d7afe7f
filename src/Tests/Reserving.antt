-- ===== src/Tests/Reserving.antt =====
-- A reservation of one lease under a wildcard.
use fitz_ts.Base.{◌≡◌, refl, List, [], ◌∷◌, ◌++◌, All, Option, some, ok}
use fitz_ts.Bytes.{Bytes, be}
use fitz_ts.Buffer.Text.{Str}
use fitz_ts.Domains.Queue.{QueueItem, reserved, queue_scheme, decode_reserve_response}
use fitz_ts.Domains.Queue.Reserve.{Fits, decode_reserve_response-Fits}
use fitz_ts.Tests.Ascii.{ascii}

-- "queue://a/b/c"
abbrev route : Str
route = queue_scheme ++ (58 ∷ 47 ∷ 47 ∷ 97 ∷ 47 ∷ 98 ∷ 47 ∷ 99 ∷ [])

-- "queue://a/*/c"
abbrev selector : Option Str
selector = some (queue_scheme ++ (58 ∷ 47 ∷ 47 ∷ 97 ∷ 47 ∷ 42 ∷ 47 ∷ 99 ∷ []))

abbrev payload : Bytes
payload = 0 ∷ (be 4 1 ++ (be 4 13 ++ (route ++ (be 8 6 ++ (be 8 7 ++ (be 4 2 ++ (1 ∷ 2 ∷ [])))))))

abbrev leases : List QueueItem
leases = record { route = route; id = 6; token = 7; body = 1 ∷ 2 ∷ [] } ∷ []

decode_leases : decode_reserve_response payload selector ≡ ok (reserved leases)
unfolding decode_reserve_response fitz_ts.Response.parse_standard_response
    fitz_ts.Response.read_response fitz_ts.Buffer.Reader.read_u8 fitz_ts.Domains.Queue.read_reserved
    fitz_ts.Buffer.Reader.is_eof fitz_ts.Buffer.Reader.remaining
    fitz_ts.Buffer.Reader.remaining_bytes fitz_ts.Domains.Queue.read_counted
    fitz_ts.Buffer.Reader.read_uint fitz_ts.Domains.Queue.read_items fitz_ts.Domains.Queue.read_item
    fitz_ts.Routes.Shape.contains_asterisk fitz_ts.Buffer.Reader.read_string
    fitz_ts.Buffer.Reader.read_slice fitz_ts.Domains.Queue.check_route
    fitz_ts.Routes.Shape.is_route_shape fitz_ts.Routes.Shape.path_start
    fitz_ts.Domains.Queue.read_lease fitz_ts.Routes.Matcher.back fitz_ts.Routes.Matcher.match_loop
    fitz_ts.Routes.Matcher.only_doubles fitz_ts.Routes.Matcher.round
    fitz_ts.Routes.Matcher.route_matches_pattern fitz_ts.Routes.Matcher.same_scheme_match
    fitz_ts.Routes.Matcher.segments_match fitz_ts.Routes.Segments.after_marker
    fitz_ts.Routes.Segments.cut_marker fitz_ts.Routes.Segments.cut_marker_from
    fitz_ts.Routes.Segments.split_from fitz_ts.Routes.Segments.split_slash
    fitz_ts.Routes.Segments.str_eq fitz_ts.Routes.Shape.scan_concrete
    fitz_ts.Routes.Shape.scan_concrete_from fitz_ts.Routes.Shape.strip_prefix
    fitz_ts.Routes.Size.count_bytes fitz_ts.Routes.Size.is_pair
    fitz_ts.Routes.Size.wire_size_is_valid
decode_leases = refl

decode_reserve_response-Fits_example : All (Fits selector) leases
decode_reserve_response-Fits_example =
    decode_reserve_response-Fits payload selector leases decode_leases
