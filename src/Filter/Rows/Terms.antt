-- ===== src/Filter/Rows/Terms.antt =====
-- src/webview/lib/filter.ts: the terms of a query, the quick filter, and the filters together.
use tapline.Base.{
  ℕ, ◌-◌, ◌/◌, Bool, true, false, not, ◌&&◌, ◌||◌, Option, none, some, List, [], ◌∷◌, ◌++◌, map,
  all, any, Text, text, text_eq, lower, trim, split, includes, starts_with, is_empty, decimal, ltb,
  ◌==◌, if◌then◌else◌,
}
use tapline.Matching.{match_wildcard, has_star}
use tapline.Filter.{
  Runtime, Row, or_none, is_given, Quick, all_rows, quick_2xx, quick_3xx, quick_4xx, quick_5xx,
  quick_pending, quick_error, quick_json, quick_js, quick_html, quick_ws, Filters, Key, status,
  method, host, server, path, url, type, proto, size, dur, rule, body, header, req, res, words,
  inherited, Op, Term, is_remote,
}
use tapline.Filter.Rows.{
  contains, is_digit, pending_state, status_or_zero, failed, is_js_row, is_html_row, is_json_row,
  is_ws_row, compare,
}

abbrev status_digits : Option ℕ → Text
status_digits none = []
status_digits (some n) = decimal n

-- `/^\dxx$/.test(v)`, and the digit.
abbrev class_of : Text → Option ℕ
class_of (d ∷ x ∷ y ∷ []) = if is_digit d && (x == b'x' && y == b'x') then some (d - b'0') else none
class_of v = none

abbrev by_class : Row → Text → Option ℕ → Bool
by_class row v none = starts_with v (status_digits row.status)
by_class row v (some n) = status_or_zero row.status / 100 == n

unfoldable pub status_matches : Row → Text → Bool
status_matches row value =
    let v = lower value in
    if text_eq v (text "pending")
    then pending_state row.state
    else if text_eq v (text "error") || text_eq v (text "err")
    then failed row
    else if text_eq v (text "paused")
    then is_given row.paused
    else by_class row v (class_of v)

abbrev version_is : Row → List Text → Bool
version_is row versions = elim row.http_version [ none ↦ false | some v ↦ includes versions v ]

unfoldable pub proto_matches : Row → Text → Bool
unfolding contains
proto_matches row value =
    let v = lower value in
    if includes (text "ws" ∷ text "websocket" ∷ []) v
    then row.websocket
    else if text_eq v (text "sse")
    then is_given row.events
    else if text_eq v (text "grpc")
    then row.grpc
    else if includes (text "h1" ∷ text "http1" ∷ text "http/1.1" ∷ text "1.1" ∷ []) v
    then version_is row (text "1.1" ∷ text "1.0" ∷ [])
    else if includes
        (text "h2" ∷ text "http2" ∷ text "http/2" ∷ text "http/2.0" ∷ text "2.0" ∷ text "2" ∷ []) v
    then version_is row (text "2.0" ∷ text "2" ∷ [])
    else if includes
        (text "h3" ∷ text "http3" ∷ text "http/3" ∷ text "http/3.0" ∷ text "3.0" ∷ text "3" ∷ []) v
    then version_is row (text "3.0" ∷ text "3" ∷ [])
    else if text_eq v (text "tls") || text_eq v (text "https")
    then row.tls
    else if text_eq v (text "connect") || text_eq v (text "tunnel")
    then text_eq row.scheme (text "connect")
    else text_eq row.scheme v
      || contains v (row.scheme ++ (text " http/" ++ or_none row.http_version))

unfoldable pub word_matches : Row → Text → Bool
unfolding contains is_js_row is_html_row is_json_row is_ws_row
word_matches row needle =
    contains needle (lower row.url)
    || (contains needle (lower row.method)
        || (starts_with needle (status_digits row.status)
            || ((if text_eq needle (text "js")
                  then is_js_row row
                  else contains needle (lower row.content_type))
                || ((text_eq needle (text "html") && is_html_row row)
                    || ((text_eq needle (text "json") && is_json_row row)
                        || ((text_eq needle (text "ws") && is_ws_row row)
                            || contains needle (lower (or_none row.failed_with))))))))

abbrev pattern_or_part : Text → Text → Bool
pattern_or_part v s = if has_star v then match_wildcard v s else contains (lower v) (lower s)

unfoldable pub type_matches : Row → Text → Bool
unfolding contains is_js_row is_html_row is_json_row is_ws_row
type_matches row needle =
    if text_eq needle (text "js")
    then is_js_row row
    else if text_eq needle (text "html")
    then is_html_row row
    else if text_eq needle (text "json")
    then is_json_row row
    else if text_eq needle (text "ws")
    then is_ws_row row
    else contains needle row.content_type

abbrev rule_matches_row : Row → Text → Bool
rule_matches_row row needle =
    if includes (text "none" ∷ text "false" ∷ text "0" ∷ []) needle
    then row.rules == 0
    else ltb 0 row.rules

-- `hit`; `none` where the term is left to the host.
unfoldable pub hit : Runtime → Row → Key → Op → Text → Option Bool
unfolding word_matches status_matches type_matches proto_matches compare contains
hit rt row words op v = some (word_matches row (lower v))
hit rt row status op v = some (status_matches row v)
hit rt row method op v =
    some (includes (map (λ m. lower (trim m)) (split b',' v)) (lower row.method))
hit rt row host op v = some (pattern_or_part v row.host)
hit rt row server op v = some (contains (lower v) (lower (or_none row.server_address)))
hit rt row path op v = some (pattern_or_part v row.path)
hit rt row url op v = some (pattern_or_part v row.url)
hit rt row type op v = some (type_matches row (lower v))
hit rt row proto op v = some (proto_matches row v)
hit rt row size op v = some (compare rt (rt.of_nat row.response_bytes) op v)
hit rt row dur op v =
    some (not (pending_state row.state) && compare rt (rt.of_tenths row.duration) op v)
hit rt row rule op v = some (rule_matches_row row (lower v))
hit rt row body op v = none
hit rt row header op v = none
hit rt row req op v = none
hit rt row res op v = none
hit rt row inherited op v = none

abbrev pub signed : Bool → Option Bool → Bool
signed negate none = true
signed true (some found) = not found
signed false (some found) = found

unfoldable pub term_matches : Runtime → Row → Term → Bool
unfolding hit
term_matches rt row term = signed term.negate (hit rt row term.key term.op term.value)

unfoldable pub quick_matches : Row → Quick → Bool
unfolding is_json_row is_js_row is_html_row is_ws_row
quick_matches row all_rows = true
quick_matches row quick_pending = pending_state row.state
quick_matches row quick_error = failed row
quick_matches row quick_json = is_json_row row
quick_matches row quick_js = is_js_row row
quick_matches row quick_html = is_html_row row
quick_matches row quick_ws = is_ws_row row
quick_matches row quick_2xx = status_or_zero row.status / 100 == 2
quick_matches row quick_3xx = status_or_zero row.status / 100 == 3
quick_matches row quick_4xx = status_or_zero row.status / 100 == 4
quick_matches row quick_5xx = status_or_zero row.status / 100 == 5

abbrev other_host : Row → Option Text → Bool
other_host row none = false
other_host row (some []) = false
other_host row (some (c ∷ h)) = not (text_eq row.host (c ∷ h))

-- The ids that the host found, for terms that want them.
abbrev pub found_remotely : Row → List Term → Option (List Text) → Bool
found_remotely row terms none = true
found_remotely row terms (some ids) = not (any (λ t. is_remote t.key) terms) || includes ids row.id

unfoldable pub matches : Runtime → Row → Filters → List Term → Option (List Text) → Bool
unfolding quick_matches term_matches
matches rt row filters terms remote =
    if filters.hide_tunnels && text_eq row.scheme (text "connect")
    then false
    else if other_host row filters.host
    then false
    else if not (quick_matches row filters.quick)
    then false
    else if not (all (λ t. term_matches rt row t) terms)
    then false
    else found_remotely row terms remote

unfoldable pub is_filtered : Filters → Bool
is_filtered filters =
    not (is_empty (trim filters.words))
    || (not_all filters.quick || (not (is_empty (or_none filters.host)) || filters.hide_tunnels))
  where
    not_all : Quick → Bool
    not_all all_rows = false
    not_all q = true
