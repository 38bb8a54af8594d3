-- ===== src/Filter/Rows.antt =====
-- src/webview/lib/filter.ts: which rows a term, a quick filter and the filters let through.
pub mod Terms
use tapline.Base.{
  ℕ, ◌-◌, ◌/◌, Bool, true, false, not, ◌&&◌, ◌||◌, Option, none, some, List, [], ◌∷◌, ◌++◌, map,
  all, any, Text, text, text_eq, lower, trim, split, includes, starts_with, is_empty, decimal, ltb,
  leb, ◌==◌, if◌then◌else◌,
}
use tapline.Matching.{match_wildcard, has_star}
use tapline.Model.{TransactionState, pending, completed, error}
use tapline.Filter.{
  Runtime, Row, or_none, is_given, status_is, Quick, all_rows, quick_2xx, quick_3xx, quick_4xx,
  quick_5xx, quick_pending, quick_error, quick_json, quick_js, quick_html, quick_ws, Filters, Key,
  status, method, host, server, path, url, type, proto, size, dur, rule, body, header, req, res,
  words, inherited, Op, equal, above, below, Term, is_remote,
}

-- `s.includes(needle)`.
unfoldable pub contains : Text → Text → Bool
contains needle [] = is_empty needle
contains needle (c ∷ s) = starts_with needle (c ∷ s) || contains needle s

-- `/^([\d.]+)\s*([kmg]?)b?$/i`, on a trimmed text: the digits and the scale.
abbrev is_digit : ℕ → Bool
is_digit c = leb b'0' c && leb c b'9'

unfoldable pub unit_of : Text → Option ℕ
unit_of s =
    if text_eq s [] || text_eq s (text "b")
    then some 1
    else if text_eq s (text "k") || text_eq s (text "kb")
    then some 1024
    else if text_eq s (text "m") || text_eq s (text "mb")
    then some 1048576
    else if text_eq s (text "g") || text_eq s (text "gb")
    then some 1073741824
    else none

abbrev pending_state : TransactionState → Bool
pending_state pending = true
pending_state completed = false
pending_state error = false

abbrev error_state : TransactionState → Bool
error_state pending = false
error_state completed = false
error_state error = true

-- `row.status ?? 0`.
abbrev pub status_or_zero : Option ℕ → ℕ
status_or_zero none = 0
status_or_zero (some n) = n

abbrev pub failed : Row → Bool
failed row = error_state row.state || leb 400 (status_or_zero row.status)

-- `/\.(?:...)($|\?)/i.test(s)`, with the ends in lower case and their dots.
abbrev ends_here : Text → Text → Bool
ends_here [] [] = true
ends_here [] (c ∷ s) = c == b'?'
ends_here (e ∷ end) [] = false
ends_here (e ∷ end) (c ∷ s) = let rest = ends_here end s in e == c && rest

unfoldable pub has_ending : List Text → Text → Bool
has_ending ends [] = false
has_ending ends (c ∷ s) = any (λ end. ends_here end (c ∷ s)) ends || has_ending ends s

abbrev pub in_address : List Text → Row → Bool
in_address ends row = has_ending ends (lower row.path) || has_ending ends (lower row.url)

abbrev js_ends : List Text
js_ends = text ".js" ∷ text ".mjs" ∷ text ".cjs" ∷ text ".ts" ∷ text ".jsx" ∷ text ".tsx" ∷ []

abbrev html_ends : List Text
html_ends = text ".htm" ∷ text ".html" ∷ text ".xhtml" ∷ text "/html" ∷ []

unfoldable pub is_js_row : Row → Bool
unfolding contains has_ending
is_js_row row =
    contains (text "javascript") row.content_type
    || (contains (text "ecmascript") row.content_type
        || (text_eq row.content_type (text "text/js")
            || (text_eq row.content_type (text "application/js")
                || (contains (text "typescript") row.content_type || in_address js_ends row))))

abbrev is_redirect : Option ℕ → Bool
is_redirect s = status_is s 301 || (status_is s 302 || (status_is s 307 || status_is s 308))

unfoldable pub is_html_row : Row → Bool
unfolding contains has_ending
is_html_row row =
    if text_eq row.scheme (text "connect") || text_eq row.method (text "OPTIONS")
    then false
    else if in_address html_ends row
    then true
    else contains (text "html") row.content_type
      && (not (failed row) && not (is_redirect row.status))

unfoldable pub is_json_row : Row → Bool
unfolding contains has_ending
is_json_row row = contains (text "json") row.content_type || in_address (text ".json" ∷ []) row

unfoldable pub is_ws_row : Row → Bool
is_ws_row row =
    row.websocket
    || (text_eq row.scheme (text "ws")
        || (text_eq row.scheme (text "wss") || status_is row.status 101))

abbrev split_digits : Text → Text → Text × Text
split_digits digits [] = (digits, [])
split_digits digits (c ∷ s) =
    let more = split_digits (digits ++ c ∷ []) s in
    if is_digit c || c == b'.' then more else (digits, c ∷ s)

abbrev scaled : Runtime → Text → Option ℕ → Option ℕ
scaled rt [] unit = none
scaled rt (c ∷ digits) none = none
scaled rt (c ∷ digits) (some n) = elim (rt.parse_float (c ∷ digits)) [
  | none ↦ none
  | some wanted ↦ some (rt.times wanted (rt.of_nat n))
]

-- `number`; `none` is NaN.
unfoldable pub number : Runtime → Text → Option ℕ
unfolding unit_of
number rt value =
    let (digits, rest) = split_digits [] (trim value) in
    scaled rt digits (unit_of (lower (trim rest)))

abbrev wanted_number : Runtime → Op → Text → Option ℕ
wanted_number rt equal value = rt.parse_float value
wanted_number rt above value = number rt value
wanted_number rt below value = number rt value

abbrev meets : Runtime → Op → ℕ → ℕ → Bool
meets rt equal actual wanted = rt.same actual wanted
meets rt above actual wanted = rt.above actual wanted
meets rt below actual wanted = rt.above wanted actual

unfoldable pub compare : Runtime → ℕ → Op → Text → Bool
unfolding number
compare rt actual op value = elim (wanted_number rt op value) [
  | none ↦ true
  | some wanted ↦ meets rt op actual wanted
]
