-- ===== src/Filter/Search.antt =====
-- src/utils/search.ts: the terms over headers and bodies, which the extension's host evaluates.
use tapline.Base.{
  Bool, true, false, not, ◌&&◌, ◌||◌, Option, none, some, List, [], ◌∷◌, ◌++◌, map, all, Text, text,
  text_eq, lower, trim, split, join, includes, is_empty, if◌then◌else◌,
}
use tapline.Headers.{Headers}
use tapline.Model.{Transaction}
use tapline.Filter.{Key, body, header, req, res, Term}
use tapline.Filter.Query.{parse_query, remote_terms}
use tapline.Filter.Rows.{contains}
use tapline.Filter.Rows.Terms.{signed}

abbrev header_line : Text × Text → Text
header_line (k, v) = k ++ (text ": " ++ v)

unfoldable pub header_text : Headers → Text
header_text headers = join (text "\n") (map header_line headers)

-- The loop of `headerMatches`, for a name and a wanted part in lower case.
unfoldable pub header_matches_at : Text → Text → Headers → Bool
unfolding contains
header_matches_at key wanted [] = false
header_matches_at key wanted ((k, v) ∷ headers) =
    let rest = header_matches_at key wanted headers in
    ((text_eq (lower k) key || (is_empty wanted && contains key (lower k)))
      && (is_empty wanted || contains wanted (lower v)))
    || rest

abbrev first_part : List Text → Text
first_part [] = []
first_part (name ∷ rest) = name

abbrev other_parts : List Text → List Text
other_parts [] = []
other_parts (name ∷ rest) = rest

unfoldable pub header_matches : Headers → Text → Bool
unfolding header_matches_at
header_matches headers value =
    let parts = split b'=' value in
    header_matches_at (lower (trim (first_part parts)))
      (lower (join (text "=") (other_parts parts))) headers

abbrev trailers_match : Option Headers → Text → Bool
trailers_match none value = false
trailers_match (some headers) value = header_matches headers value

abbrev request_body_has : Transaction → Text → Bool
request_body_has t needle = not t.request_binary && contains needle (lower t.request_body)

abbrev response_body_has : Transaction → Text → Bool
response_body_has t needle = not t.response_binary && contains needle (lower t.response_body)

-- `hit` of `holds`; `none` where the term is no matter of the host.
unfoldable pub remote_hit : Transaction → Key → Text → Option Bool
unfolding header_matches header_text
remote_hit t body v = some (request_body_has t (lower v) || response_body_has t (lower v))
remote_hit t header v = some (
    header_matches t.request_headers v
    || (header_matches t.response_headers v || trailers_match t.response_trailers v))
remote_hit t req v =
    some
      (contains (lower v) (lower (header_text t.request_headers)) || request_body_has t (lower v))
remote_hit t res v =
    some
      (contains (lower v) (lower (header_text t.response_headers)) || response_body_has t (lower v))
remote_hit t k v = none

unfoldable pub holds : Transaction → Term → Bool
unfolding remote_hit
holds t term = signed term.negate (remote_hit t term.key term.value)

abbrev pub is_asked : Option (List Text) → Transaction → Bool
is_asked none t = true
is_asked (some ids) t = includes ids t.id

unfoldable pub holding : List Term → Option (List Text) → List Transaction → List Text
unfolding holds
holding terms only [] = []
holding terms only (t ∷ items) =
    let rest = holding terms only items in
    if is_asked only t && all (λ term. holds t term) terms then t.id ∷ rest else rest

unfoldable pub search_terms : List Transaction → List Term → Option (List Text) → List Text
unfolding holding
search_terms items [] only = []
search_terms items (term ∷ terms) only = holding (term ∷ terms) only items

unfoldable pub search_transactions : List Transaction → Text → Option (List Text) → List Text
unfolding search_terms
search_transactions items query only = search_terms items (remote_terms (parse_query query)) only
