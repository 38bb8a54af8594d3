-- ===== src/Matching/Tests.antt =====
-- Runs of the matching functions of src/shared/model.ts.
use tapline.Base.{
  lower_char, join, map, ◌≡◌, refl, true, false, not, ◌&&◌, any, List, [], ◌∷◌, some, Text, text,
  text_eq, lower, upper, trim, split, includes, is_empty, starts_with,
}
use tapline.Matching.{
  glob, match_wildcard, match_host, match_host_folded, has_star, is_host_intercepted, sort_patterns,
  sort_pattern, ends_with, rule_matches, method_allowed, or_empty,
}
use tapline.Matching.Hosts.{excludes, selects, is_host_intercepted-eq}

abbrev patterns : List Text
patterns = text "*" ∷ text "!*.example.com" ∷ []

excluded_host : is_host_intercepted patterns (text "API.example.com") ≡ false
unfolding is_host_intercepted sort_patterns sort_pattern match_host match_host_folded has_star
    ends_with text text_eq lower trim is_empty starts_with
excluded_host = refl

rule_by_method :
    rule_matches
      (some (text "get, post"))
      (some (text "https://*/V1/*"))
      (text "Post")
      (text "https://a/v1/x")
    ≡ true
unfolding rule_matches method_allowed match_wildcard or_empty glob has_star text text_eq lower_char
    upper trim split join includes is_empty
rule_by_method = refl

-- Of the characters that an expression could take otherwise, none is.
dot_is_literal :
    map (match_wildcard (text "a.b*+")) (text "A.bxx+" ∷ text "aXb+" ∷ text "a.b" ∷ [])
    ≡ true ∷ false ∷ false ∷ []
unfolding match_wildcard glob has_star text text_eq lower_char trim split join is_empty starts_with
dot_is_literal = refl

is_host_intercepted-eq_example :
    is_host_intercepted patterns (text "a.org")
    ≡ (not (any (excludes (text "a.org")) patterns) && any (selects (text "a.org")) patterns)
is_host_intercepted-eq_example = is_host_intercepted-eq patterns (text "a.org")
