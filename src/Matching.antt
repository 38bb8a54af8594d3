-- ===== src/Matching.antt =====
-- src/shared/model.ts: which URLs, methods and hosts a pattern matches.
-- `toLowerCase` and the flag `i` fold ASCII letters. A pattern with `*` is compiled to the source of
-- a regular expression, and that is read and run as the language does: `.*` takes any run of
-- characters but line terminators, an escaped character stands for itself, and so does any other
-- that has no meaning.
pub mod Glob
pub mod Hosts
mod Tests
use tapline.Base.{
  ℕ, ◌-◌, Bool, true, false, not, ◌&&◌, ◌||◌, Option, none, some, List, [], ◌∷◌, ◌++◌, map, length,
  drop, any, select, Text, text, text_eq, lower, lower_char, upper, join, trim, split, starts_with,
  includes, is_empty, ◌==◌, if◌then◌else◌,
}

abbrev pub star : ℕ
star = b'*'

-- What `.` does not match.
abbrev pub is_terminator : ℕ → Bool
is_terminator c = c == 10 || c == 13 || c == 0x2028 || c == 0x2029

-- The class `[.*+?^${}()|[\]\\]` of `escape`.
unfoldable pub is_escaped : ℕ → Bool
is_escaped c =
    c == b'.'
    || c == star
    || c == b'+'
    || c == b'?'
    || c == b'^'
    || c == b'$'
    || c == b'{'
    || c == b'}'
    || c == b'('
    || c == b')'
    || c == b'|'
    || c == b'['
    || c == b']'
    || c == b'\\'

unfoldable pub escape : Text → Text
unfolding is_escaped
escape [] = []
escape (c ∷ s) = let rest = escape s in if is_escaped c then b'\\' ∷ c ∷ rest else c ∷ rest

-- `p.split('*').map(escape).join('.*')`, which stands between `^` and `$`.
unfoldable pub source_of : Text → Text
unfolding escape
source_of p = join (b'.' ∷ star ∷ []) (map escape (split star p))

-- What an expression of this kind is made of: a character, and `.*`.
pub data Item : Type 0 where
  literal : ℕ → Item
  any_run : Item

abbrev pub also_item : Item → Option (List Item) → Option (List Item)
also_item item none = none
also_item item (some items) = some (item ∷ items)

-- What an expression does not take for itself, in the order of the language's grammar.
unfoldable pub is_syntax : ℕ → Bool
is_syntax c =
    c == b'^'
    || c == b'$'
    || c == b'\\'
    || c == b'.'
    || c == star
    || c == b'+'
    || c == b'?'
    || c == b'('
    || c == b')'
    || c == b'['
    || c == b']'
    || c == b'{'
    || c == b'}'
    || c == b'|'

-- How the language reads the source of an expression; `none` is anything else that it can have.
unfoldable pub read_items : Text → Option (List Item)
unfolding is_syntax
read_items [] = some []
read_items (c ∷ []) = if is_syntax c then none else some (literal c ∷ [])
read_items (c ∷ d ∷ s) =
    let behind = read_items s in
    let rest = read_items (d ∷ s) in
    if c == b'\\'
    then if is_syntax d then also_item (literal d) behind else none
    else if c == b'.'
    then if d == star then also_item any_run behind else none
    else if is_syntax c
    then none
    else also_item (literal c) rest

-- `fold` is what the flag of an expression makes of a character before it is compared.
unfoldable pub run_items : (ℕ → ℕ) → List Item → Text → Bool
run_items fold [] [] = true
run_items fold [] (d ∷ s) = false
run_items fold (literal c ∷ items) [] = false
run_items fold (literal c ∷ items) (d ∷ s) = fold c == fold d && run_items fold items s
run_items fold (any_run ∷ items) [] = run_items fold items []
run_items fold (any_run ∷ items) (d ∷ s) =
    let skip = run_items fold items (d ∷ s) in
    let more = run_items fold (any_run ∷ items) s in skip || (not (is_terminator d) && more)

-- `new RegExp('^' + p.split('*').map(escape).join('.*') + '$').test(s)`.
unfoldable pub glob : (ℕ → ℕ) → Text → Text → Bool
unfolding source_of read_items run_items
glob fold p s = elim (read_items (source_of p)) [
  | none ↦ false
  | some items ↦ run_items fold items s
]

unfoldable pub has_star : Text → Bool
has_star [] = false
has_star (c ∷ p) = c == star || has_star p

-- `s.endsWith(suffix)`.
unfoldable pub ends_with : Text → Text → Bool
ends_with s suffix = text_eq (drop (length s - length suffix) s) suffix

unfoldable pub match_wildcard : Text → Text → Bool
match_wildcard pattern value =
    let p = trim pattern in
    if is_empty p || text_eq p (text "*")
    then true
    else if not (has_star p)
    then text_eq value p || starts_with p value
    else glob lower_char p value

-- The methods that a rule lists.
unfoldable pub wanted_methods : Text → List Text
wanted_methods methods =
    select (λ m. not (is_empty m)) (map (λ m. upper (trim m)) (split b',' methods))

unfoldable pub method_allowed : Option Text → Text → Bool
unfolding wanted_methods
method_allowed none method = true
method_allowed (some methods) method =
    if is_empty (trim methods)
    then true
    else elim (wanted_methods methods) [ [] ↦ true | w ∷ ws ↦ includes (w ∷ ws) (upper method) ]

unfoldable pub or_empty : Option Text → Text
or_empty none = []
or_empty (some s) = s

-- A rule gives its `method` and `url`.
unfoldable pub rule_matches : Option Text → Option Text → Text → Text → Bool
rule_matches rule_method rule_url method url =
    if method_allowed rule_method method then match_wildcard (or_empty rule_url) url else false

unfoldable pub match_host_folded : Text → Text → Bool
match_host_folded p h =
    if is_empty p
    then false
    else if text_eq p (text "*")
    then true
    else if starts_with (text "*.") p
    then text_eq h (drop 2 p) || ends_with h (drop 1 p)
    else if has_star p
    then glob (λ c. c) p h
    else text_eq h p

unfoldable pub match_host : Text → Text → Bool
match_host pattern host = match_host_folded (lower (trim pattern)) (lower host)

pub record Sorted : Type 0 where
  pub positive : List Text
  pub negative : List Text

-- One round of the loop that sorts the patterns.
unfoldable pub sort_pattern : Sorted → Text → Sorted
sort_pattern found [] = found
sort_pattern found (c ∷ p) =
    if c == b'!'
    then if is_empty p then found else record found { negative = found.negative ++ p ∷ [] }
    else record found { positive = found.positive ++ (c ∷ p) ∷ [] }

unfoldable pub sort_patterns : Sorted → List Text → Sorted
sort_patterns found [] = found
sort_patterns found (p ∷ patterns) = sort_patterns (sort_pattern found (trim p)) patterns

unfoldable pub is_host_intercepted : List Text → Text → Bool
is_host_intercepted patterns host =
    let found = sort_patterns (record { positive = []; negative = [] }) patterns in
    if any (λ p. match_host p host) found.negative
    then false
    else any (λ p. match_host p host) found.positive
