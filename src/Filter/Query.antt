-- ===== src/Filter/Query.antt =====
-- src/webview/lib/filter.ts: parseQuery and remoteQuery. Texts are lists of code points.
-- The regular expression `token` is run directly: at white space nothing matches, and elsewhere a
-- match is never empty. Its parts exclude each other, so that only the optional prefix is taken back.
use tapline.Base.{
  ℕ, zero, suc, ◌+◌, ◌/◌, ◌%◌, Bool, true, false, not, ◌&&◌, ◌||◌, Option, none, some, List, [],
  ◌∷◌, ◌++◌, map, select, Text, text, text_eq, lower, join, is_space, starts_with, length, ltb, leb,
  ◌==◌, if◌then◌else◌,
}
use tapline.Filter.{
  Key, status, method, host, server, path, url, type, proto, size, dur, rule, body, header, req,
  res, words, inherited, Op, equal, above, below, Term, is_remote,
}

-- `aliases[name]`, with what every object inherits.
unfoldable pub alias : Text → Option Key
alias name =
    if text_eq name (text "status") || text_eq name (text "code")
    then some status
    else if text_eq name (text "method")
    then some method
    else if text_eq name (text "host") || text_eq name (text "domain")
    then some host
    else if text_eq name (text "server") || text_eq name (text "ip")
    then some server
    else if text_eq name (text "path")
    then some path
    else if text_eq name (text "url")
    then some url
    else if text_eq name (text "type") || text_eq name (text "mime")
    then some type
    else if text_eq name (text "proto")
        || (text_eq name (text "protocol") || text_eq name (text "version"))
    then some proto
    else if text_eq name (text "size") || text_eq name (text "bytes")
    then some size
    else if text_eq name (text "dur")
        || (text_eq name (text "duration") || text_eq name (text "time"))
    then some dur
    else if text_eq name (text "rule")
    then some rule
    else if text_eq name (text "body")
    then some body
    else if text_eq name (text "header")
    then some header
    else if text_eq name (text "req") || text_eq name (text "request")
    then some req
    else if text_eq name (text "res") || text_eq name (text "response")
    then some res
    else if text_eq name (text "constructor")
    then some inherited
    else none

-- `[a-z]`, with the flag `i`.
abbrev pub is_letter : ℕ → Bool
is_letter c = (leb b'a' c && leb c b'z') || (leb b'A' c && leb c b'Z')

abbrev pub is_op : ℕ → Bool
is_op c = c == b':' || (c == b'=' || (c == b'>' || c == b'<'))

-- The longest run of characters that a test takes, and the rest.
unfoldable pub span : (ℕ → Bool) → Text → Text × Text
span p [] = ([], [])
span p (c ∷ s) = let (run, rest) = span p s in if p c then (c ∷ run, rest) else ([], c ∷ s)

pub record Prefix : Type 0 where
  pub minus : Bool
  pub name : Text
  pub op : ℕ

abbrev pub with_op : Bool → Text → Text → Option (Prefix × Text)
with_op minus [] rest = none
with_op minus (c ∷ name) [] = none
with_op minus (c ∷ name) (d ∷ rest) =
    if is_op d then some (record { minus = minus; name = c ∷ name; op = d }, rest) else none

-- `([a-z]+)([:=><])`.
unfoldable pub named : Bool → Text → Option (Prefix × Text)
unfolding span
named minus s = let (name, rest) = span is_letter s in with_op minus name rest

-- `(-?)([a-z]+)([:=><])`.
unfoldable pub prefix : Text → Option (Prefix × Text)
unfolding named
prefix [] = none
prefix (c ∷ s) = if c == b'-' then named true s else named false (c ∷ s)

abbrev pub unless_empty : Text → Text → Option (Text × Text)
unless_empty [] rest = none
unless_empty (c ∷ run) rest = some (c ∷ run, rest)

-- `\S+`.
unfoldable pub bare : Text → Option (Text × Text)
unfolding span
bare s = let (run, rest) = span (λ c. not (is_space c)) s in unless_empty run rest

-- `"([^"]*)"`, behind the first quote.
unfoldable pub quoted : Text → Option (Text × Text)
quoted [] = none
quoted (c ∷ s) =
    let rest = quoted s in
    if c == b'"'
    then some ([], s)
    else elim rest [ none ↦ none | some (run, after) ↦ some (c ∷ run, after) ]

unfoldable pub value_at : Text → Option (Text × Text)
unfolding bare quoted
value_at [] = none
value_at (c ∷ s) =
    if c == b'"'
    then elim (quoted s) [ none ↦ bare (c ∷ s) | some found ↦ some found ]
    else bare (c ∷ s)

pub record Token : Type 0 where
  pub before : Option Prefix
  pub raw : Text

abbrev pub plain_token : Option (Text × Text) → Option (Token × Text)
plain_token none = none
plain_token (some (raw, rest)) = some (record { before = none; raw = raw }, rest)

-- A match at the start of a text, and what follows it.
unfoldable pub token_at : Text → Option (Token × Text)
unfolding prefix value_at
token_at s = elim (prefix s) [
  | none ↦ plain_token (value_at s)
  | some (p, rest) ↦ elim (value_at rest) [
    | none ↦ plain_token (value_at s)
    | some (raw, after) ↦ some (record { before = some p; raw = raw }, after)
  ]
]

-- `text.matchAll(token)`. A round takes at least one character.
unfoldable pub tokens_from : ℕ → Text → List Token
unfolding token_at
tokens_from zero s = []
tokens_from (suc fuel) [] = []
tokens_from (suc fuel) (c ∷ s) = elim (token_at (c ∷ s)) [
  | none ↦ tokens_from fuel s
  | some (t, rest) ↦ t ∷ tokens_from fuel rest
]

unfoldable pub tokens : Text → List Token
unfolding tokens_from
tokens s = tokens_from (length s) s

abbrev pub op_of : ℕ → Op
op_of c = if c == b'>' then above else if c == b'<' then below else equal

-- A word without a key.
abbrev free_term : Text → Bool → List Term
free_term [] negate = []
free_term (c ∷ s) negate =
    record { key = words; op = equal; value = lower (c ∷ s); negate = negate } ∷ []

unfoldable pub free_word : Text → List Term
free_word [] = []
free_word (c ∷ []) = free_term (c ∷ []) false
free_word (c ∷ d ∷ s) = if c == b'-' then free_term (d ∷ s) true else free_term (c ∷ d ∷ s) false

abbrev keyed_term : Prefix → Text → Option Key → List Term
keyed_term p raw none = free_term (p.name ++ p.op ∷ raw) p.minus
keyed_term p [] (some k) = []
keyed_term p (c ∷ raw) (some k) =
    record { key = k; op = op_of p.op; value = c ∷ raw; negate = p.minus } ∷ []

-- What is pushed for one match.
unfoldable pub term_of : Token → List Term
unfolding free_word alias
term_of t = elim t.before [
  | none ↦ free_word t.raw
  | some p ↦
      keyed_term p t.raw
        (if p.op == b':' && starts_with (text "//") t.raw then none else alias (lower p.name))
]

unfoldable pub terms_of : List Token → List Term
terms_of [] = []
terms_of (t ∷ ts) = term_of t ++ terms_of ts

unfoldable pub parse_query : Text → List Term
unfolding tokens terms_of
parse_query s = terms_of (tokens s)

-- `JSON.stringify` of a text.
abbrev hex : ℕ → ℕ
hex n = if ltb n 10 then b'0' + n else 87 + n

abbrev escaped : ℕ → Text
escaped c =
    text "\\u" ++ hex (c / 4096 % 16) ∷ hex (c / 256 % 16) ∷ hex (c / 16 % 16) ∷ hex (c % 16) ∷ []

unfoldable pub json_char : ℕ → Text
json_char c =
    if c == b'"' || c == b'\\'
    then b'\\' ∷ c ∷ []
    else if c == 8
    then text "\\b"
    else if c == 9
    then text "\\t"
    else if c == 10
    then text "\\n"
    else if c == 12
    then text "\\f"
    else if c == 13
    then text "\\r"
    else if ltb c 32 || (leb 0xd800 c && leb c 0xdfff)
    then escaped c
    else c ∷ []

unfoldable pub json_chars : Text → Text
unfolding json_char
json_chars [] = []
json_chars (c ∷ s) = json_char c ++ json_chars s

abbrev pub json_string : Text → Text
json_string s = b'"' ∷ (json_chars s ++ b'"' ∷ [])

abbrev pub key_text : Key → Text
key_text status = text "status"
key_text method = text "method"
key_text host = text "host"
key_text server = text "server"
key_text path = text "path"
key_text url = text "url"
key_text type = text "type"
key_text proto = text "proto"
key_text size = text "size"
key_text dur = text "dur"
key_text rule = text "rule"
key_text body = text "body"
key_text header = text "header"
key_text req = text "req"
key_text res = text "res"
key_text words = text "text"
key_text inherited = text "function Object() { [native code] }"

abbrev pub op_char : Op → ℕ
op_char equal = b'='
op_char above = b'>'
op_char below = b'<'

abbrev pub printed : Term → Text
printed t =
    let shown = key_text t.key ++ op_char t.op ∷ json_string t.value in
    if t.negate then b'-' ∷ shown else shown

unfoldable pub remote_terms : List Term → List Term
remote_terms terms = select (λ t. is_remote t.key) terms

unfoldable pub remote_query : List Term → Text
unfolding json_chars remote_terms
remote_query terms = join (text " ") (map (λ t. printed t) (remote_terms terms))
