-- ===== src/Filter/Printed.antt =====
-- src/webview/lib/filter.ts and src/utils/search.ts: the host reads back the terms that the panel
-- sends it as text.
use tapline.Base.{
  ℕ, ◌≡◌, refl, ap, ◌∙◌, subst, Bool, true, false, not, ◌&&◌, none, some, List, [], ◌∷◌, ◌++◌, map,
  append-nil, append_assoc, all, Text, text, text_eq, lower, join, is_space, leb, ◌==◌,
  if◌then◌else◌, arith,
}
use tapline.Filter.{
  Key, status, method, host, server, path, url, type, proto, size, dur, rule, body, header, req,
  res, words, inherited, Op, equal, above, below, Term, is_remote,
}
use tapline.Filter.Query.{
  is_letter, is_op, span, Prefix, named, prefix, quoted, bare, value_at, Token, token_at,
  tokens_from, tokens, alias, op_of, term_of, terms_of, parse_query, json_char, json_chars,
  json_string, key_text, op_char, printed, remote_terms, remote_query,
}
use tapline.Filter.Scanning.{tokens-found, tokens-skip}

-- A character that `JSON.stringify` writes as it is.
abbrev pub is_plain : ℕ → Bool
is_plain c =
    not (c == b'"') && (not (c == b'\\') && (leb 32 c && not (leb 0xd800 c && leb c 0xdfff)))

abbrev is_value : Text → Bool
is_value [] = false
is_value (c ∷ s) = all is_plain (c ∷ s)

-- The terms for the host have values of such characters, one at least.
abbrev pub IsPrintable : List Term → Type 0
IsPrintable [] = Unit {0}
IsPrintable (t ∷ terms) = (is_value t.value ≡ true) × IsPrintable terms

json_char_plain : (c : ℕ) → is_plain c ≡ true → json_char c ≡ c ∷ []
unfolding json_char
json_char_plain c h = ground arith

json_chars_plain : (s : Text) → all is_plain s ≡ true → json_chars s ≡ s
unfolding json_chars
json_chars_plain [] h = refl
json_chars_plain (c ∷ s) h =
    rw (json_char_plain c (ground arith), json_chars_plain s (ground arith)) refl

quoted_plain : (s rest : Text) → all is_plain s ≡ true → quoted (s ++ b'"' ∷ rest) ≡ some (s, rest)
unfolding quoted
quoted_plain [] rest h = refl
quoted_plain (c ∷ s) rest h =
    let not_quote : (c == b'"') ≡ false = ground arith in
    rw (not_quote, quoted_plain s rest (ground arith)) refl

value_at-json_string :
    (s rest : Text) → all is_plain s ≡ true → value_at (json_string s ++ rest) ≡ some (s, rest)
unfolding value_at
value_at-json_string s rest h =
    rw (json_chars_plain s h, append_assoc s (b'"' ∷ []) rest, quoted_plain s rest h) refl

op-is_op : (o : Op) → (is_op (op_char o) ≡ true) × (is_letter (op_char o) ≡ false)
op-is_op equal = (refl, refl)
op-is_op above = (refl, refl)
op-is_op below = (refl, refl)

op_of-op_char : (o : Op) → op_of (op_char o) ≡ o
op_of-op_char equal = refl
op_of-op_char above = refl
op_of-op_char below = refl

span_run :
    (p : ℕ → Bool) (run : Text) (c : ℕ) (rest : Text)
    → all p run ≡ true
    → p c ≡ false
    → span p (run ++ c ∷ rest) ≡ (run, c ∷ rest)
unfolding span
span_run p [] c rest h k = rw k refl
span_run p (d ∷ run) c rest h k =
    let first : p d ≡ true = ground arith in rw (first, span_run p run c rest (ground arith) k) refl

-- A key of the host is written in letters, and read back.
record Spelled (k : Key) : Type 0 where
  first : ℕ
  others : Text
  spelling : key_text k ≡ first ∷ others
  letters : all is_letter (first ∷ others) ≡ true
  known : alias (lower (first ∷ others)) ≡ some k

remote-Spelled : (k : Key) → is_remote k ≡ true → Spelled k
unfolding alias text text_eq lower
remote-Spelled body h = record {
  first = b'b';
  others = text "ody";
  spelling = refl;
  letters = refl;
  known = refl;
}
remote-Spelled header h = record {
  first = b'h';
  others = text "eader";
  spelling = refl;
  letters = refl;
  known = refl;
}
remote-Spelled req h = record {
  first = b'r';
  others = text "eq";
  spelling = refl;
  letters = refl;
  known = refl;
}
remote-Spelled res h = record {
  first = b'r';
  others = text "es";
  spelling = refl;
  letters = refl;
  known = refl;
}
remote-Spelled status h = cc
remote-Spelled method h = cc
remote-Spelled host h = cc
remote-Spelled server h = cc
remote-Spelled path h = cc
remote-Spelled url h = cc
remote-Spelled type h = cc
remote-Spelled proto h = cc
remote-Spelled size h = cc
remote-Spelled dur h = cc
remote-Spelled rule h = cc
remote-Spelled words h = cc
remote-Spelled inherited h = cc

named_run :
    (minus : Bool) (c : ℕ) (name : Text) (o : Op) (rest : Text)
    → all is_letter (c ∷ name) ≡ true
    → named minus (c ∷ (name ++ op_char o ∷ rest))
      ≡ some (record { minus = minus; name = c ∷ name; op = op_char o }, rest)
unfolding named
named_run minus c name o rest h =
    let (here, stops) = op-is_op o in
    rw (span_run is_letter (c ∷ name) (op_char o) rest h stops, here) refl

prefix_run :
    (minus : Bool) (c : ℕ) (name : Text) (o : Op) (rest : Text)
    → all is_letter (c ∷ name) ≡ true
    → prefix
        (if minus then b'-' ∷ c ∷ (name ++ op_char o ∷ rest) else c ∷ (name ++ op_char o ∷ rest))
      ≡ some (record { minus = minus; name = c ∷ name; op = op_char o }, rest)
unfolding prefix
prefix_run true c name o rest h = named_run true c name o rest h
prefix_run false c name o rest h =
    let no_minus : (c == b'-') ≡ false = ground arith in
    rw no_minus (named_run false c name o rest h)

-- What the host reads of a term.
abbrev token_of : Term → Token
token_of t = record {
  before = some (record { minus = t.negate; name = key_text t.key; op = op_char t.op });
  raw = t.value;
}

prefix_shown :
    (minus : Bool) (w : Text) (c : ℕ) (name : Text) (o : Op) (tail rest : Text)
    → w ≡ c ∷ name
    → all is_letter (c ∷ name) ≡ true
    → prefix ((if minus then b'-' ∷ (w ++ op_char o ∷ tail) else (w ++ op_char o ∷ tail)) ++ rest)
      ≡ some (record { minus = minus; name = w; op = op_char o }, tail ++ rest)
prefix_shown true w c name o tail rest e h =
    rw (e, append_assoc name (op_char o ∷ tail) rest) (prefix_run true c name o (tail ++ rest) h)
prefix_shown false w c name o tail rest e h =
    rw (e, append_assoc name (op_char o ∷ tail) rest) (prefix_run false c name o (tail ++ rest) h)

token_at_parts :
    (s value rest : Text) (p : Prefix)
    → prefix s ≡ some (p, json_string value ++ rest)
    → all is_plain value ≡ true
    → token_at s ≡ some (record { before = some p; raw = value }, rest)
unfolding token_at
token_at_parts s value rest p e h = rw (e, value_at-json_string value rest h, token_at) refl

token_at-printed :
    (t : Term) (rest : Text)
    → is_remote t.key ≡ true
    → all is_plain t.value ≡ true
    → token_at (printed t ++ rest) ≡ some (token_of t, rest)
token_at-printed t rest r v =
    let k = remote-Spelled t.key r in
    token_at_parts (printed t ++ rest) t.value rest _
      (prefix_shown t.negate (key_text t.key) k.first k.others t.op (json_string t.value) rest
        k.spelling k.letters)
      v

op_not_colon : (o : Op) → (op_char o == b':') ≡ false
op_not_colon equal = refl
op_not_colon above = refl
op_not_colon below = refl

known_key : (k : Key) → is_remote k ≡ true → alias (lower (key_text k)) ≡ some k
known_key k r = let s = remote-Spelled k r in rw s.spelling s.known

term_of-token_of :
    (k : Key) (o : Op) (v : Text) (n : Bool)
    → is_remote k ≡ true
    → is_value v ≡ true
    → term_of (token_of (record { key = k; op = o; value = v; negate = n }))
      ≡ record { key = k; op = o; value = v; negate = n } ∷ []
unfolding term_of
term_of-token_of k o [] n r v = cc
term_of-token_of k o (c ∷ s) n r v = rw (op_not_colon o, known_key k r, op_of-op_char o) refl

-- The host's terms with their values, none of them empty.
abbrev AllPrintable : List Term → Type 0
AllPrintable [] = Unit {0}
AllPrintable (t ∷ terms) =
    (is_remote t.key ≡ true) × ((is_value t.value ≡ true) × AllPrintable terms)

value_plain : (s : Text) → is_value s ≡ true → all is_plain s ≡ true
value_plain [] h = cc
value_plain (c ∷ s) h = h

abbrev shown : List Term → Text
shown terms = join (text " ") (map (λ t. printed t) terms)

token_at-space : (s : Text) → token_at (b' ' ∷ s) ≡ none
unfolding token_at prefix named span value_at bare is_space
token_at-space s = refl

tokens-shown : (terms : List Term) → AllPrintable terms → tokens (shown terms) ≡ map token_of terms
unfolding join text tokens tokens_from
tokens-shown [] h = refl
tokens-shown (t ∷ []) (r, (v, h)) =
    let found = token_at-printed t [] r (value_plain t.value v) in
    tokens-found (printed t) [] (token_of t)
      (subst (λ x. token_at x ≡ some (token_of t, [])) (append-nil (printed t)) found)
tokens-shown (t ∷ u ∷ terms) (r, (v, h)) =
    let rest = shown (u ∷ terms) in
    tokens-found (printed t ++ b' ' ∷ rest) (b' ' ∷ rest) (token_of t)
      (token_at-printed t (b' ' ∷ rest) r (value_plain t.value v))
    ∙ ap (◌∷◌ (token_of t))
        (tokens-skip b' ' rest (token_at-space rest) ∙ tokens-shown (u ∷ terms) h)

terms_of-map : (terms : List Term) → AllPrintable terms → terms_of (map token_of terms) ≡ terms
unfolding terms_of
terms_of-map [] h = refl
terms_of-map (t ∷ terms) (r, (v, h)) =
    ap (λ x. x ++ terms_of (map token_of terms)) (term_of-token_of t.key t.op t.value t.negate r v)
    ∙ ap (◌∷◌ t) (terms_of-map terms h)

remote_printable :
    (terms : List Term) → IsPrintable (remote_terms terms) → AllPrintable (remote_terms terms)
unfolding remote_terms
remote_printable [] h = tt
remote_printable (t ∷ terms) h = by_key (is_remote t.key) refl (remote_printable terms) h
  where
    with_rest : Bool → List Term
    with_rest b = if b then t ∷ remote_terms terms else remote_terms terms

    by_key :
        (b : Bool)
        → is_remote t.key ≡ b
        → (IsPrintable (remote_terms terms) → AllPrintable (remote_terms terms))
        → IsPrintable (with_rest b)
        → AllPrintable (with_rest b)
    by_key true e ih (v, h) = (e, (v, ih h))
    by_key false e ih h = ih h

-- The text that the panel sends for the host's terms of a query reads as those terms, when each has
-- a value that is not empty, without quotes, backslashes and control characters.
pub parse_query-remote_query :
    (terms : List Term)
    → IsPrintable (remote_terms terms)
    → parse_query (remote_query terms) ≡ remote_terms terms
unfolding parse_query remote_query
parse_query-remote_query terms h =
    let ok = remote_printable terms h in
    ap terms_of (tokens-shown (remote_terms terms) ok) ∙ terms_of-map (remote_terms terms) ok
