-- ===== src/Filter/Tests.antt =====
-- Runs of the filter, its sorting and its query language.
use Prim.Native.Nat.{Ordering}
use Prim.Native.Nat as Nat
use tapline.Base.{
  ℕ, zero, suc, ◌+◌, ◌/◌, ◌%◌, ◌≤◌, ◌≡◌, ◌≢◌, ◌↔◌, refl, ap, Bool, true, false, ◌&&◌, none, some,
  List, [], ◌∷◌, all, Text, text, text_eq, lower, map, length, decimal, digits_from, is_space,
  starts_with, arith,
}
use tapline.Model.{Transaction, completed}
use tapline.Filter.{
  Runtime, Row, to_row, Filters, all_rows, Key, body, words, dur, Op, equal, above, Term,
}
use tapline.Filter.Query.{
  parse_query, remote_query, remote_terms, tokens, tokens_from, token_at, prefix, named, span,
  value_at, bare, quoted, terms_of, term_of, alias, free_word,
}
use tapline.Filter.Rows.Terms.{matches}
use tapline.Filter.Search.{holds, search_transactions}
use tapline.Filter.Sorting
use tapline.Filter.Sorting.{
  Sort, LocaleCompare, or_else_by, flipped, not_above, sort_rows, insert_row, compare_rows,
  compare_values, key,
}
use tapline.Filter.Comparing.{IsNotAbove, IsLocale}
use tapline.Filter.Ordered.{IsSorting, IsNumbered, sort_rows_iff}
use tapline.Filter.Printed.{IsPrintable, parse_query-remote_query}
use tapline.Filter.Whole.{matches-search_transactions}

abbrev term_with : Key → Op → Text → Bool → Term
term_with k o v n = record { key = k; op = o; value = v; negate = n }

-- Every way a token is read.
reads_query :
    parse_query
      (text "status:5xx  \"A b\" http://x -body:\"n f\" -x host: dur>5k foo:\"\" host:\"\"")
    ≡ term_with Key.status equal (text "5xx") false
      ∷ term_with words equal (text "a b") false
      ∷ term_with words equal (text "http://x") false
      ∷ term_with body equal (text "n f") true
      ∷ term_with words equal (text "x") true
      ∷ term_with words equal (text "host:") false
      ∷ term_with dur above (text "5k") false
      ∷ term_with words equal (text "foo:") false
      ∷ []
unfolding parse_query tokens tokens_from token_at prefix named span value_at bare quoted terms_of
    term_of alias free_word text text_eq lower is_space starts_with
reads_query = refl

-- Texts by their characters.
abbrev by_codes : LocaleCompare
by_codes [] [] = Ordering.eq
by_codes [] (d ∷ t) = Ordering.lt
by_codes (c ∷ s) [] = Ordering.gt
by_codes (c ∷ s) (d ∷ t) = or_else_by (Nat.compare c d) (by_codes s t)

by_codes_flip : (s t : Text) → by_codes t s ≡ flipped (by_codes s t)
by_codes_flip [] [] = refl
by_codes_flip [] (d ∷ t) = refl
by_codes_flip (c ∷ s) [] = refl
by_codes_flip (c ∷ s) (d ∷ t) = ground (arith, by_codes_flip s t)

by_codes_trans :
    (s t u : Text)
    → IsNotAbove (by_codes s t)
    → IsNotAbove (by_codes t u)
    → IsNotAbove (by_codes s u)
by_codes_trans [] t [] h k = refl
by_codes_trans [] t (e ∷ u) h k = refl
by_codes_trans (c ∷ s) [] u h k = cc
by_codes_trans (c ∷ s) (d ∷ t) [] h k = cc
by_codes_trans (c ∷ s) (d ∷ t) (e ∷ u) h k = ground (arith, by_codes_trans s t u)

digits_grow : (fuel n : ℕ) (acc : Text) → length acc ≤ length (digits_from fuel n acc)
unfolding digits_from
digits_grow zero n acc = omega arith
digits_grow (suc fuel) n acc = ground (arith, digits_grow fuel (n / 10) ((b'0' + n % 10) ∷ acc))

by_codes_nonempty : (s : Text) → 1 ≤ length s → by_codes [] s ≡ Ordering.lt
by_codes_nonempty [] h = absurd (omega (arith, h))
by_codes_nonempty (c ∷ s) h = refl

decimal_nonempty : (n : ℕ) → 1 ≤ length (decimal n)
unfolding decimal digits_from
decimal_nonempty n = ground (arith, digits_grow n (n / 10) ((b'0' + n % 10) ∷ []))

by_codes-IsLocale : IsLocale by_codes
by_codes-IsLocale = record {
  order = record { flip = by_codes_flip; trans = by_codes_trans };
  empty_first = λ n. by_codes_nonempty (decimal n) (decimal_nonempty n);
}

abbrev shop : Transaction
shop = record {
  note = none;
  marked = false;
  id = text "a";
  sequence = 1;
  timestamp = 0;
  method = text "GET";
  url = text "https://shop.dev/cart";
  host = text "shop.dev";
  path = text "/cart";
  scheme = text "https";
  http_version = none;
  client = [];
  state = completed;
  status = some 200;
  status_message = none;
  request_headers = [];
  response_headers = [];
  response_trailers = none;
  request_body = [];
  response_body = text "Not Found";
  request_binary = false;
  response_binary = false;
  request_bytes = 0;
  response_bytes = 9;
  truncated = false;
  duration = 5;
  tls = true;
  failed_with = none;
  frames = [];
  frames_truncated = false;
  events = none;
  events_truncated = false;
  replay_of = none;
  paused = none;
  rules = [];
  answered_locally = false;
  upstream_url = none;
  response_encoding = none;
  server_address = none;
}

abbrev blog : Transaction
blog = record shop { id = text "b"; sequence = 2; status = none }

abbrev rows : List Row
rows = to_row blog none ∷ to_row shop none ∷ []

abbrev by_status : Sort
by_status = record { column = Sorting.status; ascending = false }

rows-IsNumbered : IsNumbered rows
unfolding to_row
rows-IsNumbered = (((λ e. omega (arith, e)), tt), (tt, tt))

sort_rows_iff_example :
    (sort_rows by_codes by_status rows ≡ sort_rows by_codes by_status rows)
    ↔ IsSorting by_codes by_status rows (sort_rows by_codes by_status rows)
sort_rows_iff_example =
    sort_rows_iff by_codes by_status rows (sort_rows by_codes by_status rows) by_codes-IsLocale
      rows-IsNumbered

-- A row without a status stands last when the order descends.
sorts_by_status : map (λ r. r.sequence) (sort_rows by_codes by_status rows) ≡ 1 ∷ 2 ∷ []
unfolding sort_rows insert_row compare_rows compare_values key to_row decimal digits_from
sorts_by_status = refl

abbrev asked_terms : List Term
asked_terms =
    term_with Key.status equal (text "2xx") false
    ∷ term_with body equal (text "not found") true
    ∷ []

asked-IsPrintable : IsPrintable (remote_terms asked_terms)
unfolding remote_terms text
asked-IsPrintable = (refl, tt)

parse_query-remote_query_example : parse_query (remote_query asked_terms) ≡ remote_terms asked_terms
parse_query-remote_query_example = parse_query-remote_query asked_terms asked-IsPrintable

abbrev runtime : Runtime
runtime = record {
  parse_float = λ s. none;
  times = λ a b. a;
  of_nat = λ n. n;
  of_tenths = λ n. n;
  above = λ a b. false;
  same = λ a b. false;
}

abbrev filters : Filters
filters = record { words = []; quick = all_rows; host = none; hide_tunnels = true }

abbrev head_code : Text → ℕ
head_code [] = 0
head_code (c ∷ s) = c

blog_is_other : blog.id ≢ shop.id
unfolding text
blog_is_other e = let codes : 98 ≡ 97 = ap head_code e in omega (arith, codes)

matches-search_transactions_example :
    matches runtime
      (to_row shop none)
      filters
      asked_terms
      (some (search_transactions (blog ∷ shop ∷ []) (remote_query asked_terms) none))
    ≡ (matches runtime (to_row shop none) filters asked_terms none
        && all (λ term. holds shop term) asked_terms)
matches-search_transactions_example =
    matches-search_transactions runtime filters shop none asked_terms none (blog ∷ []) []
      (blog_is_other, tt) tt refl asked-IsPrintable
