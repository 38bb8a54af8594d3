-- ===== src/Filter/Whole.antt =====
-- src/webview/lib/filter.ts and src/utils/search.ts: the panel and the host decide a query together.
use tapline.Base.{
  ◌≡◌, ◌≢◌, refl, ap, ◌∙◌, inl, inr, Bool-cases, Bool, true, false, not, ◌&&◌, ◌||◌, Option, none,
  some, List, [], ◌∷◌, ◌++◌, All, any, all, Text, text_eq, text_eq_iff, text_eq_refl, includes,
  arith,
}
use tapline.Model.{Transaction}
use tapline.Filter.{
  Runtime, Row, GrpcCall, to_row, Filters, Key, status, method, host, server, path, url, type,
  proto, size, dur, rule, body, header, req, res, words, inherited, Term, is_remote,
}
use tapline.Filter.Query.{remote_terms, remote_query, parse_query}
use tapline.Filter.Rows.Terms.{found_remotely, matches}
use tapline.Filter.Search.{remote_hit, holds, is_asked, holding, search_terms, search_transactions}
use tapline.Filter.Printed.{IsPrintable, parse_query-remote_query}

-- The host finds nothing wrong with a term of the panel.
remote_hit-local :
    (t : Transaction) (k : Key) (v : Text) → is_remote k ≡ false → remote_hit t k v ≡ none
unfolding remote_hit
remote_hit-local t body v h = cc
remote_hit-local t header v h = cc
remote_hit-local t req v h = cc
remote_hit-local t res v h = cc
remote_hit-local t status v h = refl
remote_hit-local t method v h = refl
remote_hit-local t host v h = refl
remote_hit-local t server v h = refl
remote_hit-local t path v h = refl
remote_hit-local t url v h = refl
remote_hit-local t type v h = refl
remote_hit-local t proto v h = refl
remote_hit-local t size v h = refl
remote_hit-local t dur v h = refl
remote_hit-local t rule v h = refl
remote_hit-local t words v h = refl
remote_hit-local t inherited v h = refl

holds-local : (t : Transaction) (term : Term) → is_remote term.key ≡ false → holds t term ≡ true
unfolding holds
holds-local t term h = rw (remote_hit-local t term.key term.value h) refl

all-remote_terms :
    (t : Transaction) (terms : List Term)
    → all (λ term. holds t term) (remote_terms terms) ≡ all (λ term. holds t term) terms
unfolding remote_terms
all-remote_terms t [] = refl
all-remote_terms t (term ∷ terms) = elim (Bool-cases (is_remote term.key)) [
  | inl e ↦ rw e (ap (λ b. holds t term && b) (all-remote_terms t terms))
  | inr e ↦ rw (e, holds-local t term e) (all-remote_terms t terms)
]

-- Of transactions with other ids the id is not found.
module _ (terms : List Term) (only : Option (List Text)) (t : Transaction) where
  other_ids : (u : Transaction) → u.id ≢ t.id → text_eq u.id t.id ≡ false
  other_ids u d = elim (Bool-cases (text_eq u.id t.id)) [
    | inl e ↦ absurd (d ((text_eq_iff u.id t.id).0 e))
    | inr e ↦ e
  ]

  holding_others :
      (items : List Transaction)
      → All (λ u. u.id ≢ t.id) items
      → includes (holding terms only items) t.id ≡ false
  unfolding holding includes
  holding_others [] h = refl
  holding_others (u ∷ items) (h, hs) = ground (arith, other_ids u h, holding_others items hs)

  -- What is found of the id is what its one transaction says.
  holding_own :
      (before after : List Transaction)
      → All (λ u. u.id ≢ t.id) before
      → All (λ u. u.id ≢ t.id) after
      → includes (holding terms only (before ++ t ∷ after)) t.id
        ≡ (is_asked only t && all (λ term. holds t term) terms)
  unfolding holding includes
  holding_own [] after h k = ground (arith, text_eq_refl t.id, holding_others after k)
  holding_own (u ∷ before) after (h, hs) k =
      ground (arith, other_ids u h, holding_own before after hs k)

abbrev has_any : List Term → Bool
has_any [] = false
has_any (term ∷ terms) = true

any-remote_terms :
    (terms : List Term) → any (λ term. is_remote term.key) terms ≡ has_any (remote_terms terms)
unfolding remote_terms
any-remote_terms [] = refl
any-remote_terms (term ∷ terms) = elim (Bool-cases (is_remote term.key)) [
  | inl e ↦ rw e refl
  | inr e ↦ rw e (any-remote_terms terms)
]

matches_remotely :
    (rt : Runtime) (row : Row) (filters : Filters) (terms : List Term) (ids : Option (List Text))
    → matches rt row filters terms ids
      ≡ (matches rt row filters terms none && found_remotely row terms ids)
unfolding matches
matches_remotely rt row filters terms ids = ground arith

found-search_terms :
    (t : Transaction) (g : Option GrpcCall) (terms : List Term) (only : Option (List Text))
    (before after : List Transaction)
    → All (λ u. u.id ≢ t.id) before
    → All (λ u. u.id ≢ t.id) after
    → is_asked only t ≡ true
    → found_remotely
        (to_row t g)
        terms
        (some (search_terms (before ++ t ∷ after) (remote_terms terms) only))
      ≡ all (λ term. holds t term) terms
unfolding to_row search_terms
found-search_terms t g terms only before after h k asked =
    by_terms (remote_terms terms) (any-remote_terms terms) (all-remote_terms t terms)
  where
    by_terms :
        (asked_terms : List Term)
        → any (λ term. is_remote term.key) terms ≡ has_any asked_terms
        → all (λ term. holds t term) asked_terms ≡ all (λ term. holds t term) terms
        → (not (any (λ term. is_remote term.key) terms)
            || includes (search_terms (before ++ t ∷ after) asked_terms only) t.id)
          ≡ all (λ term. holds t term) terms
    by_terms [] e a = rw e a
    by_terms (x ∷ xs) e a =
        rw (e, search_terms, holding_own (x ∷ xs) only t before after h k, asked) a

remote_terms_idem : (terms : List Term) → remote_terms (remote_terms terms) ≡ remote_terms terms
unfolding remote_terms
remote_terms_idem [] = refl
remote_terms_idem (term ∷ terms) = ground (arith, remote_terms_idem terms)

-- What the panel asks of the host, and what the host makes of it.
host_terms :
    (terms : List Term)
    → IsPrintable (remote_terms terms)
    → remote_terms (parse_query (remote_query terms)) ≡ remote_terms terms
host_terms terms h = ap remote_terms (parse_query-remote_query terms h) ∙ remote_terms_idem terms

-- The host is asked, by the text that the panel writes for it, about transactions among which one
-- has its id alone, and the values in that text are not empty and without quotes, backslashes and
-- control characters: with the answer, the row of that transaction passes the filters exactly when
-- it passes them without one and every term of the query holds of its bodies and headers.
pub matches-search_transactions :
    (rt : Runtime) (filters : Filters) (t : Transaction) (g : Option GrpcCall) (terms : List Term)
    (only : Option (List Text)) (before after : List Transaction)
    → All (λ u. u.id ≢ t.id) before
    → All (λ u. u.id ≢ t.id) after
    → is_asked only t ≡ true
    → IsPrintable (remote_terms terms)
    → matches rt
        (to_row t g)
        filters
        terms
        (some (search_transactions (before ++ t ∷ after) (remote_query terms) only))
      ≡ (matches rt (to_row t g) filters terms none && all (λ term. holds t term) terms)
unfolding search_transactions
matches-search_transactions rt filters t g terms only before after h k asked plain =
    matches_remotely rt (to_row t g) filters terms _
    ∙ ap (λ b. matches rt (to_row t g) filters terms none && b)
        (ap
            (λ asked_terms.
              found_remotely (to_row t g) terms
                (some (search_terms (before ++ t ∷ after) asked_terms only)))
            (host_terms terms plain)
          ∙ found-search_terms t g terms only before after h k asked)
