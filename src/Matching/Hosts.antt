-- ===== src/Matching/Hosts.antt =====
-- Which hosts a list of patterns selects.
use tapline.Base.{
  ◌≡◌, refl, sym, ◌∙◌, inl, inr, ◌↔◌, Bool, true, false, not, ◌&&◌, ◌||◌, List, [], ◌∷◌, ◌++◌, Text,
  text, text_eq, text_eq_iff, any, starts_with, starts_with-append, starts_with→append, trim,
  is_empty, ◌==◌, arith, Bool-cases, append-nil,
}
use tapline.Matching.{
  Sorted, sort_pattern, sort_patterns, is_host_intercepted, match_host, match_wildcard, has_star,
}

-- What one pattern says of a host.
pub excludes_trimmed : Text → Text → Bool
excludes_trimmed host [] = false
excludes_trimmed host (c ∷ p) = c == b'!' && not (is_empty p) && match_host p host

pub selects_trimmed : Text → Text → Bool
selects_trimmed host [] = false
selects_trimmed host (c ∷ p) = not (c == b'!') && match_host (c ∷ p) host

pub excludes : Text → Text → Bool
excludes host p = excludes_trimmed host (trim p)

pub selects : Text → Text → Bool
selects host p = selects_trimmed host (trim p)

abbrev matching : Text → List Text → Bool
matching host patterns = any (λ p. match_host p host) patterns

any-append {ℓ} :
    {A : Type ℓ} (p : A → Bool) (xs ys : List A) → any p (xs ++ ys) ≡ (any p xs || any p ys)
any-append p [] ys = refl
any-append p (x ∷ xs) ys = ground (arith, any-append p xs ys)

sort_pattern-any :
    (host : Text) (found : Sorted) (p : Text)
    → (matching host (sort_pattern found p).positive
        ≡ (matching host found.positive || selects_trimmed host p))
      × (matching host (sort_pattern found p).negative
          ≡ (matching host found.negative || excludes_trimmed host p))
unfolding sort_pattern selects_trimmed excludes_trimmed
sort_pattern-any host found [] = ground arith
sort_pattern-any host found (c ∷ p) = ground (
  arith,
  any-append (λ q. match_host q host) found.positive ((c ∷ p) ∷ []),
  any-append (λ q. match_host q host) found.negative (p ∷ []),
)

sort_patterns-any :
    (host : Text) (found : Sorted) (patterns : List Text)
    → (matching host (sort_patterns found patterns).positive
        ≡ (matching host found.positive || any (selects host) patterns))
      × (matching host (sort_patterns found patterns).negative
          ≡ (matching host found.negative || any (excludes host) patterns))
unfolding sort_patterns selects excludes
sort_patterns-any host found [] = ground arith
sort_patterns-any host found (p ∷ patterns) = ground (
  arith,
  sort_pattern-any host found (trim p),
  sort_patterns-any host (sort_pattern found (trim p)) patterns,
)

-- A host is intercepted exactly when no pattern of the list excludes it (`!` and a pattern that
-- matches it) and some pattern without `!` matches it, wherever they stand in the list.
pub is_host_intercepted-eq :
    (patterns : List Text) (host : Text)
    → is_host_intercepted patterns host
      ≡ (not (any (excludes host) patterns) && any (selects host) patterns)
unfolding is_host_intercepted
is_host_intercepted-eq patterns host =
    ground (arith, sort_patterns-any host (record { positive = []; negative = [] }) patterns)

starts_with_refl : (p : Text) → starts_with p p ≡ true
starts_with_refl p = rw (append-nil p) at (starts_with-append p [])

match_wildcard_no_star :
    (p url : Text)
    → trim p ≡ p
    → has_star p ≡ false
    → match_wildcard p url ≡ (is_empty p || text_eq url p || starts_with p url)
unfolding match_wildcard is_empty has_star text text_eq
match_wildcard_no_star [] url e no_star = rw (e, match_wildcard)
match_wildcard_no_star (c ∷ p) url e no_star = rw (e, match_wildcard) (ground arith)

-- A trimmed URL pattern without a star matches exactly the URLs that begin with it.
pub match_wildcard_prefix_iff :
    (p url : Text)
    → trim p ≡ p
    → has_star p ≡ false
    → (match_wildcard p url ≡ true) ↔ ((r : Text) × (url ≡ p ++ r))
match_wildcard_prefix_iff p url e no_star =
    rw (match_wildcard_no_star p url e no_star) (λ h. reads p h, λ (r, same). rw same (found p r))
  where
    found : (q r : Text) → (is_empty q || text_eq (q ++ r) q || starts_with q (q ++ r)) ≡ true
    found q r = ground (arith, starts_with-append q r)

    reads :
        (q : Text)
        → (is_empty q || text_eq url q || starts_with q url) ≡ true
        → (r : Text) × (url ≡ q ++ r)
    reads [] h = (url, refl)
    reads (c ∷ q) h = elim (Bool-cases (text_eq url (c ∷ q))) [
      | inl same ↦ ([], (text_eq_iff url (c ∷ q)).0 same ∙ sym (append-nil (c ∷ q)))
      | inr other ↦ starts_with→append (c ∷ q) url (unfold is_empty in rw other at h)
    ]
