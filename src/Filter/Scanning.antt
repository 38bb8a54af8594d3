-- ===== src/Filter/Scanning.antt =====
-- src/webview/lib/filter.ts: matchAll with `token` comes to its end.
use mathlib.Core.Option.{none-ne-some}
use tapline.Base.{
  ℕ, zero, suc, ◌+◌, ◌≤◌, ◌<◌, ◌≡◌, refl, ap, subst, Bool, true, false, not, Option, none, some,
  List, [], ◌∷◌, Text, length, is_space, ◌==◌, if◌then◌else◌, arith,
}
use tapline.Filter.Query.{
  is_letter, span, Prefix, named, prefix, bare, quoted, value_at, Token, token_at, tokens_from,
  tokens, unless_empty, with_op, plain_token,
}

span-length : (p : ℕ → Bool) (s : Text) → length (span p s).0 + length (span p s).1 ≡ length s
unfolding span
span-length p [] = refl
span-length p (c ∷ s) = ground (arith, span-length p s)

-- A result leaves less than there was.
abbrev pub Leaves {ℓ} : {A : Type ℓ} → Text → Option (A × Text) → Type 0
Leaves s none = Unit {0}
Leaves s (some (a, rest)) = length rest < length s

unless_empty-Leaves :
    (s run rest : Text) → length run + length rest ≡ length s → Leaves s (unless_empty run rest)
unless_empty-Leaves s [] rest e = tt
unless_empty-Leaves s (c ∷ run) rest e = omega (arith, e)

bare-Leaves : (s : Text) → Leaves s (bare s)
unfolding bare
bare-Leaves s = unless_empty-Leaves s _ _ (span-length (λ c. not (is_space c)) s)

with_op-Leaves :
    (minus : Bool) (s name rest : Text)
    → length name + length rest ≡ length s
    → Leaves s (with_op minus name rest)
with_op-Leaves minus s [] rest e = tt
with_op-Leaves minus s (c ∷ name) [] e = tt
with_op-Leaves minus s (c ∷ name) (d ∷ rest) e = ground (arith, e)

named-Leaves : (minus : Bool) (s : Text) → Leaves s (named minus s)
unfolding named
named-Leaves minus s = with_op-Leaves minus s _ _ (span-length (λ c. is_letter c) s)

Leaves-cons {ℓ} :
    {A : Type ℓ} (c : ℕ) (s : Text) (found : Option (A × Text))
    → Leaves s found
    → Leaves (c ∷ s) found
Leaves-cons c s none h = tt
Leaves-cons c s (some (a, rest)) h = omega (arith, h)

prefix-Leaves : (s : Text) → Leaves s (prefix s)
unfolding prefix
prefix-Leaves [] = tt
prefix-Leaves (c ∷ s) =
    by_test (c == b'-') (named true s) (named false (c ∷ s))
      (Leaves-cons c s (named true s) (named-Leaves true s)) (named-Leaves false (c ∷ s))
  where
    by_test :
        (b : Bool) (x y : Option (Prefix × Text))
        → Leaves (c ∷ s) x
        → Leaves (c ∷ s) y
        → Leaves (c ∷ s) (if b then x else y)
    by_test true x y h k = h
    by_test false x y h k = k

quoted-Leaves : (s : Text) → Leaves s (quoted s)
unfolding quoted
quoted-Leaves [] = tt
quoted-Leaves (c ∷ s) = by_rest (c == b'"') (quoted s) (quoted-Leaves s)
  where
    by_rest :
        (b : Bool) (found : Option (Text × Text))
        → Leaves s found
        → Leaves (c ∷ s) (
            if b
            then some ([], s)
            else elim found [ none ↦ none | some (run, after) ↦ some (c ∷ run, after) ])
    by_rest true found h = omega arith
    by_rest false none h = tt
    by_rest false (some (run, after)) h = omega (arith, h)

value_at-Leaves : (s : Text) → Leaves s (value_at s)
unfolding value_at
value_at-Leaves [] = tt
value_at-Leaves (c ∷ s) =
    by_quote (c == b'"') (quoted s) (quoted-Leaves s) (bare (c ∷ s)) (bare-Leaves (c ∷ s))
  where
    by_quote :
        (b : Bool) (found : Option (Text × Text))
        → Leaves s found
        → (word : Option (Text × Text)) → Leaves (c ∷ s) word
        → Leaves (c ∷ s) (if b then elim found [ none ↦ word | some x ↦ some x ] else word)
    by_quote false found h word k = k
    by_quote true none h word k = k
    by_quote true (some (run, after)) h word k = omega (arith, h)

plain_token-Leaves :
    (s : Text) (found : Option (Text × Text)) → Leaves s found → Leaves s (plain_token found)
plain_token-Leaves s none h = tt
plain_token-Leaves s (some (raw, rest)) h = h

pub token_at-Leaves : (s : Text) → Leaves s (token_at s)
unfolding token_at
token_at-Leaves s =
    by_prefix (prefix s) (prefix-Leaves s) (plain_token-Leaves s (value_at s) (value_at-Leaves s))
  where
    by_value :
        (p : Prefix) (rest : Text) (found : Option (Text × Text))
        → length rest < length s
        → Leaves rest found
        → Leaves s (plain_token (value_at s))
        → Leaves s (elim found as (λ x. Option (Token × Text)) [
          | none ↦ plain_token (value_at s)
          | some (raw, after) ↦ some (record { before = some p; raw = raw }, after)
        ])
    by_value p rest none less h k = k
    by_value p rest (some (raw, after)) less h k = omega (arith, less, h)

    by_prefix :
        (found : Option (Prefix × Text))
        → Leaves s found
        → Leaves s (plain_token (value_at s))
        → Leaves s (elim found as (λ x. Option (Token × Text)) [
          | none ↦ plain_token (value_at s)
          | some (p, rest) ↦ elim (value_at rest) as (λ x. Option (Token × Text)) [
            | none ↦ plain_token (value_at s)
            | some (raw, after) ↦ some (record { before = some p; raw = raw }, after)
          ]
        ])
    by_prefix none h k = k
    by_prefix (some (p, rest)) h k = by_value p rest (value_at rest) h (value_at-Leaves rest) k

-- With any two numbers of rounds that are not below the length of the text, the loop finds the same
-- tokens: it came to the end of the text.
pub tokens_from_enough :
    (n m : ℕ) (s : Text) → length s ≤ n → length s ≤ m → tokens_from n s ≡ tokens_from m s
unfolding tokens_from
tokens_from_enough zero zero s h k = refl
tokens_from_enough zero (suc m) [] h k = refl
tokens_from_enough zero (suc m) (c ∷ s) h k = absurd (omega (arith, h))
tokens_from_enough (suc n) zero [] h k = refl
tokens_from_enough (suc n) zero (c ∷ s) h k = absurd (omega (arith, k))
tokens_from_enough (suc n) (suc m) [] h k = refl
tokens_from_enough (suc n) (suc m) (c ∷ s) h k =
    by_token (token_at (c ∷ s)) (token_at-Leaves (c ∷ s))
      (tokens_from_enough n m s (omega (arith, h)) (omega (arith, k)))
      (λ rest less. tokens_from_enough n m rest (omega (arith, h, less)) (omega (arith, k, less)))
  where
    by_token :
        (found : Option (Token × Text))
        → Leaves (c ∷ s) found
        → tokens_from n s ≡ tokens_from m s
        → ((rest : Text) → length rest < length (c ∷ s) → tokens_from n rest ≡ tokens_from m rest)
        → elim found as (λ x. List Token) [
          | none ↦ tokens_from n s
          | some (t, rest) ↦ t ∷ tokens_from n rest
        ]
          ≡ elim found as (λ x. List Token) [
            | none ↦ tokens_from m s
            | some (t, rest) ↦ t ∷ tokens_from m rest
          ]
    by_token none less same ih = same
    by_token (some (t, rest)) less same ih = ap (◌∷◌ t) (ih rest less)

pub tokens-found :
    (s rest : Text) (t : Token) → token_at s ≡ some (t, rest) → tokens s ≡ t ∷ tokens rest
unfolding tokens tokens_from
tokens-found [] rest t e = absurd (none-ne-some _ e)
tokens-found (c ∷ s) rest t e =
    let less : length rest < length (c ∷ s) = subst (Leaves (c ∷ s)) e (token_at-Leaves (c ∷ s)) in
    rw (e, tokens, tokens_from)
      (ap (◌∷◌ t)
        (tokens_from_enough (length s) (length rest) rest (omega (arith, less)) (omega arith)))

pub tokens-skip : (c : ℕ) (s : Text) → token_at (c ∷ s) ≡ none → tokens (c ∷ s) ≡ tokens s
unfolding tokens tokens_from
tokens-skip c s e = rw (e, tokens, tokens_from) refl
