-- ===== src/Codings/Laws.antt =====
-- What `decodeBody` returns, on every branch.
use tapline.Base.{
  ℕ, ◌≤◌, ◌≡◌, inl, inr, ◌⊎◌, refl, sym, ap, ◌∙◌, true, arith, ◌||◌, Option, none, some, List, [],
  ◌∷◌, length, Text, text, text_eq, is_empty, Option-cases, Bool-cases,
}
use mathlib.Core.Path.{subst}
use mathlib.Core.Option.{some-injective, none-ne-some}
use tapline.Codings.{
  Coding, gzip, x_gzip, deflate, br, zstd, object_constructor, object_prototype, object_of,
  coding_of, decoder_of, decode_by, Zlib, Decoder, Decoded, untouched, decoder_for, decode_body,
  first_coding, or_else,
}

-- What node documents of `maxOutputLength`: more output than that is an exception.
abbrev pub IsCapped : Decoder → Type 0
IsCapped d =
    (bytes : List ℕ) (most : ℕ) (out : List ℕ) → d bytes most ≡ some out → length out ≤ most

pub record IsCappedZlib (zlib : Zlib) : Type 0 where
  pub gunzip : IsCapped zlib.gunzip
  pub inflate : IsCapped zlib.inflate
  pub inflate_raw : IsCapped zlib.inflate_raw
  pub brotli : IsCapped zlib.brotli
  pub zstd : (d : Decoder) → zlib.zstd ≡ some d → IsCapped d

or_else-capped :
    (first second : Option (List ℕ)) (most : ℕ) (out : List ℕ)
    → ((o : List ℕ) → first ≡ some o → length o ≤ most)
    → ((o : List ℕ) → second ≡ some o → length o ≤ most)
    → or_else first second ≡ some out
    → length out ≤ most
or_else-capped (some o) second most out f g h = f out h
or_else-capped none second most out f g h = g out h

-- A decoder respects its bound, or it is the one that changes nothing.
abbrev IsCappedOr : Type 0 → Decoder → Type 0
IsCappedOr Named d = IsCapped d ⊎ ((d ≡ object_of) × Named)

decoder_of-IsCappedOr :
    (zlib : Zlib) (coding : Coding) (d : Decoder)
    → IsCappedZlib zlib
    → decoder_of zlib coding ≡ some d
    → IsCappedOr (coding ≡ object_constructor) d
unfolding decoder_of
decoder_of-IsCappedOr zlib gzip d c e = inl (subst IsCapped (some-injective _ _ e) c.gunzip)
decoder_of-IsCappedOr zlib x_gzip d c e = inl (subst IsCapped (some-injective _ _ e) c.gunzip)
decoder_of-IsCappedOr zlib deflate d c e = inl (
    subst IsCapped (some-injective _ _ e) (λ bytes most out h.
      or_else-capped (zlib.inflate bytes most) (zlib.inflate_raw bytes most) most out
        (c.inflate bytes most) (c.inflate_raw bytes most) h))
decoder_of-IsCappedOr zlib br d c e = inl (subst IsCapped (some-injective _ _ e) c.brotli)
decoder_of-IsCappedOr zlib zstd d c e = inl (c.zstd d e)
decoder_of-IsCappedOr zlib object_constructor d c e = inr (sym (some-injective _ _ e), refl)
decoder_of-IsCappedOr zlib object_prototype d c e =
    inl (subst IsCapped (some-injective _ _ e) (λ bytes most out h. absurd (none-ne-some out h)))

coding_of-constructor :
    (encoding : Text)
    → coding_of encoding ≡ some object_constructor
    → text_eq encoding (text "constructor") ≡ true
unfolding coding_of
coding_of-constructor encoding e = ground arith

decoder_for-IsCappedOr :
    (zlib : Zlib) (encoding : Text) (d : Decoder)
    → IsCappedZlib zlib
    → decoder_for zlib encoding ≡ some d
    → IsCappedOr (text_eq encoding (text "constructor") ≡ true) d
unfolding decoder_for
decoder_for-IsCappedOr zlib encoding d c e = elim (Option-cases (coding_of encoding)) [
  | inl miss ↦ cc (rw (miss, decoder_for) at e)
  | inr (coding, hit) ↦ elim (decoder_of-IsCappedOr zlib coding d c (rw (hit, decoder_for) at e)) [
    | inl capped ↦ inl capped
    | inr (same, is) ↦ inr (same, coding_of-constructor encoding (hit ∙ ap (λ k. some k) is))
  ]
]

-- What is returned of `bytes`: either the same bytes and no encoding, or the output of the decoder
-- that the first coding of the header names, which is then the encoding, within the bound; or, under
-- the name `constructor`, the same bytes and that name.
pub data Returns (zlib : Zlib) (bytes : List ℕ) (header : Option Text) (most : ℕ)
    : Decoded → Type 0 where
  same : Returns zlib bytes header most (untouched bytes)
  decoded :
      {h : Text} {d : Decoder} {out : List ℕ}
      → header ≡ some h
      → decoder_for zlib (first_coding h) ≡ some d
      → d bytes most ≡ some out
      → length out ≤ most
      → Returns zlib bytes header most (record { bytes = out; encoding = some (first_coding h) })
  inherited :
      {h : Text}
      → header ≡ some h
      → text_eq (first_coding h) (text "constructor") ≡ true
      → Returns zlib bytes header most (record { bytes = bytes; encoding = some (first_coding h) })

decode_by-Returns :
    (zlib : Zlib) (bytes : List ℕ) (h : Text) (most : ℕ) (o : Option Decoder)
    → IsCappedZlib zlib
    → decoder_for zlib (first_coding h) ≡ o
    → Returns zlib bytes (some h) most (decode_by o (first_coding h) bytes most)
unfolding decode_by
decode_by-Returns zlib bytes h most none c e = same
decode_by-Returns zlib [] h most (some d) c e = same
decode_by-Returns zlib (b ∷ bytes) h most (some d) c e = elim (Option-cases (d (b ∷ bytes) most)) [
  | inl failed ↦ rw failed same
  | inr (out, ran) ↦ rw ran (elim (decoder_for-IsCappedOr zlib (first_coding h) d c e) [
    | inl capped ↦ decoded refl e ran (capped (b ∷ bytes) most out ran)
    | inr (same_as, named) ↦
        subst
          (λ o.
            Returns zlib (b ∷ bytes) (some h) most
              (record { bytes = o; encoding = some (first_coding h) }))
          (some-injective _ _ (sym (ap (λ f. f (b ∷ bytes) most) same_as) ∙ ran))
          (inherited refl named)
  ])
]

-- Whatever the body and the header, with decoders that respect their bound the result is the body
-- untouched and no encoding, or at most `most` decoded bytes and the encoding they came from, or,
-- where the first coding of the header is `constructor`, the body untouched, of any length, and that
-- name as its encoding.
pub decode_body-Returns :
    (zlib : Zlib) (bytes : List ℕ) (header : Option Text) (most : ℕ)
    → IsCappedZlib zlib
    → Returns zlib bytes header most (decode_body zlib bytes header most)
unfolding decode_body
decode_body-Returns zlib bytes none most c = same
decode_body-Returns zlib bytes (some h) most c =
    elim (Bool-cases (is_empty (first_coding h) || text_eq (first_coding h) (text "identity"))) [
      | inl plain ↦ rw plain same
      | inr coded ↦
          rw coded (decode_by-Returns zlib bytes h most (decoder_for zlib (first_coding h)) c refl)
    ]
