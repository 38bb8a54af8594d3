-- ===== src/Engine/Buffers.antt =====
-- src/core/engine.ts: what the buffers of `capture` hold after any chunks.
use tapline.Base.{
  subst, ℕ, zero, suc, ◌+◌, ◌-◌, ◌≡◌, refl, sym, ap, ◌∙◌, min, Bool-cases, inl, inr, List, [], ◌∷◌,
  ◌++◌, append-nil, append_assoc, length, length-append, length-take, take, take_all, ltb,
  if◌then◌else◌, arith,
}
use tapline.Engine.{Capture}
use tapline.Engine.Bodies.{capture_chunk, empty_capture, flatten_chunks}

-- The chunks of one side, one after the other.
unfoldable pub capture_chunks : ℕ → Capture → List (List ℕ) → Capture
capture_chunks most c [] = c
capture_chunks most c (chunk ∷ chunks) = capture_chunks most (capture_chunk most c chunk) chunks

flatten_chunks-append :
    (xs : List (List ℕ)) (chunk : List ℕ)
    → flatten_chunks (xs ++ chunk ∷ []) ≡ flatten_chunks xs ++ chunk
flatten_chunks-append [] chunk = append-nil chunk
flatten_chunks-append (x ∷ xs) chunk =
    ap (λ r. x ++ r) (flatten_chunks-append xs chunk)
    ∙ sym (append_assoc x (flatten_chunks xs) chunk)

take_none : (n : ℕ) (xs : List ℕ) → n ≡ 0 → take n xs ≡ []
take_none n xs e = ap (λ k. take k xs) e

take-nil : (n : ℕ) → take {A = ℕ} n [] ≡ []
take-nil zero = refl
take-nil (suc n) = refl

take-over : (n : ℕ) (xs ys : List ℕ) → take n (xs ++ ys) ≡ take n xs ++ take (n - length xs) ys
take-over zero [] ys = refl
take-over zero (x ∷ xs) ys = sym (take_none (0 - suc (length xs)) ys (omega arith))
take-over (suc n) [] ys = let same : suc n ≡ suc n - 0 = omega arith in ap (λ k. take k ys) same
take-over (suc n) (x ∷ xs) ys =
    let left : n - length xs ≡ suc n - suc (length xs) = omega arith in
    ap (λ r. x ∷ r) (take-over n xs ys) ∙ ap (λ k. x ∷ (take n xs ++ take k ys)) left

-- A buffer that holds what there was of `seen`, up to `most` bytes.
pub record IsPrefix (most : ℕ) (seen : List ℕ) (c : Capture) : Type 0 where
  pub chunks : flatten_chunks c.chunks ≡ take most seen
  pub retained : c.retained ≡ min most (length seen)
  pub total : c.total ≡ length seen

slice-take : (n : ℕ) (xs : List ℕ) → (if ltb n (length xs) then take n xs else xs) ≡ take n xs
slice-take n xs = ground (arith, take_all n xs)

room-left :
    (most : ℕ) (seen : List ℕ) (c : Capture)
    → IsPrefix most seen c
    → most - c.retained ≡ most - length seen
room-left most seen c h = ground (arith, h.retained)

capture_chunk-IsPrefix :
    (most : ℕ) (seen chunk : List ℕ) (c : Capture)
    → IsPrefix most seen c
    → IsPrefix most (seen ++ chunk) (capture_chunk most c chunk)
unfolding capture_chunk
capture_chunk-IsPrefix most seen chunk c h =
    let room = room-left most seen c h in
    let over = take-over most seen chunk in
    let grown = length-append seen chunk in
    let all : c.total + length chunk ≡ length (seen ++ chunk) = omega (arith, h.total, grown) in
    elim (Bool-cases (ltb 0 (most - c.retained))) [
      | inl free ↦
          let cut = slice-take (most - c.retained) chunk in
          let bytes : flatten_chunks (c.chunks ++ take (most - c.retained) chunk ∷ [])
              ≡ take most (seen ++ chunk) =
            flatten_chunks-append c.chunks (take (most - c.retained) chunk)
            ∙ (ap (λ r. r ++ take (most - c.retained) chunk) h.chunks
                ∙ (ap (λ n. take most seen ++ take n chunk) room ∙ sym over)) in
          let kept : c.retained + length (take (most - c.retained) chunk)
              ≡ min most (length (seen ++ chunk)) =
            ground (arith, h.retained, room, grown, length-take (most - c.retained) chunk) in
          rw (free, cut) (record { chunks = bytes; retained = kept; total = all })
      | inr full ↦
          let none_left : most - length seen ≡ 0 = ground (arith, room, full) in
          let bytes : flatten_chunks c.chunks ≡ take most (seen ++ chunk) =
            h.chunks
            ∙ (sym (append-nil (take most seen))
                ∙ (ap (λ r. take most seen ++ r)
                      (sym (take_none (most - length seen) chunk none_left))
                    ∙ sym over)) in
          let kept : c.retained ≡ min most (length (seen ++ chunk)) =
            ground (arith, h.retained, room, grown, full) in
          rw full (record { chunks = bytes; retained = kept; total = all })
    ]

capture_chunks-IsPrefix :
    (most : ℕ) (chunks : List (List ℕ)) (seen : List ℕ) (c : Capture)
    → IsPrefix most seen c
    → IsPrefix most (seen ++ flatten_chunks chunks) (capture_chunks most c chunks)
unfolding capture_chunks
capture_chunks-IsPrefix most [] seen c h = rw append-nil h
capture_chunks-IsPrefix most (chunk ∷ chunks) seen c h =
    subst (λ r. IsPrefix most r (capture_chunks most (capture_chunk most c chunk) chunks))
      (append_assoc seen chunk (flatten_chunks chunks))
      (capture_chunks-IsPrefix most chunks (seen ++ chunk) (capture_chunk most c chunk)
        (capture_chunk-IsPrefix most seen chunk c h))

-- However a body is cut into chunks, the buffer holds its first `most` bytes, counts them, and
-- counts all of its bytes.
pub capture_chunks_lem :
    (most : ℕ) (chunks : List (List ℕ))
    → IsPrefix most (flatten_chunks chunks) (capture_chunks most empty_capture chunks)
capture_chunks_lem most chunks =
    capture_chunks-IsPrefix most chunks [] empty_capture
      (record { chunks = sym (take-nil most); retained = omega arith; total = refl })
