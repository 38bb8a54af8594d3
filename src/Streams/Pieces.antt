-- ===== src/Streams/Pieces.antt =====
-- src/core/streams.ts: how `pipe` cuts the bytes of its source.
use tapline.Base.{
  ℕ, zero, suc, ◌≤◌, ◌≡◌, refl, ap, ◌∙◌, List, [], ◌∷◌, ◌++◌, length, take, drop, length-take,
  length-drop, take-append-drop, All, arith,
}
use tapline.Streams.{pieces, pieces_from, chunk_size}

abbrev pub joined : List (List ℕ) → List ℕ
joined [] = []
joined (piece ∷ rest) = piece ++ joined rest

-- A piece fits a chunk and is not empty.
abbrev pub IsPiece : List ℕ → Type 0
IsPiece piece = (length piece ≤ chunk_size) × (1 ≤ length piece)

joined-pieces_from :
    (fuel : ℕ) (bytes : List ℕ) → length bytes ≤ fuel → joined (pieces_from fuel bytes) ≡ bytes
unfolding pieces_from
joined-pieces_from fuel [] h = refl
joined-pieces_from zero (b ∷ bytes) h = ground (arith, h)
joined-pieces_from (suc fuel) (b ∷ bytes) h =
    let fits : length (drop chunk_size (b ∷ bytes)) ≤ fuel =
      omega (arith, length-drop chunk_size (b ∷ bytes), h) in
    ap (λ r. take chunk_size (b ∷ bytes) ++ r)
      (joined-pieces_from fuel (drop chunk_size (b ∷ bytes)) fits)
    ∙ take-append-drop chunk_size (b ∷ bytes)

pieces_from-All : (fuel : ℕ) (bytes : List ℕ) → All IsPiece (pieces_from fuel bytes)
unfolding pieces_from
pieces_from-All fuel [] = tt
pieces_from-All zero (b ∷ bytes) = tt
pieces_from-All (suc fuel) (b ∷ bytes) =
    let measured = length-take chunk_size (b ∷ bytes) in
    (
      (omega (arith, measured), omega (arith, measured)),
      pieces_from-All fuel (drop chunk_size (b ∷ bytes)),
    )

-- The pieces of any bytes are those bytes in order, and each has from 1 to 65536 of them.
pub pieces_lem : (bytes : List ℕ) → (joined (pieces bytes) ≡ bytes) × All IsPiece (pieces bytes)
unfolding pieces
pieces_lem bytes =
    (joined-pieces_from (length bytes) bytes (omega arith), pieces_from-All (length bytes) bytes)
