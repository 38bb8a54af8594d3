-- ===== src/ProtoRaw.antt =====
-- src/shared/protoRaw.ts: the frames of a gRPC body, and the varints of a message.
-- A byte is a number below 256. The reader's position is the rest of its bytes.
pub mod Frames
pub mod Messages
pub mod Decoding
mod Tests
use tapline.Base.{
  ℕ, zero, suc, ◌+◌, ◌-◌, ◌*◌, ◌/◌, ◌%◌, ◌^◌, Bool, true, false, not, Option, none, some, List, [],
  ◌∷◌, ◌++◌, length, take, drop, leb, ltb, ◌==◌, if◌then◌else◌,
}
use tapline.Wire.{read_uint32_be}

pub record GrpcFrame : Type 0 where
  pub flags : ℕ
  pub bytes : List ℕ

pub record SplitFrames : Type 0 where
  pub frames : List GrpcFrame
  pub incomplete : Bool

abbrev pub nonempty : List ℕ → Bool
nonempty [] = false
nonempty (b ∷ bytes) = true

abbrev also_frame : GrpcFrame → SplitFrames → SplitFrames
also_frame f r = record { frames = f ∷ r.frames; incomplete = r.incomplete }

-- The loop, on the bytes from `offset` on; `fuel` is at least their number.
unfoldable pub split_from : ℕ → List ℕ → SplitFrames
split_from zero body = record { frames = []; incomplete = nonempty body }
split_from (suc fuel) [] = record { frames = []; incomplete = false }
split_from (suc fuel) (flags ∷ body) =
    let size = read_uint32_be (take 4 body) in
    let after = split_from fuel (drop size (drop 4 body)) in
    if leb 4 (length body)
    then if ltb (length body) (4 + size)
      then record { frames = []; incomplete = true }
      else also_frame (record { flags = flags; bytes = take size (drop 4 body) }) after
    else record { frames = []; incomplete = true }

unfoldable pub split_frames : List ℕ → SplitFrames
unfolding split_from
split_frames body = split_from (length body) body

-- `take`: the next `n` bytes, or an error.
unfoldable pub take_bytes : ℕ → List ℕ → Option (List ℕ × List ℕ)
take_bytes n bytes = if ltb (length bytes) n then none else some (take n bytes, drop n bytes)

-- The loop of `varint`. The groups of seven bits do not overlap, so `|` is a sum.
unfoldable pub varint_from : ℕ → ℕ → List ℕ → Option (ℕ × List ℕ)
varint_from shift result [] = none
varint_from shift result (b ∷ bytes) =
    let result' = result + b % 128 * 2 ^ shift in
    let rest = varint_from (shift + 7) result' bytes in
    if b / 128 % 2 == 0 then some (result', bytes) else if ltb 63 (shift + 7) then none else rest

unfoldable pub varint : List ℕ → Option (ℕ × List ℕ)
unfolding varint_from
varint bytes = varint_from 0 0 bytes
