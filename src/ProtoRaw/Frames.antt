-- ===== src/ProtoRaw/Frames.antt =====
-- src/shared/protoRaw.ts: what `splitFrames` finds in a body that frames were written to.
use tapline.Base.{
  ℕ, zero, suc, ◌+◌, ◌^◌, ◌≤◌, ◌<◌, ◌≡◌, refl, sym, ap, ◌∙◌, true, false, List, [], ◌∷◌, ◌++◌,
  append_assoc, length, length-append, take, take-append, drop, drop-append, All, leb, ltb, arith,
}
use tapline.Wire.{write_uint32_be, read_uint32_be}
use tapline.Wire.Bytes.{length-write_uint32_be, read-write_uint32_be}
use tapline.ProtoRaw.{GrpcFrame, SplitFrames, split_from, split_frames, nonempty}

-- A frame as gRPC writes it.
unfoldable pub write_frame : GrpcFrame → List ℕ
write_frame f = f.flags ∷ (write_uint32_be (length f.bytes) ++ f.bytes)

unfoldable pub write_frames : List GrpcFrame → List ℕ
unfolding write_frame
write_frames [] = []
write_frames (f ∷ fs) = write_frame f ++ write_frames fs

abbrev pub IsShort : GrpcFrame → Type 0
IsShort f = length f.bytes < 2 ^ 32

split_from-tail :
    (fuel : ℕ) (tail : List ℕ)
    → length tail < 5
    → split_from fuel tail ≡ record { frames = []; incomplete = nonempty tail }
unfolding split_from
split_from-tail zero tail h = refl
split_from-tail (suc fuel) [] h = refl
split_from-tail (suc fuel) (b ∷ tail) h = ground (arith, h)

split_from-frame :
    (fuel : ℕ) (flags : ℕ) (bytes rest : List ℕ)
    → length bytes < 2 ^ 32
    → split_from (suc fuel) (flags ∷ (write_uint32_be (length bytes) ++ (bytes ++ rest))) ≡ record {
      frames = record { flags = flags; bytes = bytes } ∷ (split_from fuel rest).frames;
      incomplete = (split_from fuel rest).incomplete;
    }
unfolding split_from
split_from-frame fuel flags bytes rest h =
    let four = length-write_uint32_be (length bytes) in
    let body = write_uint32_be (length bytes) ++ (bytes ++ rest) in
    let head : take 4 body ≡ write_uint32_be (length bytes) =
      ap (λ k. take k body) (sym four)
      ∙ take-append (write_uint32_be (length bytes)) (bytes ++ rest) in
    let behind : drop 4 body ≡ bytes ++ rest =
      ap (λ k. drop k body) (sym four)
      ∙ drop-append (write_uint32_be (length bytes)) (bytes ++ rest) in
    let size : read_uint32_be (take 4 body) ≡ length bytes =
      ap read_uint32_be head ∙ read-write_uint32_be (length bytes) h in
    let all : length body ≡ 4 + (length bytes + length rest) = omega (
      arith,
      length-append (write_uint32_be (length bytes)) (bytes ++ rest),
      four,
      length-append bytes rest,
    ) in
    let long : leb 4 (length body) ≡ true = ground (arith, all) in
    let fits : ltb (length body) (4 + length bytes) ≡ false = ground (arith, all) in
    rw (long, size, fits, behind, take-append bytes rest, drop-append bytes rest) refl

written :
    (f : GrpcFrame) (fs : List GrpcFrame) (tail : List ℕ)
    → write_frames (f ∷ fs) ++ tail
      ≡ f.flags ∷ (write_uint32_be (length f.bytes) ++ (f.bytes ++ (write_frames fs ++ tail)))
unfolding write_frames write_frame
written f fs tail =
    ap (λ r. f.flags ∷ r)
      (append_assoc (write_uint32_be (length f.bytes) ++ f.bytes) (write_frames fs) tail
        ∙ append_assoc (write_uint32_be (length f.bytes)) f.bytes (write_frames fs ++ tail))

split_from-written :
    (fuel : ℕ) (fs : List GrpcFrame) (tail : List ℕ)
    → length fs ≤ fuel
    → All IsShort fs
    → length tail < 5
    → split_from fuel (write_frames fs ++ tail) ≡ record { frames = fs; incomplete = nonempty tail }
unfolding write_frames
split_from-written fuel [] tail enough short h = split_from-tail fuel tail h
split_from-written zero (f ∷ fs) tail enough short h = ground (arith, enough)
split_from-written (suc fuel) (f ∷ fs) tail enough (short, shorts) h =
    let rest = write_frames fs ++ tail in
    let found = split_from-written fuel fs tail (omega (arith, enough)) shorts h in
    ap (λ r. split_from (suc fuel) r) (written f fs tail)
    ∙ (split_from-frame fuel f.flags f.bytes rest short
        ∙ ap (λ (r : SplitFrames). record { frames = f ∷ r.frames; incomplete = r.incomplete })
            found)

length-write_frames-le : (fs : List GrpcFrame) → length fs ≤ length (write_frames fs)
unfolding write_frames write_frame
length-write_frames-le [] = omega arith
length-write_frames-le (f ∷ fs) = omega (
  arith,
  length-write_frames-le fs,
  length-append (write_uint32_be (length f.bytes) ++ f.bytes) (write_frames fs),
)

-- A body that frames were written to, each of less than 2 ^ 32 bytes, and that ends in fewer than
-- five bytes more, splits into those frames; it is incomplete exactly when there are such bytes.
pub split_frames-write_frames :
    (fs : List GrpcFrame) (tail : List ℕ)
    → All IsShort fs
    → length tail < 5
    → split_frames (write_frames fs ++ tail) ≡ record { frames = fs; incomplete = nonempty tail }
unfolding split_frames
split_frames-write_frames fs tail short h =
    split_from-written (length (write_frames fs ++ tail)) fs tail
      (omega (arith, length-write_frames-le fs, length-append (write_frames fs) tail)) short h
