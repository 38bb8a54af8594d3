-- ===== src/ProtoRaw/Tests.antt =====
-- Runs of src/shared/protoRaw.ts.
use tapline.ProtoRaw.Messages.{
  Decoder, number, words, nested, repeated, and, last, field, empty, push_value, add_field,
  printable, bytes_value, value_of, field_at, decode_from, decode_raw,
}
use tapline.Base.{text, ◌≡◌, refl, true, none, some, List, [], ◌∷◌, ◌++◌, arith}
use tapline.ProtoRaw.{GrpcFrame, split_frames, varint, varint_from, take_bytes}
use tapline.ProtoRaw.Frames.{write_frames, split_frames-write_frames}

abbrev two_frames : List GrpcFrame
two_frames = record { flags = 0; bytes = 7 ∷ 8 ∷ [] } ∷ record { flags = 1; bytes = [] } ∷ []

split_frames-write_frames_example :
    split_frames (write_frames two_frames ++ 0 ∷ 0 ∷ [])
    ≡ record { frames = two_frames; incomplete = true }
split_frames-write_frames_example =
    split_frames-write_frames two_frames (0 ∷ 0 ∷ []) (omega arith, (omega arith, tt)) (omega arith)

varint_runs : varint (0xac ∷ 0x02 ∷ 9 ∷ []) ≡ some (300, 9 ∷ [])
unfolding varint varint_from
varint_runs = refl

varint_truncated : varint (0xac ∷ []) ≡ none
unfolding varint varint_from
varint_truncated = refl

abbrev ascii : Decoder
ascii = record { utf8 = λ bytes. some bytes; base64 = λ bytes. bytes }

-- A number, a text, a repeated field, and a message within the message.
decodes :
    decode_raw ascii (8 ∷ 150 ∷ 1 ∷ 18 ∷ 1 ∷ 65 ∷ 8 ∷ 7 ∷ 26 ∷ 2 ∷ 8 ∷ 1 ∷ [])
    ≡ some (
        field 1
          (repeated (and (number 150) (last (number 7))))
          (field 2 (words (text "A")) (field 3 (nested (field 1 (number 1) empty)) empty)))
unfolding decode_raw decode_from field_at value_of bytes_value printable add_field push_value varint
    varint_from take_bytes text
decodes = refl
