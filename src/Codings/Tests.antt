-- ===== src/Codings/Tests.antt =====
-- Runs of the body decoding of src/core/rules.ts, with a toy zlib.
use tapline.Base.{
  ℕ, ◌≡◌, refl, none, some, List, [], ◌∷◌, length, text, text_eq, lower, trim, before, is_empty,
  leb, if◌then◌else◌, arith,
}
use tapline.Codings.{Zlib, Decoder, decode_body, decode_by, decoder_for, first_coding, untouched}
use tapline.Codings.Laws.{Returns, IsCapped, IsCappedZlib, decode_body-Returns}

-- Doubles a body of one byte.
abbrev doubled : List ℕ → List ℕ
doubled [] = []
doubled (b ∷ bytes) = b ∷ b ∷ doubled bytes

abbrev double : Decoder
double bytes most = if leb (length (doubled bytes)) most then some (doubled bytes) else none

double-IsCapped : IsCapped double
double-IsCapped bytes most out h = ground arith

abbrev toy : Zlib
toy = record {
  gunzip = double;
  inflate = double;
  inflate_raw = double;
  brotli = double;
  zstd = none;
}

toy-IsCappedZlib : IsCappedZlib toy
toy-IsCappedZlib = record {
  gunzip = double-IsCapped;
  inflate = double-IsCapped;
  inflate_raw = double-IsCapped;
  brotli = double-IsCapped;
  zstd = λ d e. cc;
}

gzip_runs :
    decode_body toy (7 ∷ []) (some (text " GZip , br")) 4
    ≡ record { bytes = 7 ∷ 7 ∷ []; encoding = some (text "gzip") }
unfolding decode_body decode_by decoder_for first_coding text text_eq lower trim before is_empty
gzip_runs = refl

too_long_stays : decode_body toy (7 ∷ []) (some (text "gzip")) 1 ≡ untouched (7 ∷ [])
unfolding decode_body decode_by decoder_for first_coding text text_eq lower trim before is_empty
too_long_stays = refl

-- A name that the table inherits.
constructor_runs :
    decode_body toy (7 ∷ 8 ∷ []) (some (text "Constructor")) 1
    ≡ record { bytes = 7 ∷ 8 ∷ []; encoding = some (text "constructor") }
unfolding decode_body decode_by decoder_for first_coding text text_eq lower trim before is_empty
constructor_runs = refl

decode_body-Returns_example :
    Returns toy (7 ∷ []) (some (text "gzip")) 4 (decode_body toy (7 ∷ []) (some (text "gzip")) 4)
decode_body-Returns_example =
    decode_body-Returns toy (7 ∷ []) (some (text "gzip")) 4 toy-IsCappedZlib
