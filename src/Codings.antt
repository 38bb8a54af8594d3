-- ===== src/Codings.antt =====
-- src/core/rules.ts: decoding a body by its Content-Encoding, and the media types of a local answer.
-- The decoders of node:zlib are the argument `zlib`: `none` is an exception, and each is given the
-- bound on its output. `JSON.parse` is the test `is_json`.
pub mod Laws
mod Tests
use tapline.Base.{
  ℕ, ◌*◌, ◌≤◌, ◌≡◌, Bool, true, false, ◌||◌, Option, none, some, List, [], ◌∷◌, length, Text, text,
  text_eq, lower, trim, trim_start, before, is_empty, if◌then◌else◌, ◌==◌,
}

abbrev pub Decoder : Type 0
Decoder = List ℕ → ℕ → Option (List ℕ)

pub record Zlib : Type 0 where
  pub gunzip : Decoder
  pub inflate : Decoder
  pub inflate_raw : Decoder
  pub brotli : Decoder
  -- Older runtimes have no zstd.
  pub zstd : Option Decoder

abbrev pub max_decoded_bytes : ℕ
max_decoded_bytes = 64 * 1024 * 1024

-- `try { … } catch { … }` of two decoders.
abbrev pub or_else : Option (List ℕ) → Option (List ℕ) → Option (List ℕ)
or_else (some out) second = some out
or_else none second = second

-- The keys of the table `decoders` that a text in lower case can be: its own, and the two that an
-- object literal inherits.
pub data Coding : Type 0 where
  gzip x_gzip deflate br zstd : Coding
  object_constructor object_prototype : Coding

unfoldable pub coding_of : Text → Option Coding
coding_of encoding =
    if text_eq encoding (text "gzip")
    then some gzip
    else if text_eq encoding (text "x-gzip")
    then some x_gzip
    else if text_eq encoding (text "deflate")
    then some deflate
    else if text_eq encoding (text "br")
    then some br
    else if text_eq encoding (text "zstd")
    then some zstd
    else if text_eq encoding (text "constructor")
    then some object_constructor
    else if text_eq encoding (text "__proto__")
    then some object_prototype
    else none

-- `Object(bytes, maxOutputLength)` is `bytes`.
abbrev pub object_of : Decoder
object_of bytes most = some bytes

-- `Object.prototype` is there, but to call it is a TypeError.
abbrev pub no_function : Decoder
no_function bytes most = none

unfoldable pub decoder_of : Zlib → Coding → Option Decoder
decoder_of zlib gzip = some zlib.gunzip
decoder_of zlib x_gzip = some zlib.gunzip
decoder_of zlib deflate =
    some (λ bytes most. or_else (zlib.inflate bytes most) (zlib.inflate_raw bytes most))
decoder_of zlib br = some zlib.brotli
decoder_of zlib zstd = zlib.zstd
decoder_of zlib object_constructor = some object_of
decoder_of zlib object_prototype = some no_function

-- `decoders[encoding]`.
unfoldable pub decoder_for : Zlib → Text → Option Decoder
unfolding coding_of decoder_of
decoder_for zlib encoding = elim (coding_of encoding) [
  | none ↦ none
  | some coding ↦ decoder_of zlib coding
]

pub record Decoded : Type 0 where
  pub bytes : List ℕ
  pub encoding : Option Text

abbrev pub untouched : List ℕ → Decoded
untouched bytes = record { bytes = bytes; encoding = none }

-- `contentEncoding?.split(',')[0].trim().toLowerCase()`.
unfoldable pub first_coding : Text → Text
first_coding header = lower (trim (before b',' header))

-- The decoder runs, unless the body is empty or there is none.
unfoldable pub decode_by : Option Decoder → Text → List ℕ → ℕ → Decoded
decode_by none encoding bytes most = untouched bytes
decode_by (some decoder) encoding [] most = untouched []
decode_by (some decoder) encoding (b ∷ bytes) most = elim (decoder (b ∷ bytes) most) [
  | none ↦ untouched (b ∷ bytes)
  | some out ↦ record { bytes = out; encoding = some encoding }
]

unfoldable pub decode_body : Zlib → List ℕ → Option Text → ℕ → Decoded
decode_body zlib bytes none most = untouched bytes
decode_body zlib bytes (some header) most =
    let encoding = first_coding header in
    if is_empty encoding || text_eq encoding (text "identity")
    then untouched bytes
    else decode_by (decoder_for zlib encoding) encoding bytes most

-- The table `mimes`; `extension` is node's `extname`.
unfoldable pub mime_of : Text → Option Text
mime_of extension =
    if text_eq extension (text ".json")
    then some (text "application/json")
    else if text_eq extension (text ".html")
    then some (text "text/html; charset=utf-8")
    else if text_eq extension (text ".htm")
    then some (text "text/html; charset=utf-8")
    else if text_eq extension (text ".txt")
    then some (text "text/plain; charset=utf-8")
    else if text_eq extension (text ".xml")
    then some (text "application/xml")
    else if text_eq extension (text ".js")
    then some (text "text/javascript")
    else if text_eq extension (text ".mjs")
    then some (text "text/javascript")
    else if text_eq extension (text ".css")
    then some (text "text/css")
    else if text_eq extension (text ".svg")
    then some (text "image/svg+xml")
    else if text_eq extension (text ".png")
    then some (text "image/png")
    else if text_eq extension (text ".jpg")
    then some (text "image/jpeg")
    else if text_eq extension (text ".jpeg")
    then some (text "image/jpeg")
    else if text_eq extension (text ".gif")
    then some (text "image/gif")
    else if text_eq extension (text ".webp")
    then some (text "image/webp")
    else if text_eq extension (text ".pdf")
    then some (text "application/pdf")
    else if text_eq extension (text ".wasm")
    then some (text "application/wasm")
    else none

unfoldable pub mime_for : (Text → Text) → Text → Text
mime_for extname path = elim (mime_of (lower (extname path))) [
  | some mime ↦ mime
  | none ↦ text "application/octet-stream"
]

-- `/^\s*</.test(body)`.
abbrev pub starts_tag : Text → Bool
starts_tag [] = false
starts_tag (c ∷ s) = c == b'<'

unfoldable pub mime_for_body : (Text → Bool) → Text → Text
mime_for_body is_json body =
    if is_json body
    then text "application/json"
    else if starts_tag (trim_start body)
    then text "text/html; charset=utf-8"
    else text "text/plain; charset=utf-8"
