-- ===== src/ProtoRaw/Messages.antt =====
-- src/shared/protoRaw.ts: decode and decodeRaw. TextDecoder and base64 are parameters.
use tapline.Base.{
  ℕ, zero, suc, ◌+◌, ◌*◌, ◌/◌, ◌%◌, Bool, ◌&&◌, ◌||◌, Option, none, some, List, [], ◌∷◌, Text, any,
  decimal, length, leb, ltb, ◌==◌, if◌then◌else◌,
}
use tapline.ProtoRaw.{take_bytes, varint}

pub record Decoder : Type 0 where
  -- The text of bytes that are UTF-8.
  pub utf8 : List ℕ → Option Text
  pub base64 : List ℕ → Text

mutual
  pub data RawValue : Type 0 where
    number : ℕ → RawValue
    words : Text → RawValue
    nested : RawMessage → RawValue
    repeated : RawValues → RawValue
    coded : Text → RawValue

  pub data RawValues : Type 0 where
    last : RawValue → RawValues
    and : RawValue → RawValues → RawValues

  -- The fields of an object, by ascending numbers.
  pub data RawMessage : Type 0 where
    empty : RawMessage
    field : ℕ → RawValue → RawMessage → RawMessage

-- `existing.push(value)`.
unfoldable pub push_value : RawValues → RawValue → RawValues
push_value (last v) value = and v (last value)
push_value (and v vs) value = and v (push_value vs value)

abbrev added : RawValue → RawValue → RawValue
added (repeated vs) value = repeated (push_value vs value)
added (number n) value = repeated (and (number n) (last value))
added (words s) value = repeated (and (words s) (last value))
added (nested m) value = repeated (and (nested m) (last value))
added (coded s) value = repeated (and (coded s) (last value))

-- `add`.
unfoldable pub add_field : ℕ → RawValue → RawMessage → RawMessage
unfolding push_value
add_field n value empty = field n value empty
add_field n value (field k v fields) =
    let rest = add_field n value fields in
    if n == k
    then field k (added v value) fields
    else if ltb n k
    then field n value (field k v fields)
    else field k v rest

-- A number above 2 ^ 53 - 1 is a text.
abbrev pub safe_number : ℕ → RawValue
safe_number n = if leb n 9007199254740991 then number n else words (decimal n)

abbrev is_control : ℕ → Bool
is_control c = leb c 8 || (c == 11 || (c == 12 || ((leb 14 c && leb c 31) || c == 127)))

abbrev plain_text : Option Text → Option Text
plain_text none = none
plain_text (some s) = if any is_control s then none else some s

unfoldable pub printable : Decoder → List ℕ → Option Text
printable d [] = some []
printable d (b ∷ bytes) = plain_text (d.utf8 (b ∷ bytes))

-- `tryDecode`: an empty message counts as none.
abbrev if_any : Option RawMessage → Option RawMessage
if_any none = none
if_any (some empty) = none
if_any (some (field n v fields)) = some (field n v fields)

abbrev or_coded : Decoder → List ℕ → Option RawMessage → RawValue
or_coded d bytes none = coded (d.base64 bytes)
or_coded d bytes (some m) = nested m

-- `bytesValue`, given what `decode` gives.
unfoldable pub bytes_value : Decoder → List ℕ → Option RawMessage → RawValue
unfolding printable
bytes_value d bytes inner = elim (printable d bytes) [
  | some s ↦ words s
  | none ↦ or_coded d bytes (if_any inner)
]

-- The number in bytes, the lowest first.
unfoldable pub little_endian : List ℕ → ℕ
little_endian [] = 0
little_endian (b ∷ bytes) = b + 256 * little_endian bytes

pub record Field : Type 0 where
  pub at : ℕ
  pub value : RawValue
  pub rest : List ℕ

abbrev pub numeral : (ℕ → RawValue) → ℕ → Option (ℕ × List ℕ) → Option Field
numeral shape at none = none
numeral shape at (some (n, rest)) = some (record { at = at; value = shape n; rest = rest })

abbrev pub fixed : (ℕ → RawValue) → ℕ → Option (List ℕ × List ℕ) → Option Field
fixed shape at none = none
fixed shape at (some (bytes, rest)) =
    some (record { at = at; value = shape (little_endian bytes); rest = rest })

abbrev pub delimited :
    Decoder → (List ℕ → Option RawMessage) → ℕ → Option (List ℕ × List ℕ) → Option Field
delimited d inner at none = none
delimited d inner at (some (bytes, rest)) =
    some (record { at = at; value = bytes_value d bytes (inner bytes); rest = rest })

abbrev pub sized : Option (ℕ × List ℕ) → Option (List ℕ × List ℕ)
sized none = none
sized (some (n, rest)) = take_bytes n rest

-- The value of a field, by the lower three bits of its tag.
unfoldable pub value_of : Decoder → (List ℕ → Option RawMessage) → ℕ → ℕ → List ℕ → Option Field
unfolding bytes_value little_endian
value_of d inner at wire bytes =
    if wire == 0
    then numeral safe_number at (varint bytes)
    else if wire == 1
    then fixed safe_number at (take_bytes 8 bytes)
    else if wire == 2
    then delimited d inner at (sized (varint bytes))
    else if wire == 5
    then fixed number at (take_bytes 4 bytes)
    else none

abbrev pub tagged : Decoder → (List ℕ → Option RawMessage) → Option (ℕ × List ℕ) → Option Field
tagged d inner none = none
tagged d inner (some (tag, bytes)) =
    let at = tag / 8 in
    if ltb at 1 || ltb 536870911 at then none else value_of d inner at (tag % 8) bytes

-- A round of the loop of `decode`.
unfoldable pub field_at : Decoder → (List ℕ → Option RawMessage) → List ℕ → Option Field
unfolding value_of
field_at d inner bytes = tagged d inner (varint bytes)

-- The loop of `decode`; `fuel` is at least the number of bytes. `none` is an error.
unfoldable pub decode_from : Decoder → ℕ → RawMessage → List ℕ → Option RawMessage
unfolding field_at add_field
decode_from d fuel m [] = some m
decode_from d zero m (b ∷ bytes) = none
decode_from d (suc fuel) m (b ∷ bytes) =
    elim (field_at d (λ inner. decode_from d fuel empty inner) (b ∷ bytes)) [
      | none ↦ none
      | some f ↦ decode_from d fuel (add_field f.at f.value m) f.rest
    ]

-- `decodeRaw`; what `decode` throws is `none`.
unfoldable pub decode_raw : Decoder → List ℕ → Option RawMessage
unfolding decode_from
decode_raw d bytes = decode_from d (length bytes) empty bytes
