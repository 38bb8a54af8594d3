-- ===== src/Sse.antt =====
-- src/core/sse.ts: the incremental event-stream parser.
-- `push` takes the characters that node's `StringDecoder` makes of a chunk, as code points.
-- `emit` and `truncate` are the events of the output, in order.
pub mod Bounds
pub mod Lines
pub mod Format
pub mod Events
mod Tests
use tapline.Base.{
  ℕ, zero, suc, ◌+◌, ◌-◌, ◌*◌, ◌^◌, Bool, true, false, not, ◌&&◌, ◌||◌, Option, none, some, List,
  [], ◌∷◌, ◌++◌, Text, text, text_eq, starts_with, join, is_empty, ltb, leb, ◌==◌, if◌then◌else◌,
}

pub record ParsedEvent : Type 0 where
  pub event : Text
  pub payload : Text
  pub last_event_id : Text
  pub retry : Option ℕ

pub data Output : Type 0 where
  emit : ParsedEvent → Output
  truncate : Output

pub record SseParser : Type 0 where
  pub first : Bool
  pub skip_lf : Bool
  pub line : Text
  pub line_length : ℕ
  pub size : ℕ
  pub dropped : Bool
  pub lines : List Text
  pub event : Text
  pub last_event_id : Text
  pub retry : Option ℕ

abbrev pub initial : SseParser
initial = record {
  first = true;
  skip_lf = false;
  line = [];
  line_length = 0;
  size = 0;
  dropped = false;
  lines = [];
  event = [];
  last_event_id = [];
  retry = none;
}

abbrev pub lf : ℕ
lf = 10

abbrev pub cr : ℕ
cr = 13

-- `Buffer.byteLength(char)`.
unfoldable pub byte_length : ℕ → ℕ
byte_length c = if ltb c 0x80 then 1 else if ltb c 0x800 then 2 else if ltb c 0x10000 then 3 else 4

-- The part before the first colon, and the part behind it without one leading space.
unfoldable pub field_name : Text → Text
field_name [] = []
field_name (c ∷ s) = if c == b':' then [] else c ∷ field_name s

unfoldable pub drop_space : Text → Text
drop_space [] = []
drop_space (c ∷ s) = if c == b' ' then s else c ∷ s

unfoldable pub field_value : Text → Text
field_value [] = []
field_value (c ∷ s) = if c == b':' then drop_space s else field_value s

unfoldable pub has_nul : Text → Bool
has_nul [] = false
has_nul (c ∷ s) = c == 0 || has_nul s

-- `/^\d+$/`, and the number that the digits write.
unfoldable pub all_digits : Text → Bool
all_digits [] = true
all_digits (c ∷ s) = leb b'0' c && leb c b'9' && all_digits s

unfoldable pub number_from : ℕ → Text → ℕ
number_from n [] = n
number_from n (c ∷ s) = number_from (n * 10 + (c - b'0')) s

abbrev pub max_safe_integer : ℕ
max_safe_integer = 2 ^ 53 - 1

-- A number above `MAX_SAFE_INTEGER` rounds to one above it, so the exact number decides alike.
unfoldable pub parse_retry : Text → Option ℕ
parse_retry value =
    if not (is_empty value) && all_digits value && leb (number_from 0 value) max_safe_integer
    then some (number_from 0 value)
    else none

unfoldable pub set_field : SseParser → Text → Text → SseParser
set_field s name value =
    if text_eq name (text "data")
    then record s { lines = s.lines ++ value ∷ [] }
    else if text_eq name (text "event")
    then record s { event = value }
    else if text_eq name (text "id") && not (has_nul value)
    then record s { last_event_id = value }
    else if text_eq name (text "retry")
    then elim (parse_retry value) [ none ↦ s | some n ↦ record s { retry = some n } ]
    else s

abbrev or_message : Text → Text
or_message [] = text "message"
or_message (c ∷ e) = c ∷ e

abbrev pub event_of : SseParser → List Text → ParsedEvent
event_of s lines = record {
  event = or_message s.event;
  payload = join (lf ∷ []) lines;
  last_event_id = s.last_event_id;
  retry = s.retry;
}

-- `this.line = ''; this.lineLength = 0` at the end of `consumeLine`.
abbrev pub cleared : SseParser → SseParser
cleared s = record s { line = []; line_length = 0 }

-- The branch of an empty line.
unfoldable pub dispatched : SseParser → List Text → List Output
dispatched s [] = []
dispatched s (d ∷ ds) = if not s.dropped then emit (event_of s (d ∷ ds)) ∷ [] else []

abbrev pub after_event : SseParser → SseParser
after_event s = record s { lines = []; event = []; size = 0; dropped = false }

abbrev pub is_comment : Text → Bool
is_comment line = starts_with (b':' ∷ []) line

unfoldable pub consume_line : SseParser → SseParser × List Output
consume_line s =
    if s.line_length == 0
    then (cleared (after_event s), dispatched s s.lines)
    else if not s.dropped && not (is_comment s.line)
    then (cleared (set_field s (field_name s.line) (field_value s.line)), [])
    else (cleared s, [])

-- A character that is no line end.
unfoldable pub add_char : ℕ → SseParser → ℕ → SseParser × List Output
add_char limit s c =
    let size' = s.size + byte_length c in
    if ltb limit size' && not s.dropped
    then (
      record s {
        line_length = suc s.line_length;
        size = size';
        dropped = true;
        line = [];
        lines = [];
        event = [];
      },
      truncate ∷ [],
    )
    else (
      record s {
        line_length = suc s.line_length;
        size = size';
        line = if s.dropped then s.line else s.line ++ c ∷ [];
      },
      [],
    )

abbrev with_skip : Bool → SseParser × List Output → SseParser × List Output
with_skip b (s, out) = (record s { skip_lf = b }, out)

unfoldable pub read_char : ℕ → SseParser → ℕ → SseParser × List Output
read_char limit s c =
    if c == cr || c == lf then with_skip (c == cr) (consume_line s) else add_char limit s c

unfoldable pub after_cr : ℕ → SseParser → ℕ → SseParser × List Output
after_cr limit s c =
    if s.skip_lf
    then if c == lf
      then (record s { skip_lf = false }, [])
      else read_char limit (record s { skip_lf = false }) c
    else read_char limit s c

-- One round of the loop of `push`.
unfoldable pub push_char : ℕ → SseParser → ℕ → SseParser × List Output
push_char limit s c =
    if s.first
    then if c == 0xfeff
      then (record s { first = false }, [])
      else after_cr limit (record s { first = false }) c
    else after_cr limit s c

abbrev pub also : List Output → SseParser × List Output → SseParser × List Output
also out (s, rest) = (s, out ++ rest)

unfoldable pub push : ℕ → SseParser → Text → SseParser × List Output
push limit s [] = (s, [])
push limit s (c ∷ cs) = let (s', out) = push_char limit s c in also out (push limit s' cs)
