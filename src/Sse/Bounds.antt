-- ===== src/Sse/Bounds.antt =====
-- How much the parser holds, and how large an event it emits.
use tapline.Base.{
  ℕ, ◌+◌, ◌≤◌, ◌≡◌, true, false, List, [], ◌∷◌, ◌++◌, Text, text, text_eq, join, arith, All,
  All-append,
}
use tapline.Sse.{
  SseParser, Output, emit, truncate, initial, byte_length, field_name, field_value, drop_space,
  set_field, consume_line, dispatched, cleared, add_char, read_char, after_cr, push_char, push, lf,
}

-- The size of a text in UTF-8.
unfoldable pub byte_size : Text → ℕ
byte_size [] = 0
byte_size (c ∷ s) = byte_length c + byte_size s

-- The lines of an event, each with the line feed that will follow it.
unfoldable pub lines_size : List Text → ℕ
unfolding byte_size
lines_size [] = 0
lines_size (d ∷ ds) = byte_size d + 1 + lines_size ds

pub byte_size-append : (s t : Text) → byte_size (s ++ t) ≡ byte_size s + byte_size t
unfolding byte_size
byte_size-append [] t = omega arith
byte_size-append (c ∷ s) t = omega (arith, byte_size-append s t)

lines_size-append : (s t : List Text) → lines_size (s ++ t) ≡ lines_size s + lines_size t
unfolding lines_size
lines_size-append [] t = omega arith
lines_size-append (c ∷ s) t = omega (arith, lines_size-append s t)

byte_length_pos : (c : ℕ) → 1 ≤ byte_length c
unfolding byte_length
byte_length_pos c = ground arith

drop_space-le : (s : Text) → byte_size (drop_space s) ≤ byte_size s
unfolding byte_size drop_space
drop_space-le [] = omega arith
drop_space-le (c ∷ s) = ground arith

fields-le : (s : Text) → byte_size (field_name s) + byte_size (field_value s) ≤ byte_size s
unfolding byte_size field_name field_value
fields-le [] = omega arith
fields-le (c ∷ s) = ground (arith, fields-le s, drop_space-le s)

-- Nothing is held of a dropped event, and no more than was counted of any other.
pub record Fits (limit : ℕ) (s : SseParser) : Type 0 where
  pub counted : byte_size s.line + lines_size s.lines + byte_size s.event ≤ s.size
  pub within : s.dropped ≡ false → s.size ≤ limit
  pub emptied : s.dropped ≡ true → byte_size s.line + lines_size s.lines + byte_size s.event ≡ 0

-- An event no longer than the limit.
pub FitsEvent : ℕ → Output → Type 0
FitsEvent limit truncate = Unit {0}
FitsEvent limit (emit e) = byte_size e.payload ≤ limit

byte_size-join :
    (d : Text) (ds : List Text) → byte_size (join (lf ∷ []) (d ∷ ds)) + 1 ≡ lines_size (d ∷ ds)
unfolding byte_size lines_size join byte_length
byte_size-join d [] = omega arith
byte_size-join d (e ∷ ds) = omega (
  arith,
  byte_size-append d ((lf ∷ []) ++ join (lf ∷ []) (e ∷ ds)),
  byte_size-append (lf ∷ []) (join (lf ∷ []) (e ∷ ds)),
  byte_size-join e ds,
)

name_pos : (s : Text) → text_eq s (text "data") ≡ true → 1 ≤ byte_size s
unfolding text text_eq byte_size
name_pos [] h = cc
name_pos (c ∷ s) h = omega (arith, byte_length_pos c)

set_field-Fits :
    (limit : ℕ) (s : SseParser)
    → s.dropped ≡ false
    → Fits limit s
    → Fits limit (cleared (set_field s (field_name s.line) (field_value s.line)))
unfolding set_field byte_size lines_size
set_field-Fits limit s kept f = ground (
  arith,
  fields-le s.line,
  name_pos (field_name s.line),
  lines_size-append s.lines (field_value s.line ∷ []),
)

consume_line-Fits : (limit : ℕ) (s : SseParser) → Fits limit s → Fits limit (consume_line s).0
unfolding consume_line byte_size lines_size
consume_line-Fits limit s f = ground (arith, set_field-Fits limit s)

dispatched-FitsEvent :
    (limit : ℕ) (s : SseParser) (lines : List Text)
    → (s.dropped ≡ false → lines_size lines ≤ limit)
    → All (FitsEvent limit) (dispatched s lines)
unfolding dispatched FitsEvent
dispatched-FitsEvent limit s [] h = tt
dispatched-FitsEvent limit s (d ∷ ds) h = ground (arith, byte_size-join d ds)

consume_line-FitsEvent :
    (limit : ℕ) (s : SseParser) → Fits limit s → All (FitsEvent limit) (consume_line s).1
unfolding consume_line
consume_line-FitsEvent limit s f = ground (arith, dispatched-FitsEvent limit s s.lines)

add_char-Fits :
    (limit : ℕ) (s : SseParser) (c : ℕ) → Fits limit s → Fits limit (add_char limit s c).0
unfolding add_char byte_size lines_size
add_char-Fits limit s c f = ground (arith, byte_size-append s.line (c ∷ []))

add_char-FitsEvent :
    (limit : ℕ) (s : SseParser) (c : ℕ) → All (FitsEvent limit) (add_char limit s c).1
unfolding add_char FitsEvent
add_char-FitsEvent limit s c = ground arith

abbrev Keeps : ℕ → SseParser × List Output → Type 0
Keeps limit (s, out) = Fits limit s × All (FitsEvent limit) out

read_char-Keeps :
    (limit : ℕ) (s : SseParser) (c : ℕ) → Fits limit s → Keeps limit (read_char limit s c)
unfolding read_char
read_char-Keeps limit s c f = ground (
  arith,
  consume_line-Fits limit s f,
  consume_line-FitsEvent limit s f,
  add_char-Fits limit s c f,
  add_char-FitsEvent limit s c,
)

after_cr-Keeps :
    (limit : ℕ) (s : SseParser) (c : ℕ) → Fits limit s → Keeps limit (after_cr limit s c)
unfolding after_cr
after_cr-Keeps limit s c f =
    ground
      (arith, read_char-Keeps limit s c f, read_char-Keeps limit (record s { skip_lf = false }) c)

push_char-Keeps :
    (limit : ℕ) (s : SseParser) (c : ℕ) → Fits limit s → Keeps limit (push_char limit s c)
unfolding push_char
push_char-Keeps limit s c f =
    ground (arith, after_cr-Keeps limit s c f, after_cr-Keeps limit (record s { first = false }) c)

-- Whatever is pushed, the parser holds no more than `limit` bytes of an event, and every event that
-- it emits has at most `limit` bytes of data.
pub push-Fits :
    (limit : ℕ) (s : SseParser) (cs : Text)
    → Fits limit s
    → Fits limit (push limit s cs).0 × All (FitsEvent limit) (push limit s cs).1
unfolding push
push-Fits limit s [] f = (f, tt)
push-Fits limit s (c ∷ cs) f =
    let (kept, out) = push_char-Keeps limit s c f in
    let (kept', rest) = push-Fits limit (push_char limit s c).0 cs kept in
    (kept', All-append (FitsEvent limit) (push_char limit s c).1 _ out rest)

pub held : SseParser → ℕ
held s = byte_size s.line + lines_size s.lines + byte_size s.event

pub initial-Fits : (limit : ℕ) → Fits limit initial
unfolding byte_size lines_size
initial-Fits limit = omega arith

-- However long the stream, and whatever it holds: between two chunks the parser holds at most
-- `limit` bytes of the event under way (its lines counted with the line feeds between them), and
-- no event it emitted has more than `limit` bytes of data.
pub push-initial-bounded :
    (limit : ℕ) (cs : Text)
    → (held (push limit initial cs).0 ≤ limit) × All (FitsEvent limit) (push limit initial cs).1
unfolding held
push-initial-bounded limit cs =
    let (f, out) = push-Fits limit initial cs (initial-Fits limit) in (ground arith, out)
