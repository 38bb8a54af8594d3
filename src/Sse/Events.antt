-- ===== src/Sse/Events.antt =====
-- The round trip of whole events.
use native.Mathlib.Nat.{add-zero}
use tapline.Base.{
  ℕ, ◌+◌, ◌≤◌, ◌≡◌, ◌≢◌, refl, sym, ap, ◌∙◌, false, none, List, [], ◌∷◌, ◌++◌, append-nil,
  append_assoc, map, Text, text, All, join, arith,
}
use tapline.Sse.{
  Output, emit, or_message, initial, lf, push, push_char, after_cr, read_char, consume_line,
  dispatched, has_nul, also,
}
use tapline.Sse.Bounds.{byte_size}
use tapline.Sse.Format.{IsLine, reader, push-data, push-event, push-id}

-- An event as a server means it: its data is a list of lines.
pub record ServerSent : Type 0 where
  pub event : Text
  pub id : Text
  pub lines : List Text

pub data_lines : List Text → Text → Text
data_lines [] rest = rest
data_lines (d ∷ ds) rest = (text "data: " ++ d) ++ lf ∷ data_lines ds rest

unfoldable pub data_size : List Text → ℕ
data_size [] = 0
data_size (d ∷ ds) = byte_size (text "data: " ++ d) + data_size ds

-- The stream that writes some events, each with an `event`, an `id` and its `data` lines.
pub written : List ServerSent → Text
unfolding data_lines
written [] = []
written (e ∷ es) =
    (text "event: " ++ e.event)
    ++ lf ∷ ((text "id: " ++ e.id) ++ lf ∷ data_lines e.lines (lf ∷ written es))

unfoldable pub written_size : ServerSent → ℕ
written_size e =
    byte_size (text "event: " ++ e.event) + (byte_size (text "id: " ++ e.id) + data_size e.lines)

-- No line end in a field, no NUL in the id, at least one line, and no more than the limit.
pub record IsWritable (limit : ℕ) (e : ServerSent) : Type 0 where
  pub event : IsLine e.event
  pub id : IsLine e.id
  pub no_nul : has_nul e.id ≡ false
  pub some_line : e.lines ≢ []
  pub lines : All IsLine e.lines
  pub fits : written_size e ≤ limit

pub expected : ServerSent → Output
expected e = emit (record {
  event = or_message e.event;
  payload = join (lf ∷ []) e.lines;
  last_event_id = e.id;
  retry = none;
})

module _ (limit : ℕ) where
  push-data_lines :
      (size : ℕ) (lines ds : List Text) (event id rest : Text)
      → All IsLine ds
      → size + data_size ds ≤ limit
      → push limit (reader [] 0 size lines event id none) (data_lines ds rest)
        ≡ push limit (reader [] 0 (size + data_size ds) (lines ++ ds) event id none) rest
  unfolding data_lines data_size
  push-data_lines size lines [] event id rest ok le = rw (add-zero size, append-nil lines)
  push-data_lines size lines (d ∷ ds) event id rest (line, ok) le =
      let step = size + byte_size (text "data: " ++ d) in
      let grown : step + data_size ds ≡ size + (byte_size (text "data: " ++ d) + data_size ds) =
        omega arith in
      push-data limit lines event id none size d (data_lines ds rest) line (omega arith)
      ∙ push-data_lines step (lines ++ d ∷ []) ds event id rest ok (omega arith)
      ∙ rw (grown, append_assoc lines (d ∷ []) ds)

  -- The empty line behind an event emits it.
  push-blank :
      (size : ℕ) (d : Text) (ds : List Text) (event id rest : Text)
      → push limit (reader [] 0 size (d ∷ ds) event id none) (lf ∷ rest)
        ≡ also
            (expected (record { event = event; id = id; lines = d ∷ ds }) ∷ [])
            (push limit (reader [] 0 0 [] [] id none) rest)
  unfolding push push_char after_cr read_char consume_line dispatched expected
  push-blank size d ds event id rest = refl

  push-one :
      (id : Text) (e : ServerSent) (lines : List Text) (rest : Text)
      → e.lines ≡ lines
      → IsWritable limit e
      → push limit (reader [] 0 0 [] [] id none) (
          (text "event: " ++ e.event)
          ++ lf ∷ ((text "id: " ++ e.id) ++ lf ∷ data_lines e.lines (lf ∷ rest)))
        ≡ also (expected e ∷ []) (push limit (reader [] 0 0 [] [] e.id none) rest)
  unfolding written_size
  push-one id e [] rest same w = absurd (w.some_line same)
  push-one id e (d ∷ ds) rest same w =
      let a = byte_size (text "event: " ++ e.event) in
      let b = byte_size (text "id: " ++ e.id) in
      push-event limit [] [] id none 0 e.event
        ((text "id: " ++ e.id) ++ lf ∷ data_lines e.lines (lf ∷ rest)) w.event (omega arith)
      ∙ push-id limit [] e.event id none (0 + a) e.id (data_lines e.lines (lf ∷ rest)) w.id w.no_nul
          (omega arith)
      ∙ push-data_lines (0 + a + b) [] e.lines e.event e.id (lf ∷ rest) w.lines (omega arith)
      ∙ ap
          (λ ls.
            push limit (reader [] 0 (0 + a + b + data_size e.lines) ls e.event e.id none)
              (lf ∷ rest))
          same
      ∙ push-blank (0 + a + b + data_size e.lines) d ds e.event e.id rest
      ∙ ap
          (λ ls.
            also (expected (record { event = e.event; id = e.id; lines = ls }) ∷ [])
              (push limit (reader [] 0 0 [] [] e.id none) rest))
          (sym same)

  push-written_from :
      (id : Text) (es : List ServerSent)
      → All (IsWritable limit) es
      → (push limit (reader [] 0 0 [] [] id none) (written es)).1 ≡ map expected es
  unfolding written push
  push-written_from id [] ok = refl
  push-written_from id (e ∷ es) (w, ok) =
      ap (λ r. r.1) (push-one id e e.lines (written es) refl w)
      ∙ ap (λ out. expected e ∷ out) (push-written_from e.id es ok)

  first_char :
      (es : List ServerSent)
      → (push limit initial (written es)).1
        ≡ (push limit (reader [] 0 0 [] [] [] none) (written es)).1
  unfolding push push_char written text
  first_char [] = refl
  first_char (e ∷ es) = refl

  -- A parser from its start, given the stream that writes some events, emits exactly those events
  -- in order, with the type `message` where none is named; each event must fit the limit, hold at
  -- least one data line, no line end in a field and no NUL in its id.
  pub push-written :
      (es : List ServerSent)
      → All (IsWritable limit) es
      → (push limit initial (written es)).1 ≡ map expected es
  push-written es ok = first_char es ∙ push-written_from [] es ok
