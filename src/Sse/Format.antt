-- ===== src/Sse/Format.antt =====
-- Events written as a server writes them are the events emitted.
use native.Mathlib.Nat.{add-zero, zero-add}
use tapline.Base.{
  ℕ, suc, ◌+◌, ◌≤◌, ◌≡◌, ◌≢◌, ◌∙◌, false, Option, List, [], ◌∷◌, ◌++◌, append_assoc, append-nil,
  Text, text, text_eq, starts_with, length, arith, All,
}
use tapline.Sse.{
  SseParser, consume_line, cleared, set_field, field_name, field_value, drop_space, add_char,
  read_char, after_cr, push_char, push, lf, cr, has_nul, byte_length,
}
use tapline.Sse.Bounds.{byte_size}

-- A text that holds no line end.
abbrev pub IsLine : Text → Type 0
IsLine = All (λ c. (c ≢ cr) × (c ≢ lf))

-- A parser that is past the byte order mark, has no line feed to skip, and drops nothing.
abbrev pub reader : Text → ℕ → ℕ → List Text → Text → Text → Option ℕ → SseParser
reader line n size lines event id retry = record {
  first = false;
  skip_lf = false;
  line = line;
  line_length = n;
  size = size;
  dropped = false;
  lines = lines;
  event = event;
  last_event_id = id;
  retry = retry;
}

module _ (limit : ℕ) (lines : List Text) (event id : Text) (retry : Option ℕ) where
  push_char-line :
      (line : Text) (n size c : ℕ)
      → (c ≢ cr) × (c ≢ lf)
      → size + byte_length c ≤ limit
      → push_char limit (reader line n size lines event id retry) c
        ≡ (reader (line ++ c ∷ []) (suc n) (size + byte_length c) lines event id retry, [])
  unfolding push_char after_cr read_char add_char
  push_char-line line n size c ne le = ground arith

  push-line :
      (line : Text) (n size : ℕ) (l rest : Text)
      → IsLine l
      → size + byte_size l ≤ limit
      → push limit (reader line n size lines event id retry) (l ++ rest)
        ≡ push limit
            (reader (line ++ l) (n + length l) (size + byte_size l) lines event id retry)
            rest
  unfolding push byte_size
  push-line line n size [] rest ok le = rw (append-nil line, add-zero n, add-zero size)
  push-line line n size (c ∷ l) rest (ne, ok) le =
      let step : suc n + length l ≡ n + suc (length l) = omega arith in
      let grown : size + byte_length c + byte_size l ≡ size + (byte_length c + byte_size l) =
        omega arith in
      rw (push_char-line line n size c ne (omega arith)) (
        push-line (line ++ c ∷ []) (suc n) (size + byte_length c) l rest ok (omega arith)
        ∙ rw (append_assoc line (c ∷ []) l, step, grown))

  -- The end of a line that is neither empty nor a comment sets its field.
  push_char-field :
      (c n size : ℕ) (l : Text)
      → c ≢ b':'
      → push_char limit (reader (c ∷ l) (suc n) size lines event id retry) lf ≡ (
        record (cleared (
            set_field
              (reader (c ∷ l) (suc n) size lines event id retry)
              (field_name (c ∷ l))
              (field_value (c ∷ l)))) { skip_lf = false },
        [],
      )
  unfolding push_char after_cr read_char consume_line starts_with
  push_char-field c n size l ne = ground arith

  push-field :
      (size c : ℕ) (l rest : Text)
      → IsLine (c ∷ l)
      → c ≢ b':'
      → size + byte_size (c ∷ l) ≤ limit
      → push limit (reader [] 0 size lines event id retry) ((c ∷ l) ++ lf ∷ rest)
        ≡ push limit
            (record (cleared (
              set_field
                (reader (c ∷ l) (suc (length l)) (size + byte_size (c ∷ l)) lines event id retry)
                (field_name (c ∷ l))
                (field_value (c ∷ l)))) { skip_lf = false })
            rest
  unfolding push
  push-field size c l rest ok ne le =
      push-line [] 0 size (c ∷ l) (lf ∷ rest) ok le
      ∙ rw (zero-add (suc (length l)), push_char-field c (length l) (size + byte_size (c ∷ l)) l ne)

  -- The three fields of an event.
  pub push-data :
      (size : ℕ) (v rest : Text)
      → IsLine v
      → size + byte_size (text "data: " ++ v) ≤ limit
      → push limit (reader [] 0 size lines event id retry) ((text "data: " ++ v) ++ lf ∷ rest)
        ≡ push limit
            (reader [] 0 (size + byte_size (text "data: " ++ v)) (lines ++ v ∷ []) event id retry)
            rest
  unfolding text set_field field_name field_value text_eq drop_space
  push-data size v rest ok le =
      push-field size b'd' (text "ata: " ++ v) rest (ground arith) (omega arith) le

  pub push-event :
      (size : ℕ) (v rest : Text)
      → IsLine v
      → size + byte_size (text "event: " ++ v) ≤ limit
      → push limit (reader [] 0 size lines event id retry) ((text "event: " ++ v) ++ lf ∷ rest)
        ≡ push limit (reader [] 0 (size + byte_size (text "event: " ++ v)) lines v id retry) rest
  unfolding text set_field field_name field_value text_eq drop_space
  push-event size v rest ok le =
      push-field size b'e' (text "vent: " ++ v) rest (ground arith) (omega arith) le

  pub push-id :
      (size : ℕ) (v rest : Text)
      → IsLine v
      → has_nul v ≡ false
      → size + byte_size (text "id: " ++ v) ≤ limit
      → push limit (reader [] 0 size lines event id retry) ((text "id: " ++ v) ++ lf ∷ rest)
        ≡ push limit (reader [] 0 (size + byte_size (text "id: " ++ v)) lines event v retry) rest
  unfolding text set_field field_name field_value text_eq drop_space
  push-id size v rest ok nul le =
      push-field size b'i' (text "d: " ++ v) rest (ground arith) (omega arith) le
      ∙ rw (nul, set_field)
