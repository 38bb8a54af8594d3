-- ===== src/Sse/Tests.antt =====
-- Runs of src/core/sse.ts.
use tapline.Base.{
  ◌≤◌, ◌≡◌, refl, false, none, some, [], ◌∷◌, ◌++◌, Text, text, text_eq, All, join, starts_with,
  is_empty, arith,
}
use tapline.Sse.{
  emit, truncate, initial, lf, cr, push, push_char, after_cr, read_char, add_char, consume_line,
  dispatched, set_field, field_name, field_value, drop_space, byte_length, has_nul, parse_retry,
  all_digits, number_from,
}
use tapline.Sse.Bounds.{FitsEvent, held, push-initial-bounded, byte_size}
use tapline.Sse.Lines.{unix, push-unix}
use tapline.Sse.Events.{
  ServerSent, IsWritable, written, written_size, data_size, expected, push-written,
}

abbrev crlf : Text
crlf = cr ∷ lf ∷ []

two_data :
    (push 100 initial
      (text "retry: 50" ++ (crlf ++ (text "data: a" ++ (lf ∷ text "data:b" ++ (crlf ++ crlf)))))).1
    ≡ emit (record {
      event = text "message";
      payload = b'a' ∷ lf ∷ b'b' ∷ [];
      last_event_id = [];
      retry = some 50;
    })
      ∷ []
unfolding push push_char after_cr read_char add_char consume_line dispatched set_field field_name
    field_value drop_space byte_length has_nul parse_retry all_digits number_from text text_eq join
    starts_with is_empty
two_data = refl

-- An event beyond the limit is dropped and reported once; the next one is read.
drops_long :
    (push 9 initial (text "data: abcdef" ++ (lf ∷ lf ∷ text "data: x" ++ (lf ∷ lf ∷ [])))).1
    ≡ truncate
      ∷ emit
          (record { event = text "message"; payload = b'x' ∷ []; last_event_id = []; retry = none })
      ∷ []
unfolding push push_char after_cr read_char add_char consume_line dispatched set_field field_name
    field_value drop_space byte_length text text_eq join starts_with is_empty
drops_long = refl

push-initial-bounded_example :
    (held (push 9 initial (text "data: abc")).0 ≤ 9)
    × All (FitsEvent 9) (push 9 initial (text "data: abc")).1
push-initial-bounded_example = push-initial-bounded 9 (text "data: abc")

push-unix_example :
    (push 9 initial (text "data: a" ++ (crlf ++ crlf))).1
    ≡ (push 9 initial (unix false (text "data: a" ++ (crlf ++ crlf)))).1
push-unix_example = push-unix 9 (text "data: a" ++ (crlf ++ crlf))

abbrev hello : ServerSent
hello = record { event = text "hi"; id = text "7"; lines = text "a" ∷ text "b" ∷ [] }

hello-IsWritable : IsWritable 40 hello
unfolding text has_nul written_size data_size byte_size byte_length
hello-IsWritable = record {
  event = ground arith;
  id = ground arith;
  no_nul = refl;
  some_line = λ e. cc;
  lines = ground arith;
  fits = omega arith;
}

push-written_example : (push 40 initial (written (hello ∷ []))).1 ≡ expected hello ∷ []
push-written_example = push-written 40 (hello ∷ []) (hello-IsWritable, tt)
