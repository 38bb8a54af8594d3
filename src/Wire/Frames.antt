-- ===== src/Wire/Frames.antt =====
-- Messages sent are the messages received.
use tapline.Base.{
  ℕ, ◌-◌, ◌≤◌, ◌<◌, min, ◌≡◌, refl, sym, ap, ◌∙◌, true, false, ◌||◌, Option, some, List, [], ◌∷◌,
  ◌++◌, append_assoc, length, length-append, ltb, ◌==◌, arith, ge→ltb, take-append, drop-append,
}
use tapline.Wire.{
  Wire, Received, done, emitting, initial, max_message, write_uint32_be, receive_body,
  receive_header, receive_loop, receive, receive_all, settle_body, settle_header, encode_frame,
  send, wrote,
}
use tapline.Wire.Bytes.{length-write_uint32_be, read-write_uint32_be}
use mathlib.Core.List.{flatten}
use tapline.Wire.Feed.{feed_all, receive_header-feed}
use tapline.Wire.Stream.{receive-feed_all}
use tapline.Wire.Chunks.{receive_all-flatten}

not_bad : (n : ℕ) → 0 < n → n ≤ max_message → (n == 0 || ltb max_message n) ≡ false
not_bad n pos le = ground arith

module _ {M : Type 0} (parse : List ℕ → Option M) (serialize : M → List ℕ) where
  -- The messages were sent one after the other, and `bytes` is all that was written.
  pub data Sends : List M → List ℕ → Type 0 where
    nothing : Sends [] []
    then_send :
        {m : M} {frame : List ℕ} {ms : List M} {bytes : List ℕ}
        → send serialize true m ≡ wrote frame
        → Sends ms bytes
        → Sends (m ∷ ms) (frame ++ bytes)

  send_inv :
      (m : M) (frame : List ℕ)
      → send serialize true m ≡ wrote frame
      → (frame ≡ encode_frame serialize m) × (length (serialize m) ≤ max_message)
  unfolding send
  send_inv m frame e = ground arith

  settle_frame :
      (loop : Wire → List ℕ → Received M) (h : List ℕ) (m : M) (rest : List ℕ)
      → parse (serialize m) ≡ some m
      → settle_body parse loop h (record { size = length (serialize m); used = serialize m }) rest
        ≡ emitting (m ∷ []) (loop initial rest)
  unfolding settle_body
  settle_frame loop h m rest e =
      rw (ge→ltb (length (serialize m)) (length (serialize m)) (omega arith), e)

  receive_body_frame :
      (loop : Wire → List ℕ → Received M) (h : List ℕ) (m : M) (rest : List ℕ)
      → parse (serialize m) ≡ some m
      → receive_body parse loop h
          (record { size = length (serialize m); used = [] })
          (serialize m ++ rest)
        ≡ emitting (m ∷ []) (loop initial rest)
  unfolding receive_body
  receive_body_frame loop h m rest e =
      let count : min (length (serialize m) - 0) (length (serialize m ++ rest))
          ≡ length (serialize m) =
        omega (arith, length-append (serialize m) rest) in
      rw (count, take-append (serialize m) rest, drop-append (serialize m) rest)
        (settle_frame loop h m rest e)

  settle_header_frame :
      (loop : Wire → List ℕ → Received M) (m : M) (rest : List ℕ)
      → parse (serialize m) ≡ some m
      → 0 < length (serialize m)
      → length (serialize m) ≤ max_message
      → settle_header parse loop (write_uint32_be (length (serialize m))) (serialize m ++ rest)
        ≡ emitting (m ∷ []) (loop initial rest)
  unfolding settle_header
  settle_header_frame loop m rest e pos le =
      let n = length (serialize m) in
      rw
        (
          ge→ltb (length (write_uint32_be n)) 4 (omega (arith, length-write_uint32_be n)),
          read-write_uint32_be n (omega arith),
          not_bad n pos le,
        )
        (receive_body_frame loop (write_uint32_be n) m rest e)

  receive_header_frame :
      (loop : Wire → List ℕ → Received M) (m : M) (rest : List ℕ)
      → parse (serialize m) ≡ some m
      → 0 < length (serialize m)
      → length (serialize m) ≤ max_message
      → receive_header parse loop [] (encode_frame serialize m ++ rest)
        ≡ emitting (m ∷ []) (loop initial rest)
  unfolding receive_header encode_frame
  receive_header_frame loop m rest e pos le =
      let body = serialize m in
      let head = write_uint32_be (length body) in
      let four : length head ≡ 4 = length-write_uint32_be (length body) in
      let count : min 4 (length (head ++ (body ++ rest))) ≡ length head =
        omega (arith, length-append head (body ++ rest)) in
      rw
        (
          append_assoc head body rest,
          count,
          take-append head (body ++ rest),
          drop-append head (body ++ rest),
        )
        (settle_header_frame loop m rest e pos le)

  -- The frame at the head of a stream is received as its message.
  receive_frame :
      (m : M) (rest : List ℕ)
      → parse (serialize m) ≡ some m
      → 0 < length (serialize m)
      → length (serialize m) ≤ max_message
      → receive parse initial (encode_frame serialize m ++ rest)
        ≡ emitting (m ∷ []) (receive parse initial rest)
  receive_frame m rest e pos le =
      let bytes = encode_frame serialize m ++ rest in
      receive-feed_all parse initial bytes (omega arith)
      ∙ sym (receive_header-feed parse [] bytes (omega arith))
      ∙ receive_header_frame (feed_all parse) m rest e pos le
      ∙ ap (emitting (m ∷ [])) (sym (receive-feed_all parse initial rest (omega arith)))

  -- What is read back is what was sent, when `parse` undoes `serialize` and no text is empty.
  receive-Sends_whole :
      {ms : List M} {bytes : List ℕ}
      → ((m : M) → parse (serialize m) ≡ some m)
      → ((m : M) → 0 < length (serialize m))
      → Sends ms bytes
      → receive parse initial bytes ≡ done initial ms
  unfolding receive receive_loop
  receive-Sends_whole inverse pos nothing = refl
  receive-Sends_whole inverse pos (then_send {m} {frame} {ms} {bytes} e rest) =
      let (same, le) = send_inv m frame e in
      ap (λ f. receive parse initial (f ++ bytes)) same
      ∙ receive_frame m bytes (inverse m) (pos m) le
      ∙ ap (emitting (m ∷ [])) (receive-Sends_whole inverse pos rest)

  -- Whatever sequence of messages was sent, and however what was written is cut into chunks, the
  -- reader emits exactly those messages in order, throws nothing, and ends between two frames;
  -- `parse` is assumed to undo `serialize`, and no message to be serialized as the empty text.
  pub receive_all-Sends :
      (ms : List M) (chunks : List (List ℕ))
      → ((m : M) → parse (serialize m) ≡ some m)
      → ((m : M) → 0 < length (serialize m))
      → Sends ms (flatten chunks)
      → receive_all parse initial chunks ≡ done initial ms
  receive_all-Sends ms chunks inverse pos sends =
      receive_all-flatten parse initial chunks (omega arith) ∙ receive-Sends_whole inverse pos sends
