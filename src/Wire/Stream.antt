-- ===== src/Wire/Stream.antt =====
-- What `receive` makes of a byte stream, however the stream is cut into chunks.
use tapline.Base.{
  ℕ, zero, suc, ◌-◌, ◌≤◌, ◌<◌, min, ◌≡◌, refl, ◌∙◌, inl, inr, Option, none, some, List, [], ◌∷◌,
  length, arith, length-drop, Option-cases,
}
use tapline.Wire.{
  Wire, Body, Received, initial, read_uint32_be, receive_body, receive_header, receive_round,
  receive_loop, receive, settle_body, settle_header,
}
use tapline.Wire.Feed.{IsOpen, HasRoom, feed_all, receive_body-feed, receive_header-feed}

module _ {ℓ} {M : Type ℓ} (parse : List ℕ → Option M) where
  -- Two continuations that agree on every rest of at most `n` bytes.
  abbrev Agree : (Wire → List ℕ → Received M) → (Wire → List ℕ → Received M) → ℕ → Type ℓ
  Agree l k n = (rest : List ℕ) → length rest ≤ n → l initial rest ≡ k initial rest

  module _ (l k : Wire → List ℕ → Received M) (n : ℕ) (agree : Agree l k n) where
    settle_body-Agree :
        (h : List ℕ) (b : Body) (rest : List ℕ)
        → length rest ≤ n
        → settle_body parse l h b rest ≡ settle_body parse k h b rest
    unfolding settle_body
    settle_body-Agree h b rest le = ground (arith, agree rest le)

    receive_body-Agree :
        (h : List ℕ) (b : Body) (bytes : List ℕ)
        → length bytes - min (b.size - length b.used) (length bytes) ≤ n
        → receive_body parse l h b bytes ≡ receive_body parse k h b bytes
    unfolding receive_body
    receive_body-Agree h b bytes le =
        settle_body-Agree h _ _
          (omega (arith, length-drop (min (b.size - length b.used) (length bytes)) bytes))

    settle_header-Agree :
        (h rest : List ℕ)
        → length rest ≤ n
        → settle_header parse l h rest ≡ settle_header parse k h rest
    unfolding settle_header
    settle_header-Agree h rest le = ground (
      arith,
      receive_body-Agree h (record { size = read_uint32_be h; used = [] }) rest (omega arith),
    )

    receive_round-Agree :
        (w : Wire) (b : ℕ) (bs : List ℕ)
        → IsOpen w
        → length bs ≤ n
        → receive_round parse l w (b ∷ bs) ≡ receive_round parse k w (b ∷ bs)
    unfolding receive_round receive_header
    receive_round-Agree w b bs o le = elim (Option-cases w.body) [
      | inl e ↦
          let o' : length w.header < 4 = rw e at o in
          rw e (
            settle_header-Agree _ _
              (omega (arith, length-drop (min (4 - length w.header) (suc (length bs))) (b ∷ bs))))
      | inr (body, e) ↦
          let o' : HasRoom body = rw e at o in
          rw e (receive_body-Agree w.header body (b ∷ bs) (omega arith))
    ]

  receive_round-feed :
      (w : Wire) (bytes : List ℕ)
      → IsOpen w
      → receive_round parse (feed_all parse) w bytes ≡ feed_all parse w bytes
  unfolding receive_round
  receive_round-feed w bytes o = round w.header w.body o
    where
      round :
          (h : List ℕ) (body : Option Body)
          → IsOpen (record { header = h; body = body })
          → receive_round parse (feed_all parse) (record { header = h; body = body }) bytes
            ≡ feed_all parse (record { header = h; body = body }) bytes
      round h none o = receive_header-feed parse h bytes o
      round h (some b) o = receive_body-feed parse h b.size b.used bytes o

  -- Enough fuel, and the loop is the bytewise reader.
  pub receive_loop-feed :
      (fuel : ℕ) (w : Wire) (bytes : List ℕ)
      → length bytes ≤ fuel
      → IsOpen w
      → receive_loop parse fuel w bytes ≡ feed_all parse w bytes
  unfolding receive_loop feed_all
  receive_loop-feed fuel w [] le o = refl
  receive_loop-feed zero w (b ∷ bs) le o = absurd (omega arith)
  receive_loop-feed (suc fuel) w (b ∷ bs) le o =
      receive_round-Agree (receive_loop parse fuel) (feed_all parse) fuel
        (λ rest le'. receive_loop-feed fuel initial rest le' (omega arith)) w b bs o (omega arith)
      ∙ receive_round-feed w (b ∷ bs) o

  -- Taking a whole chunk at once is the same as taking its bytes one by one.
  pub receive-feed_all :
      (w : Wire) (bytes : List ℕ) → IsOpen w → receive parse w bytes ≡ feed_all parse w bytes
  unfolding receive
  receive-feed_all w bytes o = receive_loop-feed (length bytes) w bytes (omega arith) o
