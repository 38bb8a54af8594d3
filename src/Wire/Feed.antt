-- ===== src/Wire/Feed.antt =====
-- An independent description of `receive`: a reader that takes one byte at a time.
use tapline.Base.{
  ℕ, suc, ◌-◌, ◌≤◌, ◌<◌, min, ◌≡◌, refl, inl, inr, Bool, false, ◌||◌, Option, none, some, List, [],
  ◌∷◌, ◌++◌, append-nil, append_assoc, length, take, length-append, ltb, ◌==◌, if◌then◌else◌, arith,
  Bool-cases, lt→ltb, ltb→lt, ltb→ge, Option-cases,
}
use tapline.Wire.{
  Wire, Body, and_then, Received, done, threw, emitting, initial, max_message, read_uint32_be,
  receive_body, settle_body, settle_header, receive_header,
}

-- A reader that has not thrown: it still needs a byte of the header or of the body.
abbrev pub HasRoom : Body → Type 0
HasRoom b = length b.used < b.size

abbrev pub IsOpen : Wire → Type 0
IsOpen w = elim w.body [ none ↦ length w.header < 4 | some b ↦ HasRoom b ]

-- A length that `receive` throws at.
unfoldable pub bad_size : ℕ → Bool
bad_size n = n == 0 || ltb max_message n

pub good_pos : (n : ℕ) → bad_size n ≡ false → 0 < n
unfolding bad_size
good_pos n h = ground arith

module _ {ℓ} {M : Type ℓ} where
  pub emitting-nil : (r : Received M) → emitting [] r ≡ r
  emitting-nil (done w ms) = refl
  emitting-nil (threw w ms) = refl

module _ {ℓ} {M : Type ℓ} (parse : List ℕ → Option M) where
  unfoldable pub finish_body : List ℕ → Body → Received M
  finish_body header body =
      if ltb (length body.used) body.size
      then done (record { header = header; body = some body }) []
      else elim (parse body.used) [
        | none ↦ threw (record { header = header; body = some body }) []
        | some message ↦ done initial (message ∷ [])
      ]

  unfoldable pub finish_header : List ℕ → Received M
  finish_header header =
      if ltb (length header) 4
      then done (record { header = header; body = none }) []
      else if read_uint32_be header == 0 || ltb max_message (read_uint32_be header)
      then threw (record { header = header; body = none }) []
      else done
          (record {
            header = header;
            body = some (record { size = read_uint32_be header; used = [] });
          })
          []

  unfoldable pub feed : Wire → ℕ → Received M
  unfolding finish_body finish_header
  feed w b = elim w.body [
    | none ↦ finish_header (w.header ++ b ∷ [])
    | some body ↦ finish_body w.header (record body { used = body.used ++ b ∷ [] })
  ]

  unfoldable pub feed_all : Wire → List ℕ → Received M
  feed_all w [] = done w []
  feed_all w (b ∷ bs) = and_then (feed w b) (λ w'. feed_all w' bs)

  module _ (loop : Wire → List ℕ → Received M) where
    min_zero : (n : ℕ) → min n 0 ≡ 0
    min_zero n = omega arith

    full_zero : (size used n : ℕ) → size ≤ used → min (size - used) n ≡ 0
    full_zero size used n h = omega arith

    receive_body-nil :
        (h : List ℕ) (size : ℕ) (used : List ℕ)
        → length used < size
        → receive_body parse loop h (record { size = size; used = used }) []
          ≡ done (record { header = h; body = some (record { size = size; used = used }) }) []
    unfolding receive_body settle_body
    receive_body-nil h size used lt =
        rw (min_zero (size - length used), append-nil used, settle_body, lt→ltb _ _ lt)

    min-suc : (m n : ℕ) → 0 < m → min m (suc n) ≡ suc (min (m - 1) n)
    min-suc m n h = omega arith

    sub_length : (m : ℕ) (h : List ℕ) (b : ℕ) → m - length h - 1 ≡ m - length (h ++ b ∷ [])
    sub_length m h b = omega (arith, length-append h (b ∷ []))

    -- A byte that the body has room for may as well have been there.
    receive_body-cons :
        (h : List ℕ) (size : ℕ) (used : List ℕ) (b : ℕ) (bs : List ℕ)
        → length used < size
        → receive_body parse loop h (record { size = size; used = used }) (b ∷ bs)
          ≡ receive_body parse loop h (record { size = size; used = used ++ b ∷ [] }) bs
    unfolding receive_body
    receive_body-cons h size used b bs lt = rw (
      min-suc (size - length used) (length bs) (omega arith),
      sub_length size used b,
      ← append_assoc used (b ∷ []) (take (min (size - length (used ++ b ∷ [])) (length bs)) bs),
    )

    receive_header-cons :
        (h : List ℕ) (b : ℕ) (bs : List ℕ)
        → length h < 4
        → receive_header parse loop h (b ∷ bs) ≡ receive_header parse loop (h ++ b ∷ []) bs
    unfolding receive_header
    receive_header-cons h b bs lt = rw (
      min-suc (4 - length h) (length bs) (omega arith),
      sub_length 4 h b,
      ← append_assoc h (b ∷ []) (take (min (4 - length (h ++ b ∷ [])) (length bs)) bs),
    )

    receive_header-nil :
        (h : List ℕ)
        → length h < 4
        → receive_header parse loop h [] ≡ done (record { header = h; body = none }) []
    unfolding receive_header settle_header
    receive_header-nil h lt =
        rw (min_zero (4 - length h), append-nil h, settle_header, lt→ltb _ _ lt)

    pub receive_body_full :
        (h : List ℕ) (size : ℕ) (used bs : List ℕ)
        → size ≤ length used
        → receive_body parse loop h (record { size = size; used = used }) bs
          ≡ settle_body parse loop h (record { size = size; used = used }) bs
    unfolding receive_body
    receive_body_full h size used bs le =
        rw (full_zero size (length used) (length bs) le, append-nil used)

    pub receive_header_full :
        (h bs : List ℕ)
        → 4 ≤ length h
        → receive_header parse loop h bs ≡ settle_header parse loop h bs
    unfolding receive_header
    receive_header_full h bs le = rw (full_zero 4 (length h) (length bs) le, append-nil h)

  length-snoc : (h : List ℕ) (b : ℕ) → length (h ++ b ∷ []) ≡ suc (length h)
  length-snoc h b = omega (arith, length-append h (b ∷ []))

  pub receive_body-feed :
      (h : List ℕ) (size : ℕ) (used bs : List ℕ)
      → length used < size
      → receive_body parse feed_all h (record { size = size; used = used }) bs
        ≡ feed_all (record { header = h; body = some (record { size = size; used = used }) }) bs
  unfolding feed_all feed settle_body
  receive_body-feed h size used [] lt = receive_body-nil feed_all h size used lt
  receive_body-feed h size used (b ∷ bs) lt =
      rw (receive_body-cons feed_all h size used b bs lt)
        (elim (Bool-cases (ltb (length (used ++ b ∷ [])) size)) [
          | inl more ↦
              rw (more, emitting-nil)
                (receive_body-feed h size (used ++ b ∷ []) bs (ltb→lt _ _ more))
          | inr full ↦
              rw
                (
                  receive_body_full feed_all h size (used ++ b ∷ []) bs (ltb→ge _ _ full),
                  settle_body,
                  full,
                )
                (elim (Option-cases (parse (used ++ b ∷ []))) [
                  | inl bad ↦ rw bad
                  | inr (m, good) ↦ rw good
                ])
        ])

  pub receive_header-feed :
      (h bs : List ℕ)
      → length h < 4
      → receive_header parse feed_all h bs ≡ feed_all (record { header = h; body = none }) bs
  unfolding feed_all feed settle_header bad_size
  receive_header-feed h [] lt = receive_header-nil feed_all h lt
  receive_header-feed h (b ∷ bs) lt =
      rw (receive_header-cons feed_all h b bs lt)
        (elim (Bool-cases (ltb (length (h ++ b ∷ [])) 4)) [
          | inl more ↦
              rw (more, emitting-nil) (receive_header-feed (h ++ b ∷ []) bs (ltb→lt _ _ more))
          | inr full ↦ elim (Bool-cases (bad_size (read_uint32_be (h ++ b ∷ [])))) [
            | inl bad ↦ rw (
              receive_header_full feed_all (h ++ b ∷ []) bs (ltb→ge _ _ full),
              settle_header,
              full,
              bad,
            )
            | inr good ↦
                rw
                  (
                    receive_header_full feed_all (h ++ b ∷ []) bs (ltb→ge _ _ full),
                    settle_header,
                    full,
                    good,
                    emitting-nil,
                  )
                  (receive_body-feed (h ++ b ∷ []) (read_uint32_be (h ++ b ∷ [])) [] bs
                    (good_pos _ good))
          ]
        ])
