-- ===== src/Wire/Chunks.antt =====
-- How a stream is cut into chunks does not matter, and a reader that threw stays broken.
use tapline.Base.{
  ℕ, ◌≤◌, ◌≡◌, refl, sym, subst, ap, ◌∙◌, true, Option, none, some, List, [], ◌∷◌, ◌++◌,
  append_assoc, append-nil, inl, inr, ◌⊎◌, length, length-append, arith, ge→ltb,
}
use mathlib.Core.Path.{fun_ext}
use mathlib.Core.List.{flatten}
use tapline.Wire.{
  Wire, Body, Received, done, threw, emitting, and_then, and_also, faulted, read_uint32_be,
  receive_round, receive_loop, receive, receive_all, settle_body, settle_header,
}
use tapline.Wire.Feed.{
  IsOpen, finish_body, finish_header, feed, feed_all, bad_size, emitting-nil, receive_body_full,
  receive_header_full,
}
use tapline.Wire.Stream.{receive-feed_all}

module _ {M : Type 0} (parse : List ℕ → Option M) where
  -- A reader that threw: a full header with a length out of range, or a full body that is no JSON.
  abbrev pub IsStuck : Wire → Type 0
  IsStuck w = elim w.body [
    | none ↦ (length w.header ≡ 4) × (bad_size (read_uint32_be w.header) ≡ true)
    | some b ↦ (length b.used ≡ b.size) × (parse b.used ≡ none)
  ]

  abbrev pub IsSettled : Received M → Type 0
  IsSettled (done w ms) = IsOpen w
  IsSettled (threw w ms) = IsStuck w

  finish_header-IsSettled : (h : List ℕ) → length h ≤ 4 → IsSettled (finish_header parse h)
  unfolding finish_header bad_size
  finish_header-IsSettled h le = ground arith

  finish_body-IsSettled :
      (h : List ℕ) (b : Body) → length b.used ≤ b.size → IsSettled (finish_body parse h b)
  unfolding finish_body
  finish_body-IsSettled h b le = ground arith

  feed-IsSettled : (w : Wire) (b : ℕ) → IsOpen w → IsSettled (feed parse w b)
  unfolding feed
  feed-IsSettled w b o = at_body w.header w.body o
    where
      at_body :
          (h : List ℕ) (body : Option Body)
          → IsOpen (record { header = h; body = body })
          → IsSettled (feed parse (record { header = h; body = body }) b)
      at_body h none o =
          finish_header-IsSettled (h ++ b ∷ []) (omega (arith, length-append h (b ∷ [])))
      at_body h (some body) o =
          finish_body-IsSettled h (record body { used = body.used ++ b ∷ [] })
            (omega (arith, length-append body.used (b ∷ [])))

  emitting-IsSettled : (ms : List M) (r : Received M) → IsSettled r → IsSettled (emitting ms r)
  emitting-IsSettled ms (done w rest) s = s
  emitting-IsSettled ms (threw w rest) s = s

  and_then-IsSettled :
      (r : Received M) (k : Wire → Received M)
      → IsSettled r
      → ((w : Wire) → IsOpen w → IsSettled (k w))
      → IsSettled (and_then r k)
  and_then-IsSettled (done w ms) k s h = emitting-IsSettled ms (k w) (h w s)
  and_then-IsSettled (threw w ms) k s h = s

  feed_all-IsSettled : (w : Wire) (bs : List ℕ) → IsOpen w → IsSettled (feed_all parse w bs)
  unfolding feed_all
  feed_all-IsSettled w [] o = o
  feed_all-IsSettled w (b ∷ bs) o =
      and_then-IsSettled (feed parse w b) _ (feed-IsSettled w b o)
        (λ w' o'. feed_all-IsSettled w' bs o')

  pub receive-IsSettled : (w : Wire) (bs : List ℕ) → IsOpen w → IsSettled (receive parse w bs)
  receive-IsSettled w bs o = rw (receive-feed_all parse w bs o) (feed_all-IsSettled w bs o)

  emitting-append :
      (ms ns : List M) (r : Received M) → emitting ms (emitting ns r) ≡ emitting (ms ++ ns) r
  emitting-append ms ns (done w rest) = rw (append_assoc ms ns rest)
  emitting-append ms ns (threw w rest) = rw (append_assoc ms ns rest)

  emitting-and_then :
      (ms : List M) (r : Received M) (k : Wire → Received M)
      → and_then (emitting ms r) k ≡ emitting ms (and_then r k)
  emitting-and_then ms (done w ns) k = sym (emitting-append ms ns (k w))
  emitting-and_then ms (threw w ns) k = refl

  and_then_assoc :
      (r : Received M) (k l : Wire → Received M)
      → and_then (and_then r k) l ≡ and_then r (λ w. and_then (k w) l)
  and_then_assoc (done w ms) k l = emitting-and_then ms (k w) l
  and_then_assoc (threw w ms) k l = refl

  feed_all-append :
      (w : Wire) (xs ys : List ℕ)
      → feed_all parse w (xs ++ ys) ≡ and_then (feed_all parse w xs) (λ w'. feed_all parse w' ys)
  unfolding feed_all
  feed_all-append w [] ys = sym (emitting-nil (feed_all parse w ys))
  feed_all-append w (x ∷ xs) ys =
      let ih : (λ w'. feed_all parse w' (xs ++ ys))
          ≡ (λ w'. and_then (feed_all parse w' xs) (λ v. feed_all parse v ys)) =
        fun_ext (λ w'. feed_all-append w' xs ys) in
      ap (and_then (feed parse w x)) ih ∙ sym (and_then_assoc (feed parse w x) _ _)

  and_then-cong :
      (r : Received M) (k l : Wire → Received M)
      → IsSettled r
      → ((w : Wire) → IsOpen w → k w ≡ l w)
      → and_then r k ≡ and_then r l
  and_then-cong (done w ms) k l s h = ap (emitting ms) (h w s)
  and_then-cong (threw w ms) k l s h = refl

  -- On a reader that has not thrown, receiving two chunks joined is receiving the first and then,
  -- if that did not throw, the second: the same messages, the same state, the same fault.
  pub receive-append :
      (w : Wire) (xs ys : List ℕ)
      → IsOpen w
      → receive parse w (xs ++ ys) ≡ and_then (receive parse w xs) (λ w'. receive parse w' ys)
  receive-append w xs ys o =
      receive-feed_all parse w (xs ++ ys) o
      ∙ feed_all-append w xs ys
      ∙ and_then-cong (feed_all parse w xs) _ _ (feed_all-IsSettled w xs o)
          (λ w' o'. sym (receive-feed_all parse w' ys o'))
      ∙ ap (λ r. and_then r (λ w'. receive parse w' ys)) (sym (receive-feed_all parse w xs o))

  IsStuck-receive_round :
      (loop : Wire → List ℕ → Received M) (w : Wire) (bs : List ℕ)
      → IsStuck w
      → receive_round parse loop w bs ≡ threw w []
  unfolding receive_round settle_header settle_body bad_size
  IsStuck-receive_round loop w bs s = at_body w.header w.body s
    where
      at_body :
          (h : List ℕ) (body : Option Body)
          → IsStuck (record { header = h; body = body })
          → receive_round parse loop (record { header = h; body = body }) bs
            ≡ threw (record { header = h; body = body }) []
      at_body h none (full, bad) =
          receive_header_full parse loop h bs (omega arith) ∙ rw (full, settle_header, bad)
      at_body h (some b) (full, bad) =
          receive_body_full parse loop h b.size b.used bs (omega arith)
          ∙ rw (settle_body, ge→ltb (length b.used) b.size (omega arith), bad)

  -- A stuck reader stays as it is and emits nothing.
  IsStuck-receive_all :
      (w : Wire) (chunks : List (List ℕ))
      → IsStuck w
      → (receive_all parse w chunks ≡ done w []) ⊎ (receive_all parse w chunks ≡ threw w [])
  unfolding receive_all receive receive_loop
  IsStuck-receive_all w [] s = inl refl
  IsStuck-receive_all w ([] ∷ chunks) s = elim (IsStuck-receive_all w chunks s) [
    | inl e ↦ inl (ap (emitting []) e)
    | inr e ↦ inr (ap (emitting []) e)
  ]
  IsStuck-receive_all w ((b ∷ bs) ∷ chunks) s =
      let again = IsStuck-receive_round (receive_loop parse (length bs)) w (b ∷ bs) s in
      inr (
        ap (λ r. and_also r (λ w'. receive_all parse w' chunks)) again
        ∙ elim (IsStuck-receive_all w chunks s) [
          | inl e ↦ ap (faulted []) e
          | inr e ↦ ap (faulted []) e
        ])

  and_also-receive_all :
      (r : Received M) (chunks : List (List ℕ))
      → IsSettled r
      → ((w : Wire) → IsOpen w → receive_all parse w chunks ≡ receive parse w (flatten chunks))
      → and_also r (λ w. receive_all parse w chunks)
        ≡ and_then r (λ w. receive parse w (flatten chunks))
  and_also-receive_all (done w ms) chunks s same = ap (emitting ms) (same w s)
  and_also-receive_all (threw w ms) chunks s same = elim (IsStuck-receive_all w chunks s) [
    | inl e ↦ ap (faulted ms) e ∙ ap (threw w) (append-nil ms)
    | inr e ↦ ap (faulted ms) e ∙ ap (threw w) (append-nil ms)
  ]

  pub receive_all-flatten :
      (w : Wire) (chunks : List (List ℕ))
      → IsOpen w
      → receive_all parse w chunks ≡ receive parse w (flatten chunks)
  unfolding receive_all receive receive_loop flatten
  receive_all-flatten w [] o = refl
  receive_all-flatten w (chunk ∷ chunks) o =
      and_also-receive_all (receive parse w chunk) chunks (receive-IsSettled w chunk o)
        (λ w' o'. receive_all-flatten w' chunks o')
      ∙ sym (receive-append w chunk (flatten chunks) o)

  -- Once a chunk made an open reader throw, every later chunk that is not empty throws again and
  -- emits nothing: a frame of a bad length, or of no JSON, ends the connection.
  pub receive_poisoned :
      (w w' : Wire) (xs : List ℕ) (ms : List M) (b : ℕ) (bs : List ℕ)
      → IsOpen w
      → receive parse w xs ≡ threw w' ms
      → receive parse w' (b ∷ bs) ≡ threw w' []
  receive_poisoned w w' xs ms b bs o e =
      let s : IsStuck w' = subst IsSettled e (receive-IsSettled w xs o) in
      unfold receive receive_loop in IsStuck-receive_round _ w' (b ∷ bs) s
