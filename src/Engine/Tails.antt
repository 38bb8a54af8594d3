-- ===== src/Engine/Tails.antt =====
-- src/core/engine.ts: the lists that are cut from the front: the log and the frames of a socket.
use tapline.Base.{
  ℕ, zero, suc, ◌+◌, ◌-◌, ◌≤◌, ◌≡◌, refl, sym, ap, ◌∙◌, inl, inr, Bool-cases, List, [], ◌∷◌, ◌++◌,
  append-nil, append_assoc, length, length-append, length-drop, drop, drop_all, ltb, arith,
  if◌then◌else◌,
}
use tapline.Model.{Transaction, Frame, LogLevel, log}
use tapline.Engine.{Engine, log_message, shift_logs, emit_event, max_logs}
use tapline.Engine.Handlers.{add_frame, max_frames}
use tapline.Base.{Text}

module _ {A : Type 0} where
  -- The latest `n` entries.
  abbrev pub latest : ℕ → List A → List A
  latest n xs = drop (length xs - n) xs

  drop-append-le : (m : ℕ) (xs ys : List A) → m ≤ length xs → drop m (xs ++ ys) ≡ drop m xs ++ ys
  drop-append-le zero xs ys h = refl
  drop-append-le (suc m) [] ys h = ground (arith, h)
  drop-append-le (suc m) (x ∷ xs) ys h = drop-append-le m xs ys (omega (arith, h))

  drop-drop : (a b : ℕ) (xs : List A) → drop a (drop b xs) ≡ drop (b + a) xs
  drop-drop a zero xs = let same : a ≡ 0 + a = omega arith in ap (λ k. drop k xs) same
  drop-drop a (suc b) [] = drop_all a [] (omega arith) ∙ sym (drop_all (suc b + a) [] (omega arith))
  drop-drop a (suc b) (x ∷ xs) =
      let same : suc (b + a) ≡ suc b + a = omega arith in
      drop-drop a b xs ∙ ap (λ k. drop k (x ∷ xs)) same

  latest-append : (n : ℕ) (xs ys : List A) → latest n (latest n xs ++ ys) ≡ latest n (xs ++ ys)
  latest-append n xs ys =
      let kept = drop-append-le (length xs - n) xs ys (omega arith) in
      let zs = xs ++ ys in
      let m = length xs - n in
      let count : m + (length (drop m zs) - n) ≡ length zs - n =
        omega (arith, length-drop m zs, length-append xs ys) in
      ap (λ r. latest n r) (sym kept)
      ∙ (drop-drop (length (drop m zs) - n) m zs ∙ ap (λ k. drop k zs) count)

  -- A list within the limit, with one entry more.
  pub shift_one :
      (n : ℕ) (xs : List A) (x : A)
      → length xs ≤ n
      → (if ltb n (length (xs ++ x ∷ [])) then drop 1 (xs ++ x ∷ []) else xs ++ x ∷ [])
        ≡ latest n (xs ++ x ∷ [])
  shift_one n xs x h = elim (Bool-cases (ltb n (length (xs ++ x ∷ [])))) [
    | inl more ↦
        let count : 1 ≡ length (xs ++ x ∷ []) - n =
          ground (arith, h, more, length-append xs (x ∷ [])) in
        rw more (ap (λ k. drop k (xs ++ x ∷ [])) count)
    | inr fits ↦
        let count : 0 ≡ length (xs ++ x ∷ []) - n = ground (arith, fits) in
        rw fits (ap (λ k. drop k (xs ++ x ∷ [])) count)
  ]

  length-latest-le : (n : ℕ) (xs : List A) → length (latest n xs) ≤ n
  length-latest-le n xs = omega (arith, length-drop (length xs - n) xs)

-- The frames of a transaction that take one frame after the other.
unfoldable pub add_frames : List Frame → Transaction → Transaction
unfolding add_frame
add_frames [] t = t
add_frames (f ∷ fs) t = add_frames fs (add_frame f t)

add_frame-frames :
    (f : Frame) (t : Transaction)
    → length t.frames ≤ max_frames
    → (add_frame f t).frames ≡ latest max_frames (t.frames ++ f ∷ [])
unfolding add_frame
add_frame-frames f t h =
    let one = shift_one max_frames t.frames f h in
    elim (Bool-cases (ltb max_frames (length (t.frames ++ f ∷ [])))) [
      | inl more ↦ rw (more, add_frame) (rw more at one)
      | inr fits ↦ rw (fits, add_frame) (rw fits at one)
    ]

-- A transaction keeps the latest 500 of the frames that it had, at most 500, and of those that it
-- is given.
pub add_frames-frames :
    (fs : List Frame) (t : Transaction)
    → length t.frames ≤ max_frames
    → (add_frames fs t).frames ≡ latest max_frames (t.frames ++ fs)
unfolding add_frames
add_frames-frames [] t h =
    let none_over : 0 ≡ length t.frames - max_frames = omega (arith, h) in
    ap (λ k. drop k t.frames) none_over ∙ ap (λ r. latest max_frames r) (sym (append-nil t.frames))
add_frames-frames (f ∷ fs) t h =
    let one = add_frame-frames f t h in
    let fits : length (add_frame f t).frames ≤ max_frames =
      omega (arith, ap length one, length-latest-le max_frames (t.frames ++ f ∷ [])) in
    add_frames-frames fs (add_frame f t) fits
    ∙ (ap (λ r. latest max_frames (r ++ fs)) one
        ∙ (latest-append max_frames (t.frames ++ f ∷ []) fs
            ∙ ap (λ r. latest max_frames r) (append_assoc t.frames (f ∷ []) fs)))

-- A log of at most 2000 entries that takes one more holds the latest 2000, and the entry is
-- announced.
pub log_message-latest :
    (e : Engine) (now : ℕ) (level : LogLevel) (message : Text)
    → length e.logs ≤ max_logs
    → ((log_message e now level message).logs
        ≡ latest max_logs (e.logs ++ record { time = now; level = level; message = message } ∷ []))
      × ((log_message e now level message).emitted
          ≡ e.emitted ++ log (record { time = now; level = level; message = message }) ∷ [])
unfolding log_message shift_logs emit_event
log_message-latest e now level message h =
    (shift_one max_logs e.logs (record { time = now; level = level; message = message }) h, refl)
