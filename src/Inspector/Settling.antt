-- ===== src/Inspector/Settling.antt =====
-- src/core/inspector.ts: a stop settles what waits for the core.
use tapline.Base.{
  ℕ, ◌+◌, ◌≡◌, refl, ap, ◌∙◌, inl, inr, Option-cases, Bool, true, false, ◌||◌, Option, none, some,
  List, [], ◌∷◌, ◌++◌, Text, text, text_eq, text_eq_iff, includes, Assoc, get, get-remove,
  if◌then◌else◌, arith,
}
use tapline.Inspector.{Inspector, Settled, rejected}
use tapline.Inspector.Control.{
  finish_send, finish_control, finish_controls, finish_sends, ids, reject_controls, reject_sends,
  shutdown, stop,
}

-- How often a promise was settled.
abbrev pub settles : Text → List (Text × Settled) → ℕ
settles j [] = 0
settles j ((id, outcome) ∷ settled) = (if text_eq id j then 1 else 0) + settles j settled

abbrev pub waiting : Text → Assoc Bool → ℕ
waiting j m = elim (get j m) [ none ↦ 0 | some _ ↦ 1 ]

settles-append :
    (j : Text) (xs ys : List (Text × Settled)) → settles j (xs ++ ys) ≡ settles j xs + settles j ys
settles-append j [] ys = omega arith
settles-append j ((id, outcome) ∷ xs) ys = omega (arith, settles-append j xs ys)

-- Whoever waits is named.
ids-get : (j : Text) (m : Assoc Bool) → includes (ids m) j ≡ false → get j m ≡ none
unfolding get includes
ids-get j [] h = refl
ids-get j ((k, v) ∷ m) h = ground (arith, ids-get j m)

-- What settling under one id changes for another.
record Settles (j : Text) (here : Bool) (old new : Assoc Bool)
    (before after : List (Text × Settled)) : Type 0 where
  left : get j new ≡ (if here then none else get j old)
  count : settles j after ≡ settles j before + (if here then waiting j old else 0)

module _ (j : Text) (outcome : Settled) where
  finish_control-Settles :
      (i : Inspector) (id : Text)
      → Settles j
          (text_eq id j)
          i.controls
          (finish_control i id outcome).controls
          i.settled
          (finish_control i id outcome).settled
  unfolding finish_control
  finish_control-Settles i id = elim (Option-cases (get id i.controls)) [
    | inl gone ↦
        rw (gone, finish_control)
          (record {
            left = ground (arith, gone, text_eq_iff id j);
            count = ground (arith, gone, text_eq_iff id j);
          })
    | inr (b, found) ↦
        rw (found, finish_control)
          (record {
            left = get-remove id j i.controls;
            count =
                settles-append j i.settled ((id, outcome) ∷ [])
                ∙ ground (arith, found, text_eq_iff id j);
          })
  ]

  finish_send-Settles :
      (i : Inspector) (id : Text)
      → Settles j
          (text_eq id j)
          i.pending_sends
          (finish_send i id outcome).pending_sends
          i.settled
          (finish_send i id outcome).settled
  unfolding finish_send
  finish_send-Settles i id = elim (Option-cases (get id i.pending_sends)) [
    | inl gone ↦
        rw (gone, finish_send)
          (record {
            left = ground (arith, gone, text_eq_iff id j);
            count = ground (arith, gone, text_eq_iff id j);
          })
    | inr (b, found) ↦
        rw (found, finish_send)
          (record {
            left = get-remove id j i.pending_sends;
            count =
                settles-append j i.settled ((id, outcome) ∷ [])
                ∙ ground (arith, found, text_eq_iff id j);
          })
  ]

  both_Settles :
      (here there : Bool) (a b c : Assoc Bool) (x y z : List (Text × Settled))
      → Settles j here a b x y
      → Settles j there b c y z
      → Settles j (here || there) a c x z
  both_Settles here there a b c x y z h k = record {
    left = ground (arith, h.left, k.left);
    count = ground (arith, h.left, h.count, k.count);
  }

  none_Settles : (m : Assoc Bool) (x : List (Text × Settled)) → Settles j false m m x x
  none_Settles m x = record { left = refl; count = omega arith }

  finish_controls-Settles :
      (names : List Text) (i : Inspector)
      → Settles j
          (includes names j)
          i.controls
          (finish_controls outcome names i).controls
          i.settled
          (finish_controls outcome names i).settled
  unfolding finish_controls includes
  finish_controls-Settles [] i = none_Settles i.controls i.settled
  finish_controls-Settles (id ∷ names) i =
      let i' = finish_control i id outcome in
      both_Settles (text_eq id j) (includes names j) i.controls i'.controls
        (finish_controls outcome names i').controls i.settled i'.settled
        (finish_controls outcome names i').settled (finish_control-Settles i id)
        (finish_controls-Settles names i')

  finish_sends-Settles :
      (names : List Text) (i : Inspector)
      → Settles j
          (includes names j)
          i.pending_sends
          (finish_sends outcome names i).pending_sends
          i.settled
          (finish_sends outcome names i).settled
  unfolding finish_sends includes
  finish_sends-Settles [] i = none_Settles i.pending_sends i.settled
  finish_sends-Settles (id ∷ names) i =
      let i' = finish_send i id outcome in
      both_Settles (text_eq id j) (includes names j) i.pending_sends i'.pending_sends
        (finish_sends outcome names i').pending_sends i.settled i'.settled
        (finish_sends outcome names i').settled (finish_send-Settles i id)
        (finish_sends-Settles names i')

  -- Settling a control leaves the sends, and the other way round.
  finish_controls-sends :
      (names : List Text) (i : Inspector)
      → (finish_controls outcome names i).pending_sends ≡ i.pending_sends
  unfolding finish_controls finish_control
  finish_controls-sends [] i = refl
  finish_controls-sends (id ∷ names) i =
      finish_controls-sends names (finish_control i id outcome) ∙ one (get id i.controls) refl
    where
      one :
          (o : Option Bool)
          → get id i.controls ≡ o
          → (finish_control i id outcome).pending_sends ≡ i.pending_sends
      one none e = rw (e, finish_control) refl
      one (some b) e = rw (e, finish_control) refl

  finish_sends-controls :
      (names : List Text) (i : Inspector) → (finish_sends outcome names i).controls ≡ i.controls
  unfolding finish_sends finish_send
  finish_sends-controls [] i = refl
  finish_sends-controls (id ∷ names) i =
      finish_sends-controls names (finish_send i id outcome) ∙ one (get id i.pending_sends) refl
    where
      one :
          (o : Option Bool)
          → get id i.pending_sends ≡ o
          → (finish_send i id outcome).controls ≡ i.controls
      one none e = rw (e, finish_send) refl
      one (some b) e = rw (e, finish_send) refl

  -- All that wait are named.
  all_Settles :
      (old new : Assoc Bool) (before after : List (Text × Settled))
      → Settles j (includes (ids old) j) old new before after
      → (get j new ≡ none) × (settles j after ≡ settles j before + waiting j old)
  all_Settles old new before after h =
      (ground (arith, h.left, ids-get j old), ground (arith, h.count, ids-get j old))

-- The first stop leaves nothing waiting for the core, neither a message to a WebSocket nor a change
-- of an inlet, and settles each of them once: an id was settled as often as before and as it waited.
pub stop-settles :
    (i : Inspector) (id : Text)
    → i.stopping ≡ false
    → (get id (stop i).controls ≡ none)
      × (get id (stop i).pending_sends ≡ none)
      × (settles id (stop i).settled
          ≡ settles id i.settled + (waiting id i.controls + waiting id i.pending_sends))
unfolding stop shutdown
stop-settles i id first =
    let i1 : Inspector = record i { stopping = true; websocket_send = false } in
    let i2 = reject_controls (text "Core stopped") i1 in
    let i3 = reject_sends (text "Capture stopped") i2 in
    let core = rejected (text "Core stopped") in
    let capture = rejected (text "Capture stopped") in
    let (c, n) =
      all_Settles id core i1.controls i2.controls i1.settled i2.settled
        (finish_controls-Settles id core (ids i1.controls) i1) in
    let (d, m) =
      all_Settles id capture i2.pending_sends i3.pending_sends i2.settled i3.settled
        (finish_sends-Settles id capture (ids i2.pending_sends) i2) in
    let sends : i2.pending_sends ≡ i.pending_sends =
      finish_controls-sends id core (ids i1.controls) i1 in
    let controls : i3.controls ≡ i2.controls =
      finish_sends-controls id capture (ids i2.pending_sends) i2 in
    let total : settles id i3.settled
        ≡ settles id i.settled + (waiting id i.controls + waiting id i.pending_sends) =
      omega (arith, n, m, ap (λ x. waiting id x) sends) in
    rw (first, stop) (ap (get id) controls ∙ c, d, total)
