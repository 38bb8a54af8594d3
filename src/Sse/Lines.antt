-- ===== src/Sse/Lines.antt =====
-- Line ends of every kind give the same output.
use tapline.Base.{
  ℕ, ◌≡◌, ◌≢◌, refl, sym, ap, ◌∙◌, inl, inr, Bool, true, false, ◌&&◌, [], ◌∷◌, ◌++◌, Text, ◌==◌,
  if◌then◌else◌, arith, Bool-cases, ==_iff,
}
use tapline.Sse.{
  SseParser, initial, consume_line, add_char, read_char, after_cr, push_char, push, lf, cr,
  set_field,
}

-- Every line end written as a line feed; the flag says that a carriage return came just before.
pub unix : Bool → Text → Text
unix after [] = []
unix after (c ∷ s) =
    let rest = unix false s in
    if c == cr then lf ∷ unix true s else if after && c == lf then rest else c ∷ rest

abbrev unskipped : SseParser → SseParser
unskipped s = record s { skip_lf = false }

abbrev IsApart : SseParser → Type 0
IsApart s = s.first ≡ true → s.skip_lf ≡ false

-- A carriage return is a line feed that leaves `skip_lf` set.
push_char-cr :
    (limit : ℕ) (s : SseParser)
    → ((push_char limit s cr).0.skip_lf ≡ true)
      × ((push_char limit s cr).0.first ≡ false)
      × (push_char limit (unskipped s) lf
          ≡ (unskipped (push_char limit s cr).0, (push_char limit s cr).1))
unfolding push_char after_cr read_char consume_line set_field
push_char-cr limit s = ground arith

-- Any other character but a line feed behind a carriage return is read alike with and without
-- `skip_lf`, and leaves it unset.
push_char_other :
    (limit : ℕ) (s : SseParser) (c : ℕ)
    → IsApart s
    → c ≢ cr
    → (s.skip_lf && c == lf) ≡ false
    → ((push_char limit s c).0.skip_lf ≡ false)
      × ((push_char limit s c).0.first ≡ false)
      × (push_char limit (unskipped s) c ≡ push_char limit s c)
unfolding push_char after_cr read_char add_char consume_line set_field
push_char_other limit s c a ne h = ground arith

push_char-lf :
    (limit : ℕ) (s : SseParser)
    → IsApart s
    → s.skip_lf ≡ true
    → push_char limit s lf ≡ (unskipped s, [])
unfolding push_char after_cr
push_char-lf limit s a h = ground arith

unskipped_eq : (s : SseParser) → s.skip_lf ≡ false → unskipped s ≡ s
unskipped_eq s h = λ i. record s { skip_lf = sym h i }

push-unix_from :
    (limit : ℕ) (s : SseParser) (cs : Text)
    → IsApart s
    → (push limit s cs).1 ≡ (push limit (unskipped s) (unix s.skip_lf cs)).1
unfolding push unix
push-unix_from limit s [] a = refl
push-unix_from limit s (c ∷ cs) a = elim (Bool-cases (c == cr)) [
  | inl is ↦
      let e : c ≡ cr = (==_iff c cr).0 is in
      let (skip, first, same) = push_char-cr limit s in
      let ih = push-unix_from limit (push_char limit s cr).0 cs (λ h. cc) in
      rw (is, e, same) (ap (◌++◌ (push_char limit s cr).1) (rw skip at ih))
  | inr other ↦ elim (Bool-cases (s.skip_lf && c == lf)) [
    | inl joined ↦
        let e : c ≡ lf = ground arith in
        let skip : s.skip_lf ≡ true = ground arith in
        rw (other, joined, e, push_char-lf limit s a skip)
          (push-unix_from limit (unskipped s) cs (λ h. refl))
    | inr apart ↦
        let ne : c ≢ cr = ground arith in
        let (skip, first, same) = push_char_other limit s c a ne apart in
        let ih = push-unix_from limit (push_char limit s c).0 cs (λ h. cc) in
        rw (other, apart, same)
          (ap (◌++◌ (push_char limit s c).1)
            (rw skip at ih ∙ ap (λ t. (push limit t (unix false cs)).1) (unskipped_eq _ skip)))
  ]
]

-- A stream whose lines end in CR, LF or CRLF, mixed in any way and cut anywhere, gives the output of
-- the same stream with a line feed for each line end.
pub push-unix :
    (limit : ℕ) (cs : Text) → (push limit initial cs).1 ≡ (push limit initial (unix false cs)).1
push-unix limit cs = push-unix_from limit initial cs (λ h. refl)
