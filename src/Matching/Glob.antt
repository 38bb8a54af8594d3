-- ===== src/Matching/Glob.antt =====
-- What a pattern with stars matches.
use tapline.Base.{
  ℕ, ◌≡◌, ◌≢◌, refl, sym, ap, ◌∙◌, inl, inr, ◌↔◌, true, false, some, List, [], ◌∷◌, ◌++◌, map,
  append_assoc, append-nil, All, Text, join, split, split_from, ◌==◌, if◌then◌else◌, arith,
  Bool-cases, ==_iff,
}
use tapline.Matching.{
  star, is_terminator, is_escaped, is_syntax, escape, source_of, Item, literal, any_run, also_item,
  read_items, run_items, glob,
}

-- A star stands for a run of characters, none of them a line terminator; any other character for
-- one that `fold` makes the same.
pub data Globs (fold : ℕ → ℕ) : Text → Text → Type 0 where
  stop : Globs fold [] []
  one :
      {c d : ℕ} {p s : Text}
      → c ≢ star
      → fold c ≡ fold d
      → Globs fold p s
      → Globs fold (c ∷ p) (d ∷ s)
  run :
      {c : ℕ} {p s t : Text} (r : Text)
      → c ≡ star
      → All (λ d. is_terminator d ≡ false) r
      → Globs fold p s
      → t ≡ r ++ s
      → Globs fold (c ∷ p) t

-- What the source of a pattern should be read as.
items_of : Text → List Item
items_of [] = []
items_of (c ∷ p) = let rest = items_of p in if c == star then any_run ∷ rest else literal c ∷ rest

read_items-literal :
    (c : ℕ) (s : Text)
    → is_syntax c ≡ false
    → read_items (c ∷ s) ≡ also_item (literal c) (read_items s)
unfolding read_items is_syntax
read_items-literal c [] h = ground arith
read_items-literal c (d ∷ s) h = ground arith

read_items-syntax :
    (c : ℕ) (s : Text)
    → is_syntax c ≡ true
    → read_items (b'\\' ∷ c ∷ s) ≡ also_item (literal c) (read_items s)
unfolding read_items
read_items-syntax c s h = rw h refl

read_items-any : (s : Text) → read_items (b'.' ∷ star ∷ s) ≡ also_item any_run (read_items s)
unfolding read_items
read_items-any s = refl

-- Each character that needs it is escaped, and no other.
is_escaped-is_syntax : (c : ℕ) → is_escaped c ≡ is_syntax c
unfolding is_escaped is_syntax
is_escaped-is_syntax c = ground arith

read_items-escape :
    (cur rest : Text) (items : List Item)
    → read_items rest ≡ some items
    → read_items (escape cur ++ rest) ≡ some (map literal cur ++ items)
unfolding escape
read_items-escape [] rest items e = e
read_items-escape (c ∷ cur) rest items e = elim (Bool-cases (is_escaped c)) [
  | inl special ↦ rw special (
      read_items-syntax c (escape cur ++ rest) (sym (is_escaped-is_syntax c) ∙ special)
      ∙ ap (also_item (literal c)) (read_items-escape cur rest items e))
  | inr plain ↦ rw plain (
      read_items-literal c (escape cur ++ rest) (sym (is_escaped-is_syntax c) ∙ plain)
      ∙ ap (also_item (literal c)) (read_items-escape cur rest items e))
]

abbrev any_source : Text
any_source = b'.' ∷ star ∷ []

-- There is always a last part.
join-split_from :
    (first cur p : Text)
    → join any_source (first ∷ map escape (split_from star cur p))
      ≡ first ++ (any_source ++ join any_source (map escape (split_from star cur p)))
unfolding join split_from
join-split_from first cur [] = refl
join-split_from first cur (c ∷ p) = elim (Bool-cases (c == star)) [
  | inl is ↦ rw is refl
  | inr other ↦ rw other (join-split_from first (cur ++ c ∷ []) p)
]

map-append : (f : ℕ → Item) (xs ys : Text) → map f (xs ++ ys) ≡ map f xs ++ map f ys
map-append f [] ys = refl
map-append f (x ∷ xs) ys = ap (λ r. f x ∷ r) (map-append f xs ys)

read_items-parts :
    (cur p : Text)
    → read_items (join any_source (map escape (split_from star cur p)))
      ≡ some (map literal cur ++ items_of p)
unfolding join split_from items_of
read_items-parts cur [] =
    ap read_items (sym (append-nil (escape cur)))
    ∙ read_items-escape cur [] [] (unfold read_items in refl)
read_items-parts cur (c ∷ p) = elim (Bool-cases (c == star)) [
  | inl is ↦ rw is (
      ap read_items (join-split_from (escape cur) [] p)
      ∙ read_items-escape cur _ (any_run ∷ items_of p)
          (read_items-any _ ∙ ap (also_item any_run) (read_items-parts [] p)))
  | inr other ↦ rw other (
      read_items-parts (cur ++ c ∷ []) p
      ∙ ap (λ r. some (r ++ items_of p)) (map-append literal cur (c ∷ []))
      ∙ ap (λ r. some r) (append_assoc (map literal cur) (literal c ∷ []) (items_of p)))
]

read_items-source_of : (p : Text) → read_items (source_of p) ≡ some (items_of p)
unfolding source_of split
read_items-source_of p = read_items-parts [] p

module _ (fold : ℕ → ℕ) where
  abbrev Runs : Text → Text → Type 0
  Runs p s = run_items fold (items_of p) s ≡ true

  Globs-more :
      {c : ℕ} {p s : Text} (d : ℕ)
      → c ≡ star
      → is_terminator d ≡ false
      → Globs fold (c ∷ p) s
      → Globs fold (c ∷ p) (d ∷ s)
  Globs-more d is h (one ne same g) = absurd (ne is)
  Globs-more d is h (run r e ok g eq) = run (d ∷ r) e (h, ok) g (ap (λ t. d ∷ t) eq)

  run_items_sound : (p s : Text) → Runs p s → Globs fold p s
  unfolding run_items items_of
  run_items_sound [] [] h = stop
  run_items_sound [] (d ∷ s) h = cc
  run_items_sound (c ∷ p) [] h = elim (Bool-cases (c == star)) [
    | inl is ↦ run [] ((==_iff c star).0 is) tt (run_items_sound p [] (rw is at h)) refl
    | inr other ↦ cc (rw other at h)
  ]
  run_items_sound (c ∷ p) (d ∷ s) h = elim (Bool-cases (c == star)) [
    | inl is ↦
        let h' = (rw is at h) in
        elim (Bool-cases (run_items fold (items_of p) (d ∷ s))) [
          | inl skip ↦ run [] ((==_iff c star).0 is) tt (run_items_sound p (d ∷ s) skip) refl
          | inr go ↦
              Globs-more d ((==_iff c star).0 is) (ground (arith, h', go))
                (run_items_sound (c ∷ p) s (rw is (ground (arith, h', go))))
        ]
    | inr other ↦
        let h' = (rw other at h) in
        one (ground (arith, other)) (ground (arith, h')) (run_items_sound p s (ground (arith, h')))
  ]

  -- The star may take nothing, or the next character too.
  run_items_run :
      (items : List Item) (r s : Text)
      → All (λ d. is_terminator d ≡ false) r
      → run_items fold items s ≡ true
      → run_items fold (any_run ∷ items) (r ++ s) ≡ true
  unfolding run_items
  run_items_run items [] [] ok h = h
  run_items_run items [] (d ∷ s) ok h = rw h
  run_items_run items (d ∷ r) s (k, ok) h = ground (arith, run_items_run items r s ok h)

  run_items_complete : {p s : Text} → Globs fold p s → Runs p s
  unfolding run_items items_of
  run_items_complete stop = refl
  run_items_complete (one {c} {d} {p} {s} ne same g) =
      let other : (c == star) ≡ false = ground arith in
      rw other (ground (arith, run_items_complete g, same))
  run_items_complete (run {c} {p} {s} {t} r e ok g eq) =
      rw (e, eq) (run_items_run (items_of p) r s ok (run_items_complete g))

  pub glob_iff : (p s : Text) → (glob fold p s ≡ true) ↔ Globs fold p s
  unfolding glob
  glob_iff p s = rw (glob, read_items-source_of p) (run_items_sound p s, run_items_complete)
