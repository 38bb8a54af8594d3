-- ===== src/Filter/Ordered.antt =====
-- src/webview/lib/filter.ts: sortRows, against what it promises.
use mathlib.Core.List.{Permᴰ}
use mathlib.Core.List.Permᴰ
use tapline.Base.{
  ◌≡◌, ◌≢◌, ◌↔◌, refl, sym, ap, ◌∙◌, subst, inl, inr, Bool-cases, false, List, [], ◌∷◌, All, arith,
}
use tapline.Filter.{Row}
use tapline.Filter.Sorting.{Sort, LocaleCompare, compare_rows, not_above, insert_row, sort_rows}
use tapline.Filter.Placed.{Precedes, compare_rows_iff}
use tapline.Filter.Comparing.{IsNotAbove, IsLocale, compare_rows-IsOrder, compare_rows-sequence}

-- Each row may stand before those behind it.
abbrev pub IsSorted : LocaleCompare → Sort → List Row → Type 0
IsSorted locale sort [] = Unit {0}
IsSorted locale sort (a ∷ rows) = All (Precedes locale sort a) rows × IsSorted locale sort rows

-- The same rows in order.
abbrev pub IsSorting : LocaleCompare → Sort → List Row → List Row → Type 0
IsSorting locale sort rows sorted = Permᴰ sorted rows × IsSorted locale sort sorted

-- As the comparison has it.
abbrev IsSortedBy : LocaleCompare → Sort → List Row → Type 0
IsSortedBy locale sort [] = Unit {0}
IsSortedBy locale sort (a ∷ rows) =
    All (λ b. IsNotAbove (compare_rows locale sort a b)) rows × IsSortedBy locale sort rows

All-each {ℓ κ} :
    {A : Type ℓ} {P Q : A → Type κ} → ((a : A) → P a → Q a) → (xs : List A) → All P xs → All Q xs
All-each f [] h = tt
All-each f (x ∷ xs) (h, hs) = (f x h, All-each f xs hs)

IsSortedBy-iff :
    (locale : LocaleCompare) (sort : Sort)
    → IsLocale locale
    → (rows : List Row) → IsSortedBy locale sort rows ↔ IsSorted locale sort rows
IsSortedBy-iff locale sort l [] = ((λ h. tt), (λ h. tt))
IsSortedBy-iff locale sort l (a ∷ rows) =
    let rest = IsSortedBy-iff locale sort l rows in
    (
      λ (h, hs). (All-each (λ b. (compare_rows_iff locale sort l a b).0) rows h, rest.0 hs),
      λ (h, hs). (All-each (λ b. (compare_rows_iff locale sort l a b).1) rows h, rest.1 hs),
    )

-- No two rows have one sequence number.
abbrev pub IsNumbered : List Row → Type 0
IsNumbered [] = Unit {0}
IsNumbered (a ∷ rows) = All (λ b. a.sequence ≢ b.sequence) rows × IsNumbered rows

module _ (locale : LocaleCompare) (sort : Sort) where
  insert_row-perm : (a : Row) (rows : List Row) → Permᴰ (insert_row locale sort a rows) (a ∷ rows)
  unfolding insert_row
  insert_row-perm a [] = Permᴰ.refl (a ∷ [])
  insert_row-perm a (b ∷ rows) = elim (Bool-cases (not_above (compare_rows locale sort a b))) [
    | inl e ↦ rw e (Permᴰ.refl (a ∷ b ∷ rows))
    | inr e ↦ rw e (Permᴰ.trans (Permᴰ.cons refl (insert_row-perm a rows)) (Permᴰ.swap refl refl))
  ]

  sort_rows-perm : (rows : List Row) → Permᴰ (sort_rows locale sort rows) rows
  unfolding sort_rows
  sort_rows-perm [] = Permᴰ.nil
  sort_rows-perm (a ∷ rows) =
      Permᴰ.trans (insert_row-perm a (sort_rows locale sort rows))
        (Permᴰ.cons refl (sort_rows-perm rows))

  module _ (l : IsLocale locale) where
    abbrev Before : Row → Row → Type 0
    Before a b = IsNotAbove (compare_rows locale sort a b)

    other_way : (a b : Row) → not_above (compare_rows locale sort a b) ≡ false → Before b a
    other_way a b h = let o = compare_rows-IsOrder locale l sort in ground (arith, o.flip a b)

    All-trans :
        (a b : Row) (rows : List Row) → Before a b → All (Before b) rows → All (Before a) rows
    All-trans a b [] h k = tt
    All-trans a b (c ∷ rows) h (k, ks) =
        ((compare_rows-IsOrder locale l sort).trans a b c h k, All-trans a b rows h ks)

    All-insert_row :
        (b a : Row) (rows : List Row)
        → Before b a
        → All (Before b) rows
        → All (Before b) (insert_row locale sort a rows)
    unfolding insert_row
    All-insert_row b a [] h k = (h, tt)
    All-insert_row b a (c ∷ rows) h (k, ks) =
        elim (Bool-cases (not_above (compare_rows locale sort a c))) [
          | inl e ↦ rw e (h, (k, ks))
          | inr e ↦ rw e (k, All-insert_row b a rows h ks)
        ]

    insert_row-IsSortedBy :
        (a : Row) (rows : List Row)
        → IsSortedBy locale sort rows
        → IsSortedBy locale sort (insert_row locale sort a rows)
    unfolding insert_row
    insert_row-IsSortedBy a [] s = (tt, tt)
    insert_row-IsSortedBy a (b ∷ rows) (h, s) =
        elim (Bool-cases (not_above (compare_rows locale sort a b))) [
          | inl e ↦ rw e ((e, All-trans a b rows e h), (h, s))
          | inr e ↦
              rw e (All-insert_row b a rows (other_way a b e) h, insert_row-IsSortedBy a rows s)
        ]

    sort_rows-IsSortedBy : (rows : List Row) → IsSortedBy locale sort (sort_rows locale sort rows)
    unfolding sort_rows
    sort_rows-IsSortedBy [] = tt
    sort_rows-IsSortedBy (a ∷ rows) =
        insert_row-IsSortedBy a (sort_rows locale sort rows) (sort_rows-IsSortedBy rows)

    insert_row-first :
        (a : Row) (rows : List Row) → All (Before a) rows → insert_row locale sort a rows ≡ a ∷ rows
    unfolding insert_row
    insert_row-first a [] h = refl
    insert_row-first a (b ∷ rows) (h, hs) = rw h refl

    sort_rows-sorted :
        (rows : List Row) → IsSortedBy locale sort rows → sort_rows locale sort rows ≡ rows
    unfolding sort_rows
    sort_rows-sorted [] s = refl
    sort_rows-sorted (a ∷ rows) (h, s) =
        ap (insert_row locale sort a) (sort_rows-sorted rows s) ∙ insert_row-first a rows h

    -- Rows with different numbers can be inserted in either order.
    insert_row-insert_row :
        (a b : Row) (rows : List Row)
        → a.sequence ≢ b.sequence
        → insert_row locale sort a (insert_row locale sort b rows)
          ≡ insert_row locale sort b (insert_row locale sort a rows)
    unfolding insert_row
    insert_row-insert_row a b [] d =
        let o = compare_rows-IsOrder locale l sort in
        ground (arith, o.flip a b, compare_rows-sequence locale sort l a b)
    insert_row-insert_row a b (c ∷ rows) d =
        let o = compare_rows-IsOrder locale l sort in
        ground (
          arith,
          o.flip a b,
          compare_rows-sequence locale sort l a b,
          o.trans a b c,
          o.trans b a c,
          insert_row-insert_row a b rows d,
        )

    apart_perm :
        (a : Row) {rows others : List Row}
        → Permᴰ rows others
        → All (λ b. a.sequence ≢ b.sequence) rows
        → All (λ b. a.sequence ≢ b.sequence) others
    apart_perm a Permᴰ.nil h = h
    apart_perm a (Permᴰ.cons e p) (h, hs) =
        (subst (λ (x : Row). a.sequence ≢ x.sequence) e h, apart_perm a p hs)
    apart_perm a (Permᴰ.swap e f) (h, (k, hs)) = (
      subst (λ (x : Row). a.sequence ≢ x.sequence) f k,
      (subst (λ (x : Row). a.sequence ≢ x.sequence) e h, hs),
    )
    apart_perm a (Permᴰ.trans p q) h = apart_perm a q (apart_perm a p h)

    IsNumbered-perm :
        {rows others : List Row} → Permᴰ rows others → IsNumbered rows → IsNumbered others
    IsNumbered-perm Permᴰ.nil h = h
    IsNumbered-perm (Permᴰ.cons {a = a} {l₂ = l₂} e p) (h, hs) = (
      subst (λ (x : Row). All (λ c. x.sequence ≢ c.sequence) l₂) e (apart_perm a p h),
      IsNumbered-perm p hs,
    )
    IsNumbered-perm (Permᴰ.swap {a = a} {b = b} {a' = a'} {b' = b'} {l = rest} e f)
          ((d, h), (k, hs)) =
        let far = λ (x : Row). All (λ c. x.sequence ≢ c.sequence) rest in
        (
          (
            λ same. d (
                ap (λ (x : Row). x.sequence) e ∙ (sym same ∙ ap (λ (x : Row). x.sequence) (sym f))),
            subst far f k,
          ),
          (subst far e h, hs),
        )
    IsNumbered-perm (Permᴰ.trans p q) h = IsNumbered-perm q (IsNumbered-perm p h)

    -- The order in which rows arrived does not matter.
    sort_rows_perm :
        {rows others : List Row}
        → Permᴰ rows others
        → IsNumbered rows
        → sort_rows locale sort rows ≡ sort_rows locale sort others
    unfolding sort_rows
    sort_rows_perm Permᴰ.nil h = refl
    sort_rows_perm (Permᴰ.cons {a = a} {l₂ = l₂} e p) (h, hs) =
        ap (insert_row locale sort a) (sort_rows_perm p hs)
        ∙ ap (λ x. insert_row locale sort x (sort_rows locale sort l₂)) e
    sort_rows_perm (Permᴰ.swap {a = a} {b = b} {a' = a'} {l = rest} e f) ((d, h), hs) =
        insert_row-insert_row a b (sort_rows locale sort rest) d
        ∙ (ap
              (λ x.
                insert_row locale sort x (insert_row locale sort a (sort_rows locale sort rest)))
              f
            ∙ ap
                (λ x.
                  insert_row locale sort a' (insert_row locale sort x (sort_rows locale sort rest)))
                e)
    sort_rows_perm (Permᴰ.trans p q) h = sort_rows_perm p h ∙ sort_rows_perm q (IsNumbered-perm p h)

-- With an order of texts that has the empty one first, and rows of different sequence numbers: the
-- rows that are sorted by a column are the one list of the same rows in which each precedes those
-- behind it. It precedes them by the value of the column, the less one first where the order
-- ascends and the greater one where it descends, and where the values are the same by its number; a
-- missing status is less than every other.
pub sort_rows_iff :
    (locale : LocaleCompare) (sort : Sort) (rows sorted : List Row)
    → IsLocale locale
    → IsNumbered rows
    → (sorted ≡ sort_rows locale sort rows) ↔ IsSorting locale sort rows sorted
sort_rows_iff locale sort rows sorted l d =
    let ordered = λ (r : List Row). IsSortedBy-iff locale sort l r in
    (
      λ e. subst (IsSorting locale sort rows) (sym e) (
        sort_rows-perm locale sort rows,
        (ordered (sort_rows locale sort rows)).0 (sort_rows-IsSortedBy locale sort l rows),
      ),
      λ (p, s).
          sym (sort_rows-sorted locale sort l sorted ((ordered sorted).1 s))
          ∙ sym (sort_rows_perm locale sort l (Permᴰ.symm p) d),
    )
