-- ===== src/Filter/Comparing.antt =====
-- src/webview/lib/filter.ts: the comparison that sortRows gives to `sort` is a total order of rows
-- with different sequence numbers.
use Prim.Native.Nat.{Ordering}
use Prim.Native.Nat as Nat
use tapline.Base.{
  ℕ, ◌≡◌, refl, sym, ap, ◌∙◌, Bool, true, false, Option, none, some, [], decimal, if◌then◌else◌,
  arith,
}
use tapline.Filter.{Row, or_none}
use tapline.Filter.Sorting.{
  Column, sequence, status, method, http_version, url, server_address, timestamp, duration,
  response_bytes, Sort, key, LocaleCompare, compare_values, flipped, or_else_by, compare_rows,
  not_above,
}

abbrev pub IsNotAbove : Ordering → Type 0
IsNotAbove o = not_above o ≡ true

-- A comparison by a total preorder.
pub record IsOrder {ℓ} {A : Type ℓ} (by : A → A → Ordering) : Type ℓ where
  pub flip : (a b : A) → by b a ≡ flipped (by a b)
  pub trans : (a b c : A) → IsNotAbove (by a b) → IsNotAbove (by b c) → IsNotAbove (by a c)

-- What the order of texts must be; the empty text stands before every other.
pub record IsLocale (locale : LocaleCompare) : Type 0 where
  pub order : IsOrder locale
  pub empty_first : (n : ℕ) → locale [] (decimal n) ≡ Ordering.lt

numbers-IsOrder : IsOrder (λ (a b : ℕ). Nat.compare a b)
numbers-IsOrder = record { flip = λ a b. ground arith; trans = λ a b c h k. ground arith }

module _ {ℓ} {A : Type ℓ} where
  flipped-IsOrder : (by : A → A → Ordering) → IsOrder by → IsOrder (λ a b. flipped (by a b))
  flipped-IsOrder by o = record {
    flip = λ a b. ap flipped (o.flip a b);
    trans = λ a b c h k. ground (arith, o.flip a b, o.flip b c, o.flip a c, o.trans c b a);
  }

  both-IsOrder :
      (f g : A → A → Ordering) → IsOrder f → IsOrder g → IsOrder (λ a b. or_else_by (f a b) (g a b))
  both-IsOrder f g o u = record {
    flip = λ a b. ground (arith, o.flip a b, u.flip a b);
    trans = λ a b c h k. ground (
      arith,
      o.flip a b,
      o.flip b c,
      o.flip a c,
      o.trans a b c,
      o.trans b c a,
      o.trans c a b,
      u.trans a b c,
    );
  }

module _ {ℓ κ} {A : Type ℓ} {B : Type κ} where
  through-IsOrder :
      (f : A → B) (by : B → B → Ordering) → IsOrder by → IsOrder (λ a b. by (f a) (f b))
  through-IsOrder f by o = record {
    flip = λ a b. o.flip (f a) (f b);
    trans = λ a b c. o.trans (f a) (f b) (f c);
  }

-- A number, or a missing one, which counts as the empty text.
abbrev pub optional_compare : LocaleCompare → Option ℕ → Option ℕ → Ordering
optional_compare locale none none = locale [] []
optional_compare locale none (some n) = locale [] (decimal n)
optional_compare locale (some n) none = locale (decimal n) []
optional_compare locale (some n) (some m) = Nat.compare n m

optional_compare_flip :
    (locale : LocaleCompare)
    → IsLocale locale
    → (a b : Option ℕ) → optional_compare locale b a ≡ flipped (optional_compare locale a b)
optional_compare_flip locale l none none = l.order.flip [] []
optional_compare_flip locale l none (some n) = l.order.flip [] (decimal n)
optional_compare_flip locale l (some n) none = l.order.flip (decimal n) []
optional_compare_flip locale l (some n) (some m) = ground arith

optional_compare_trans :
    (locale : LocaleCompare)
    → IsLocale locale
    → (a b c : Option ℕ) → IsNotAbove (optional_compare locale a b)
    → IsNotAbove (optional_compare locale b c)
    → IsNotAbove (optional_compare locale a c)
optional_compare_trans locale l none none none h k = h
optional_compare_trans locale l none none (some m) h k = k
optional_compare_trans locale l none (some n) none h k =
    ground (arith, l.order.flip [] (decimal n), l.empty_first n)
optional_compare_trans locale l none (some n) (some m) h k = ground (arith, l.empty_first m)
optional_compare_trans locale l (some n) none none h k = h
optional_compare_trans locale l (some n) none (some m) h k =
    ground (arith, l.order.flip [] (decimal n), l.empty_first n)
optional_compare_trans locale l (some n) (some m) none h k =
    ground (arith, l.order.flip [] (decimal m), l.empty_first m)
optional_compare_trans locale l (some n) (some m) (some i) h k = ground arith

optional-IsOrder : (locale : LocaleCompare) → IsLocale locale → IsOrder (optional_compare locale)
optional-IsOrder locale l = record {
  flip = optional_compare_flip locale l;
  trans = optional_compare_trans locale l;
}

pub compare_status :
    (locale : LocaleCompare) (a b : Option ℕ) (r s : Row)
    → r.status ≡ a
    → s.status ≡ b
    → compare_values locale (key r status) (key s status) ≡ optional_compare locale a b
unfolding key compare_values
compare_status locale none none r s e f = rw (e, f) refl
compare_status locale none (some m) r s e f = rw (e, f) refl
compare_status locale (some n) none r s e f = rw (e, f) refl
compare_status locale (some n) (some m) r s e f = rw (e, f) refl

-- An order of rows is one when it gives the same comparisons.
as-IsOrder {ℓ} :
    {A : Type ℓ} (f g : A → A → Ordering) → ((a b : A) → g a b ≡ f a b) → IsOrder f → IsOrder g
as-IsOrder f g e o = record {
  flip = λ a b. e b a ∙ (o.flip a b ∙ ap flipped (sym (e a b)));
  trans = λ a b c h k. ground (arith, e a b, e b c, e a c, o.trans a b c);
}

values-IsOrder :
    (locale : LocaleCompare)
    → IsLocale locale
    → (c : Column) → IsOrder (λ (a b : Row). compare_values locale (key a c) (key b c))
unfolding key compare_values
values-IsOrder locale l sequence = through-IsOrder (λ (r : Row). r.sequence) _ numbers-IsOrder
values-IsOrder locale l timestamp = through-IsOrder (λ (r : Row). r.sequence) _ numbers-IsOrder
values-IsOrder locale l duration = through-IsOrder (λ (r : Row). r.duration) _ numbers-IsOrder
values-IsOrder locale l response_bytes =
    through-IsOrder (λ (r : Row). r.response_bytes) _ numbers-IsOrder
values-IsOrder locale l method = through-IsOrder (λ (r : Row). r.method) locale l.order
values-IsOrder locale l url = through-IsOrder (λ (r : Row). r.url) locale l.order
values-IsOrder locale l http_version =
    through-IsOrder (λ (r : Row). or_none r.http_version) locale l.order
values-IsOrder locale l server_address =
    through-IsOrder (λ (r : Row). or_none r.server_address) locale l.order
values-IsOrder locale l status =
    as-IsOrder _ _ (λ (r s : Row). compare_status locale r.status s.status r s refl refl)
      (through-IsOrder (λ (r : Row). r.status) (optional_compare locale)
        (optional-IsOrder locale l))

directed-IsOrder {ℓ} :
    {A : Type ℓ} (ascending : Bool) (by : A → A → Ordering)
    → IsOrder by
    → IsOrder (λ (a b : A). if ascending then by a b else flipped (by a b))
directed-IsOrder true by o = o
directed-IsOrder false by o = flipped-IsOrder by o

pub compare_rows-IsOrder :
    (locale : LocaleCompare) → IsLocale locale → (sort : Sort) → IsOrder (compare_rows locale sort)
unfolding compare_rows
compare_rows-IsOrder locale l sort =
    both-IsOrder _ _ (directed-IsOrder sort.ascending _ (values-IsOrder locale l sort.column))
      (through-IsOrder (λ (r : Row). r.sequence) _ numbers-IsOrder)

-- Two rows that stand in either order have one sequence number.
pub compare_rows-sequence :
    (locale : LocaleCompare) (sort : Sort)
    → IsLocale locale
    → (a b : Row) → IsNotAbove (compare_rows locale sort a b)
    → IsNotAbove (compare_rows locale sort b a)
    → a.sequence ≡ b.sequence
unfolding compare_rows
compare_rows-sequence locale sort l a b h k =
    let o = directed-IsOrder sort.ascending _ (values-IsOrder locale l sort.column) in
    ground (arith, o.flip a b)
