-- ===== src/Filter/Placed.antt =====
-- src/webview/lib/filter.ts: which of two rows sortRows puts first, told without its comparison.
use Prim.Native.Nat.{Ordering}
use Prim.Native.Nat as Nat
use tapline.Base.{
  ℕ, ◌≤◌, ◌<◌, ◌≡◌, refl, sym, subst, ap, ◌∙◌, ◌⊎◌, inl, inr, ◌↔◌, Bool, true, false, Option, none,
  some, [], Text, if◌then◌else◌, decimal, arith,
}
use mathlib.Core.Option.{some-injective}
use tapline.Filter.{Row, or_none}
use tapline.Filter.Sorting.{
  Column, sequence, status, method, http_version, url, server_address, timestamp, duration,
  response_bytes, Sort, key, LocaleCompare, compare_values, flipped, or_else_by, compare_rows,
}
use tapline.Filter.Comparing.{IsNotAbove, IsLocale, optional_compare, compare_status}

-- A missing status stands before every other, and others by their number.
abbrev IsStatusLess : Option ℕ → Option ℕ → Type 0
IsStatusLess none none = ⊥
IsStatusLess none (some m) = Unit {0}
IsStatusLess (some n) none = ⊥
IsStatusLess (some n) (some m) = n < m

-- The value of a row in a column is below that of another row.
abbrev pub IsLess : LocaleCompare → Column → Row → Row → Type 0
IsLess locale sequence a b = a.sequence < b.sequence
IsLess locale timestamp a b = a.sequence < b.sequence
IsLess locale duration a b = a.duration < b.duration
IsLess locale response_bytes a b = a.response_bytes < b.response_bytes
IsLess locale status a b = IsStatusLess a.status b.status
IsLess locale method a b = locale a.method b.method ≡ Ordering.lt
IsLess locale url a b = locale a.url b.url ≡ Ordering.lt
IsLess locale http_version a b =
    locale (or_none a.http_version) (or_none b.http_version) ≡ Ordering.lt
IsLess locale server_address a b =
    locale (or_none a.server_address) (or_none b.server_address) ≡ Ordering.lt

-- The column does not tell two rows apart.
abbrev pub IsSame : LocaleCompare → Column → Row → Row → Type 0
IsSame locale sequence a b = a.sequence ≡ b.sequence
IsSame locale timestamp a b = a.sequence ≡ b.sequence
IsSame locale duration a b = a.duration ≡ b.duration
IsSame locale response_bytes a b = a.response_bytes ≡ b.response_bytes
IsSame locale status a b = a.status ≡ b.status
IsSame locale method a b = locale a.method b.method ≡ Ordering.eq
IsSame locale url a b = locale a.url b.url ≡ Ordering.eq
IsSame locale http_version a b =
    locale (or_none a.http_version) (or_none b.http_version) ≡ Ordering.eq
IsSame locale server_address a b =
    locale (or_none a.server_address) (or_none b.server_address) ≡ Ordering.eq

abbrev Directed : Bool → Type 0 → Type 0 → Type 0
Directed true Less Greater = Less
Directed false Less Greater = Greater

-- A row may stand before another: its value is less, or greater where the order descends; or the
-- values are the same, and its number is not above the other's.
abbrev pub Precedes : LocaleCompare → Sort → Row → Row → Type 0
Precedes locale sort a b =
    Directed sort.ascending (IsLess locale sort.column a b) (IsLess locale sort.column b a)
    ⊎ (IsSame locale sort.column a b × (a.sequence ≤ b.sequence))

-- What each result of a comparison says.
abbrev Tells : Type 0 → Type 0 → Type 0 → Ordering → Type 0
Tells Less Same Greater o =
    ((o ≡ Ordering.lt) ↔ Less) × ((o ≡ Ordering.eq) ↔ Same) × ((o ≡ Ordering.gt) ↔ Greater)

numbers-Tells : (x y : ℕ) → Tells (x < y) (x ≡ y) (y < x) (Nat.compare x y)
numbers-Tells x y = (
  ((λ e. ground arith), (λ h. ground arith)),
  ((λ e. ground arith), (λ h. ground arith)),
  ((λ e. ground arith), (λ h. ground arith)),
)

texts-Tells :
    (locale : LocaleCompare)
    → IsLocale locale
    → (s t : Text)
    → Tells
        (locale s t ≡ Ordering.lt)
        (locale s t ≡ Ordering.eq)
        (locale t s ≡ Ordering.lt)
        (locale s t)
texts-Tells locale l s t = (
  ((λ e. e), (λ e. e)),
  ((λ e. e), (λ e. e)),
  ((λ e. l.order.flip s t ∙ ap flipped e), (λ e. l.order.flip t s ∙ ap flipped e)),
)

empty_same : (locale : LocaleCompare) → IsLocale locale → locale [] [] ≡ Ordering.eq
empty_same locale l = ground (arith, l.order.flip [] [])

statuses-Tells :
    (locale : LocaleCompare)
    → IsLocale locale
    → (a b : Option ℕ)
    → Tells (IsStatusLess a b) (a ≡ b) (IsStatusLess b a) (optional_compare locale a b)
statuses-Tells locale l none none =
    let e = empty_same locale l in
    (((λ h. cc), absurd), ((λ h. refl), (λ h. e)), ((λ h. cc), absurd))
statuses-Tells locale l none (some m) =
    let e = l.empty_first m in (((λ h. tt), (λ h. e)), ((λ h. cc), (λ h. cc)), ((λ h. cc), absurd))
statuses-Tells locale l (some n) none =
    let e : locale (decimal n) [] ≡ Ordering.gt =
      l.order.flip [] (decimal n) ∙ ap flipped (l.empty_first n) in
    (((λ h. cc), absurd), ((λ h. cc), (λ h. cc)), ((λ h. tt), (λ h. e)))
statuses-Tells locale l (some n) (some m) =
    let (less, same, greater) = numbers-Tells n m in
    (less, ((λ h. ap (λ k. some k) (same.0 h)), (λ h. same.1 (some-injective _ _ h))), greater)

column-Tells :
    (locale : LocaleCompare)
    → IsLocale locale
    → (c : Column) (a b : Row)
    → Tells
        (IsLess locale c a b)
        (IsSame locale c a b)
        (IsLess locale c b a)
        (compare_values locale (key a c) (key b c))
unfolding key compare_values
column-Tells locale l sequence a b = numbers-Tells a.sequence b.sequence
column-Tells locale l timestamp a b = numbers-Tells a.sequence b.sequence
column-Tells locale l duration a b = numbers-Tells a.duration b.duration
column-Tells locale l response_bytes a b = numbers-Tells a.response_bytes b.response_bytes
column-Tells locale l method a b = texts-Tells locale l a.method b.method
column-Tells locale l url a b = texts-Tells locale l a.url b.url
column-Tells locale l http_version a b =
    texts-Tells locale l (or_none a.http_version) (or_none b.http_version)
column-Tells locale l server_address a b =
    texts-Tells locale l (or_none a.server_address) (or_none b.server_address)
column-Tells locale l status a b =
    subst
      (Tells (IsStatusLess a.status b.status) (a.status ≡ b.status)
        (IsStatusLess b.status a.status))
      (sym (compare_status locale a.status b.status a b refl refl))
      (statuses-Tells locale l a.status b.status)

directed-Tells :
    {Less Same Greater : Type 0} (ascending : Bool) (o : Ordering) (x y : ℕ)
    → Tells Less Same Greater o
    → IsNotAbove (or_else_by (if ascending then o else flipped o) (Nat.compare x y))
      ↔ (Directed ascending Less Greater ⊎ (Same × (x ≤ y)))
directed-Tells true Ordering.lt x y t = ((λ h. inl (t.0.0 refl)), (λ w. refl))
directed-Tells true Ordering.eq x y t = (
  (λ h. inr (t.1.0 refl, ground arith)),
  elim [ inl less ↦ cc (t.0.1 less) | inr (same, le) ↦ ground arith ],
)
directed-Tells true Ordering.gt x y t =
    ((λ h. cc), elim [ inl less ↦ cc (t.0.1 less) | inr (same, le) ↦ cc (t.1.1 same) ])
directed-Tells false Ordering.lt x y t =
    ((λ h. cc), elim [ inl greater ↦ cc (t.2.1 greater) | inr (same, le) ↦ cc (t.1.1 same) ])
directed-Tells false Ordering.eq x y t = (
  (λ h. inr (t.1.0 refl, ground arith)),
  elim [ inl greater ↦ cc (t.2.1 greater) | inr (same, le) ↦ ground arith ],
)
directed-Tells false Ordering.gt x y t = ((λ h. inl (t.2.0 refl)), (λ w. refl))

-- The comparison of `sortRows` decides it.
pub compare_rows_iff :
    (locale : LocaleCompare) (sort : Sort)
    → IsLocale locale
    → (a b : Row) → IsNotAbove (compare_rows locale sort a b) ↔ Precedes locale sort a b
unfolding compare_rows
compare_rows_iff locale sort l a b =
    directed-Tells sort.ascending (compare_values locale (key a sort.column) (key b sort.column))
      a.sequence b.sequence (column-Tells locale l sort.column a b)
