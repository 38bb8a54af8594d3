-- ===== src/Filter/Sorting.antt =====
-- src/webview/lib/filter.ts: sortRows and toggleSort. The stable sort of the language is insertion
-- from the end, and `localeCompare` is a parameter.
use Prim.Native.Nat.{Ordering}
use Prim.Native.Nat as Nat
use tapline.Base.{
  ℕ, Bool, true, false, not, Option, none, some, List, [], ◌∷◌, Text, decimal, if◌then◌else◌,
}
use tapline.Filter.{Row, or_none}

pub data Column : Type 0 where
  sequence status method http_version url server_address timestamp duration response_bytes : Column

pub record Sort : Type 0 where
  pub column : Column
  pub ascending : Bool

-- A number or a text.
pub data Value : Type 0 where
  number : ℕ → Value
  words : Text → Value

abbrev optional_number : Option ℕ → Value
optional_number none = words []
optional_number (some n) = number n

-- `key`.
unfoldable pub key : Row → Column → Value
key row sequence = number row.sequence
key row status = optional_number row.status
key row method = words row.method
key row http_version = words (or_none row.http_version)
key row url = words row.url
key row server_address = words (or_none row.server_address)
key row timestamp = number row.sequence
key row duration = number row.duration
key row response_bytes = number row.response_bytes

abbrev pub LocaleCompare : Type 0
LocaleCompare = Text → Text → Ordering

-- `String(x)`.
abbrev pub shown : Value → Text
shown (number n) = decimal n
shown (words s) = s

unfoldable pub compare_values : LocaleCompare → Value → Value → Ordering
compare_values locale (number x) (number y) = Nat.compare x y
compare_values locale (number x) (words y) = locale (decimal x) y
compare_values locale (words x) (number y) = locale x (decimal y)
compare_values locale (words x) (words y) = locale x y

abbrev pub flipped : Ordering → Ordering
flipped Ordering.lt = Ordering.gt
flipped Ordering.eq = Ordering.eq
flipped Ordering.gt = Ordering.lt

-- `order || other`.
abbrev pub or_else_by : Ordering → Ordering → Ordering
or_else_by Ordering.lt other = Ordering.lt
or_else_by Ordering.eq other = other
or_else_by Ordering.gt other = Ordering.gt

-- What `sort` is given.
unfoldable pub compare_rows : LocaleCompare → Sort → Row → Row → Ordering
unfolding key compare_values
compare_rows locale sort a b =
    let order = compare_values locale (key a sort.column) (key b sort.column) in
    or_else_by (if sort.ascending then order else flipped order) (Nat.compare a.sequence b.sequence)

abbrev pub not_above : Ordering → Bool
not_above Ordering.lt = true
not_above Ordering.eq = true
not_above Ordering.gt = false

unfoldable pub insert_row : LocaleCompare → Sort → Row → List Row → List Row
insert_row locale sort a [] = a ∷ []
insert_row locale sort a (b ∷ rows) =
    let rest = insert_row locale sort a rows in
    if not_above (compare_rows locale sort a b) then a ∷ b ∷ rows else b ∷ rest

unfoldable pub sort_rows : LocaleCompare → Sort → List Row → List Row
unfolding insert_row
sort_rows locale sort [] = []
sort_rows locale sort (a ∷ rows) = insert_row locale sort a (sort_rows locale sort rows)

abbrev same_column : Column → Column → Bool
same_column sequence sequence = true
same_column status status = true
same_column method method = true
same_column http_version http_version = true
same_column url url = true
same_column server_address server_address = true
same_column timestamp timestamp = true
same_column duration duration = true
same_column response_bytes response_bytes = true
same_column a b = false

abbrev starts_ascending : Column → Bool
starts_ascending response_bytes = false
starts_ascending c = true

unfoldable pub toggle_sort : Sort → Column → Sort
toggle_sort sort column = record {
  column = column;
  ascending =
      if same_column sort.column column then not sort.ascending else starts_ascending column;
}
