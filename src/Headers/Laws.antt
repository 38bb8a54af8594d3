-- ===== src/Headers/Laws.antt =====
-- Reading a header after it was set, deleted or edited.
use tapline.Base.{
  ◌≡◌, refl, Option, none, some, List, [], ◌∷◌, Text, text_eq_iff, lower, if◌then◌else◌, arith,
}
use tapline.Headers.{joined, WireHeaders, same_name, get_header, set_header, apply_header_edits}

-- No two names are the same but for their case.
abbrev pub Lacks : Text → WireHeaders → Type 0
Lacks name headers = get_header headers name ≡ none

abbrev pub IsDistinct : WireHeaders → Type 0
IsDistinct [] = Unit {0}
IsDistinct ((k, v) ∷ headers) = Lacks k headers × IsDistinct headers

-- What is read after a header was set: the new value under its name, however it is spelled, and
-- what was read before under any other.
pub get_header-set_header :
    (headers : WireHeaders) (name other v : Text)
    → get_header (set_header headers name (some v)) other
      ≡ (if same_name name other then some v else get_header headers other)
unfolding get_header set_header joined
get_header-set_header [] name other v = refl
get_header-set_header ((k, w) ∷ headers) name other v = ground (
  arith,
  text_eq_iff (lower k) (lower name),
  text_eq_iff (lower k) (lower other),
  text_eq_iff (lower name) (lower other),
  get_header-set_header headers name other v,
)

get_header-same :
    (headers : WireHeaders) (a b : Text)
    → lower a ≡ lower b
    → get_header headers a ≡ get_header headers b
unfolding get_header
get_header-same [] a b e = refl
get_header-same ((k, w) ∷ headers) a b e = rw (e, get_header-same headers a b e)

-- Where no name stands twice, a deleted header is gone and every other stays.
pub get_header-set_header-none :
    (headers : WireHeaders) (name other : Text)
    → IsDistinct headers
    → get_header (set_header headers name none) other
      ≡ (if same_name name other then none else get_header headers other)
unfolding get_header set_header
get_header-set_header-none [] name other d = ground arith
get_header-set_header-none ((k, w) ∷ headers) name other (l, d) = ground (
  arith,
  text_eq_iff (lower k) (lower name),
  text_eq_iff (lower k) (lower other),
  text_eq_iff (lower name) (lower other),
  get_header-same headers k other,
  get_header-set_header-none headers name other d,
)

set_header-none-Lacks :
    (headers : WireHeaders) (name k : Text)
    → Lacks k headers
    → Lacks k (set_header headers name none)
unfolding get_header set_header
set_header-none-Lacks [] name k l = refl
set_header-none-Lacks ((j, w) ∷ headers) name k l =
    ground (arith, set_header-none-Lacks headers name k)

-- Setting and deleting keep the names distinct.
pub set_header-IsDistinct :
    (headers : WireHeaders) (name : Text) (value : Option Text)
    → IsDistinct headers
    → IsDistinct (set_header headers name value)
unfolding get_header set_header
set_header-IsDistinct [] name none d = tt
set_header-IsDistinct [] name (some v) d = (refl, tt)
set_header-IsDistinct ((k, w) ∷ headers) name none (l, d) =
    ground
      (arith, set_header-IsDistinct headers name none d, set_header-none-Lacks headers name k l)
set_header-IsDistinct ((k, w) ∷ headers) name (some v) (l, d) = ground (
  arith,
  set_header-IsDistinct headers name (some v) d,
  get_header-set_header headers name k v,
  text_eq_iff (lower k) (lower name),
  text_eq_iff (lower name) (lower k),
)

pub apply_header_edits-IsDistinct :
    (headers : WireHeaders) (edits : List (Text × Option Text))
    → IsDistinct headers
    → IsDistinct (apply_header_edits headers edits)
unfolding apply_header_edits
apply_header_edits-IsDistinct headers [] d = d
apply_header_edits-IsDistinct headers ((name, value) ∷ edits) d =
    apply_header_edits-IsDistinct (set_header headers name value) edits
      (set_header-IsDistinct headers name value d)

-- The last edit of a name, if there is one.
pub last_edit : List (Text × Option Text) → Text → Option (Option Text)
last_edit [] name = none
last_edit ((k, value) ∷ edits) name = elim (last_edit edits name) [
  | some later ↦ some later
  | none ↦ if same_name k name then some value else none
]

abbrev pub edited : Option (Option Text) → Option Text → Option Text
edited none old = old
edited (some value) old = value

-- After a list of edits each name reads as its last edit says, and as before where no edit names
-- it, when no name of the headers stands twice.
pub get_header-apply_header_edits :
    (headers : WireHeaders) (edits : List (Text × Option Text)) (name : Text)
    → IsDistinct headers
    → get_header (apply_header_edits headers edits) name
      ≡ edited (last_edit edits name) (get_header headers name)
unfolding apply_header_edits last_edit
get_header-apply_header_edits headers [] name d = refl
get_header-apply_header_edits headers ((k, none) ∷ edits) name d = ground (
  arith,
  get_header-apply_header_edits (set_header headers k none) edits name
      (set_header-IsDistinct headers k none d),
  get_header-set_header-none headers k name d,
)
get_header-apply_header_edits headers ((k, some v) ∷ edits) name d = ground (
  arith,
  get_header-apply_header_edits (set_header headers k (some v)) edits name
      (set_header-IsDistinct headers k (some v) d),
  get_header-set_header headers k name v,
)
