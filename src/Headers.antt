-- ===== src/Headers.antt =====
-- src/core/rules.ts, the header helpers, and `flatten` of src/core/engine.ts.
-- A header object is its entries in order, no key twice; `toLowerCase` folds ASCII letters, which
-- is all that a header name holds.
pub mod Laws
mod Tests
use tapline.Base.{
  Bool, true, false, Option, none, some, List, [], ◌∷◌, ◌++◌, map, Text, text, text_eq, lower, join,
  Assoc, if◌then◌else◌,
}

-- `string | string[]`.
pub data HeaderValue : Type 0 where
  one : Text → HeaderValue
  many : List Text → HeaderValue

abbrev pub WireHeaders : Type 0
WireHeaders = Assoc HeaderValue

abbrev pub Headers : Type 0
Headers = Assoc Text

-- `Array.isArray(v) ? v.join(', ') : v`.
unfoldable pub joined : HeaderValue → Text
joined (one v) = v
joined (many vs) = join (text ", ") vs

abbrev pub same_name : Text → Text → Bool
same_name a b = text_eq (lower a) (lower b)

unfoldable pub get_header : WireHeaders → Text → Option Text
get_header [] name = none
get_header ((k, v) ∷ headers) name =
    if same_name k name then some (joined v) else get_header headers name

-- Sets the first entry of that name, keeping its spelling, or deletes it with `none`.
unfoldable pub set_header : WireHeaders → Text → Option Text → WireHeaders
set_header [] name none = []
set_header [] name (some v) = (name, one v) ∷ []
set_header ((k, w) ∷ headers) name none =
    if same_name k name then headers else (k, w) ∷ set_header headers name none
set_header ((k, w) ∷ headers) name (some v) =
    if same_name k name then (k, one v) ∷ headers else (k, w) ∷ set_header headers name (some v)

unfoldable pub apply_header_edits : WireHeaders → List (Text × Option Text) → WireHeaders
apply_header_edits headers [] = headers
apply_header_edits headers ((name, value) ∷ edits) =
    apply_header_edits (set_header headers name value) edits

unfoldable pub to_wire : Headers → WireHeaders
to_wire [] = []
to_wire ((k, v) ∷ headers) = (k, one v) ∷ to_wire headers

unfoldable pub flatten : WireHeaders → Headers
flatten [] = []
flatten ((k, v) ∷ headers) = (k, joined v) ∷ flatten headers
