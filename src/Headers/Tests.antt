-- ===== src/Headers/Tests.antt =====
-- Runs of the header helpers of src/core/rules.ts.
use tapline.Base.{◌≡◌, refl, Option, none, some, List, [], ◌∷◌, Text, text, text_eq, lower, join}
use tapline.Headers.{one, many, joined, WireHeaders, get_header, set_header, apply_header_edits}
use tapline.Headers.Laws.{
  IsDistinct, last_edit, edited, get_header-set_header, get_header-apply_header_edits,
}

abbrev sample : WireHeaders
sample = (text "Host", one (text "a.b")) ∷ (text "X-Id", many (text "1" ∷ text "2" ∷ [])) ∷ []

sample-IsDistinct : IsDistinct sample
unfolding text text_eq lower get_header joined
sample-IsDistinct = (refl, (refl, tt))

join_many : get_header sample (text "x-id") ≡ some (text "1, 2")
unfolding text text_eq lower get_header joined join
join_many = refl

keeps_spelling :
    set_header sample (text "host") (some (text "c"))
    ≡ (text "Host", one (text "c")) ∷ (text "X-Id", many (text "1" ∷ text "2" ∷ [])) ∷ []
unfolding text text_eq lower set_header
keeps_spelling = refl

-- Where a name does stand twice, deleting it leaves the second.
deletes_first_only :
    get_header
      (set_header ((text "A", one (text "1")) ∷ (text "a", one (text "2")) ∷ []) (text "A") none)
      (text "A")
    ≡ some (text "2")
unfolding text text_eq lower get_header set_header joined
deletes_first_only = refl

get_header-set_header_example :
    get_header (set_header sample (text "HOST") (some (text "c"))) (text "host") ≡ some (text "c")
unfolding text text_eq lower
get_header-set_header_example = get_header-set_header sample (text "HOST") (text "host") (text "c")

abbrev edits : List (Text × Option Text)
edits = (text "host", none) ∷ (text "x-new", some (text "v")) ∷ []

get_header-apply_header_edits_example :
    get_header (apply_header_edits sample edits) (text "X-NEW")
    ≡ edited (last_edit edits (text "X-NEW")) (get_header sample (text "X-NEW"))
get_header-apply_header_edits_example =
    get_header-apply_header_edits sample edits (text "X-NEW") sample-IsDistinct
