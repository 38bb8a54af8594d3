-- ===== src/SharedCore/Tests.antt =====
-- Runs of src/agent/sharedCore.ts.
use tapline.Base.{◌≡◌, refl, true, some, [], ◌∷◌, text, text_eq, get, put}
use tapline.SharedCore.{SharedCore, request, dispatch, routed, bind}
use tapline.SharedCore.Routing.{bind-dispatch}

abbrev two_windows : SharedCore
two_windows = record {
  attached = true;
  targets = (text "in1", text "a") ∷ (text "in2", text "b") ∷ [];
  requests = (text "s1", text "a") ∷ (text "s2", text "b") ∷ [];
  tags = [];
  told = [];
}

s1_found : get (text "s1") two_windows.requests ≡ some (text "a")
unfolding get text text_eq
s1_found = refl

s1_binds : bind two_windows (text "s1") (text "in1") ≡ some two_windows
unfolding bind get put text text_eq
s1_binds = refl

bind-dispatch_example :
    (get (text "s1") two_windows.requests ≡ some (text "a"))
    × ((dispatch two_windows request (text "s1")).reply ≡ routed (text "a"))
bind-dispatch_example =
    bind-dispatch two_windows two_windows (text "s1") (text "in1") (text "a") request s1_found
      s1_binds
