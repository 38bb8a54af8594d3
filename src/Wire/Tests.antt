-- ===== src/Wire/Tests.antt =====
-- Runs of src/core/wire.ts, with one-byte bodies for messages.
use tapline.Base.{ℕ, ◌≡◌, refl, Option, none, some, List, [], ◌∷◌, ◌++◌, arith}
use tapline.Wire.{
  Wire, done, threw, initial, and_then, receive, receive_all, receive_loop, receive_round,
  receive_header, receive_body, settle_header, settle_body, send, encode_frame, read_uint32_be,
  write_uint32_be,
}
use tapline.Wire.Chunks.{receive-append, receive_poisoned}
use mathlib.Core.List.{flatten}
use tapline.Wire.Frames.{Sends, receive_all-Sends}

-- A message is a number, and its text the number twice.
abbrev serialize : ℕ → List ℕ
serialize m = m ∷ m ∷ []

abbrev parse : List ℕ → Option ℕ
parse (a ∷ b ∷ []) = some a
parse bytes = none

receive_two_cut :
    receive_all parse initial
      ((0 ∷ 0 ∷ []) ∷ (0 ∷ 2 ∷ 7 ∷ 7 ∷ 0 ∷ []) ∷ (0 ∷ 0 ∷ 2 ∷ 9 ∷ 9 ∷ []) ∷ [])
    ≡ done initial (7 ∷ 9 ∷ [])
unfolding receive_all receive receive_loop receive_round receive_header receive_body settle_header
    settle_body read_uint32_be
receive_two_cut = refl

receive-append_example :
    receive parse initial ((0 ∷ 0 ∷ []) ++ (0 ∷ 2 ∷ 7 ∷ []))
    ≡ and_then (receive parse initial (0 ∷ 0 ∷ [])) (λ w. receive parse w (0 ∷ 2 ∷ 7 ∷ []))
receive-append_example = receive-append parse initial (0 ∷ 0 ∷ []) (0 ∷ 2 ∷ 7 ∷ []) (omega arith)

abbrev poisoned : Wire
poisoned = record { header = 0 ∷ 0 ∷ 0 ∷ 0 ∷ []; body = none }

receive_poisoned_example : receive parse poisoned (5 ∷ []) ≡ threw poisoned []
unfolding receive receive_loop receive_round receive_header settle_header read_uint32_be
receive_poisoned_example =
    receive_poisoned parse initial poisoned (0 ∷ 0 ∷ 0 ∷ 0 ∷ 1 ∷ []) [] 5 [] (omega arith) refl

receive_all-Sends_example :
    receive_all parse initial ((0 ∷ 0 ∷ []) ∷ (0 ∷ 2 ∷ 7 ∷ 7 ∷ []) ∷ []) ≡ done initial (7 ∷ [])
unfolding send encode_frame write_uint32_be flatten
receive_all-Sends_example =
    receive_all-Sends parse serialize (7 ∷ []) ((0 ∷ 0 ∷ []) ∷ (0 ∷ 2 ∷ 7 ∷ 7 ∷ []) ∷ [])
      (λ m. refl) (λ m. omega arith) (Sends.then_send refl Sends.nothing)
