-- ===== src/Streams/Tests.antt =====
-- Runs of src/core/streams.ts.
use tapline.Base.{
  ◌+◌, ◌≡◌, refl, ◌⊎◌, true, false, none, some, [], ◌∷◌, text, text_eq, starts_with, get, put,
  remove, All,
}
use tapline.Streams.{
  Streams, writing, credit, chunk, destroyed, receive, pieces, cancel, cancel_sending,
  cancel_credits, release, write, write_next, under, without,
}
use tapline.Streams.Pieces.{joined, IsPiece, pieces_lem}
use tapline.Streams.Cancelling.{cancel-under, cancel-other, count}

abbrev fresh : Streams
fresh = record {
  readers = [];
  credits = [];
  buffered = [];
  acknowledgements = [];
  sending = [];
  sent = [];
  released = [];
  delivered = [];
}

pieces_lem_example : (joined (pieces (text "abc")) ≡ text "abc") × All IsPiece (pieces (text "abc"))
pieces_lem_example = pieces_lem (text "abc")

abbrev waiting : Streams
waiting = record fresh {
  credits = (text "r1", writing) ∷ (text "q", writing) ∷ [];
  readers = (text "r1", true) ∷ [];
}

r1_starts : starts_with (text "r") (text "r1") ≡ true
unfolding text starts_with
r1_starts = refl

q_differs : starts_with (text "r") (text "q") ≡ false
unfolding text starts_with
q_differs = refl

cancel-under_example :
    (get (text "r1") (cancel waiting (text "r")).readers ≡ none)
    × (get (text "r1") (cancel waiting (text "r")).credits ≡ none)
    × (get (text "r1") (cancel waiting (text "r")).acknowledgements ≡ none)
    × ((get (text "r1") (cancel waiting (text "r")).sending ≡ none)
        ⊎ (get (text "r1") (cancel waiting (text "r")).sending ≡ some true))
    × (count (text "r1") (cancel waiting (text "r")).released
        ≡ count (text "r1") waiting.released + count (text "r1") waiting.credits)
cancel-under_example = cancel-under waiting (text "r") (text "r1") r1_starts

cancel-other_example :
    (get (text "q") (cancel waiting (text "r")).readers ≡ get (text "q") waiting.readers)
    × (get (text "q") (cancel waiting (text "r")).credits ≡ get (text "q") waiting.credits)
    × (get (text "q") (cancel waiting (text "r")).acknowledgements
        ≡ get (text "q") waiting.acknowledgements)
    × (count (text "q") (cancel waiting (text "r")).released ≡ count (text "q") waiting.released)
cancel-other_example = cancel-other waiting (text "r") (text "q") q_differs

cancel_runs : cancel waiting (text "r") ≡ record fresh {
  credits = (text "q", writing) ∷ [];
  released = (text "r1", writing) ∷ [];
  delivered = (text "r1", destroyed) ∷ [];
}
unfolding cancel cancel_sending cancel_credits release write_next under without get remove text
    text_eq starts_with
cancel_runs = refl

-- A write that Node holds back goes out when the stream is cancelled, and nothing lets it go.
abbrev two_writes : Streams
two_writes = record fresh {
  credits = (text "r1", writing) ∷ [];
  buffered = (text "r1", text "b" ∷ []) ∷ [];
}

cancel_forgets : cancel two_writes (text "r") ≡ record fresh {
  buffered = (text "r1", []) ∷ [];
  sent = chunk (text "r1") (text "b") ∷ [];
  released = (text "r1", writing) ∷ [];
}
unfolding cancel cancel_sending cancel_credits release write_next write under without get put remove
    text text_eq starts_with
cancel_forgets = refl

-- A credit lets the next write go out, and that one waits.
credit_goes_on : receive true two_writes (credit (text "r1")) ≡ record fresh {
  credits = (text "r1", writing) ∷ [];
  buffered = (text "r1", []) ∷ [];
  sent = chunk (text "r1") (text "b") ∷ [];
  released = (text "r1", writing) ∷ [];
}
unfolding receive release write_next write get put remove text text_eq
credit_goes_on = refl
