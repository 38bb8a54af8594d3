-- ===== src/Streams.antt =====
-- src/core/streams.ts: byte streams over the IPC wire, each chunk of which waits for a credit.
-- Node's Readable and Writable are outside: what is handed to a Readable is listed in `delivered`,
-- and whether it takes more is an argument of `receive`. A waiting `pipe` or `write` is an entry
-- of `credits`, and one that was let go is listed in `released`. A `pipe` runs on later, as a call
-- of its own; a Writable that is let go begins its next write at once, where Node holds one back
-- for it in `buffered`.
pub mod Pieces
pub mod Cancelling
mod Tests
use tapline.Base.{
  ℕ, zero, suc, ◌≤◌, ◌≡◌, Bool, true, false, not, ◌||◌, Option, none, some, List, [], ◌∷◌, ◌++◌,
  map, Text, text_eq, starts_with, Assoc, get, put, remove, length, take, drop, select, ltb,
  if◌then◌else◌,
}
use tapline.Headers.{Headers}

abbrev pub chunk_size : ℕ
chunk_size = 65536

-- What waits for a credit: a `pipe`, with the pieces that are left of its bytes, or a `write`.
pub data Waiter : Type 0 where
  piping : List (List ℕ) → Waiter
  writing : Waiter

pub data Message : Type 0 where
  credit : Text → Message
  chunk : Text → List ℕ → Message
  end : Text → Option Headers → Message

-- What a Readable is given.
pub data Delivery : Type 0 where
  pushed : List ℕ → Delivery
  ended : Headers → Delivery
  destroyed : Delivery

pub record Streams : Type 0 where
  pub readers : Assoc Bool
  pub credits : Assoc Waiter
  -- What a Writable was given while a chunk of it waits, which Node keeps.
  pub buffered : Assoc (List (List ℕ))
  pub acknowledgements : Assoc Bool
  -- Whether the `pipe` under an id was cancelled.
  pub sending : Assoc Bool
  pub sent : List Message
  pub released : List (Text × Waiter)
  pub delivered : List (Text × Delivery)

abbrev sent_also : Streams → Message → Streams
sent_also s m = record s { sent = s.sent ++ m ∷ [] }

-- A chunk that a reader is pushed: `more` is what its `push` returns.
unfoldable pub acknowledge : Bool → Streams → Text → Streams
acknowledge true s id = sent_also s (credit id)
acknowledge false s id = record s { acknowledgements = put id true s.acknowledgements }

abbrev or_empty : Option Headers → Headers
or_empty none = []
or_empty (some trailers) = trailers

-- `write` and `final` of `writer`.
unfoldable pub write : Streams → Text → List ℕ → Streams
write s id bytes = record s {
  credits = put id writing s.credits;
  sent = s.sent ++ chunk id bytes ∷ [];
}

unfoldable pub final : Streams → Text → Streams
final s id = sent_also s (end id none)

-- The writes that Node holds back for a Writable, if any.
abbrev pub writes_of : Option (List (List ℕ)) → List (List ℕ)
writes_of none = []
writes_of (some writes) = writes

-- What follows `done()`: Node gives `write` the first of the writes that it holds back.
unfoldable pub write_next : Streams → Text → List (List ℕ) → Streams
unfolding write
write_next s id [] = s
write_next s id (bytes ∷ writes) = write (record s { buffered = put id writes s.buffered }) id bytes

abbrev pub noted : Streams → Text → Waiter → Streams
noted s id waiter = record s { released = s.released ++ (id, waiter) ∷ [] }

-- `release()`.
unfoldable pub release : Streams → Text → Waiter → Streams
unfolding write_next
release s id (piping left) = noted s id (piping left)
release s id writing = write_next (noted s id writing) id (writes_of (get id s.buffered))

unfoldable pub receive : Bool → Streams → Message → Streams
unfolding acknowledge release
receive more s (credit id) = elim (get id s.credits) [
  | none ↦ s
  | some waiter ↦ release (record s { credits = remove id s.credits }) id waiter
]
receive more s (chunk id bytes) = elim (get id s.readers) [
  | none ↦ s
  | some _ ↦ acknowledge more (record s { delivered = s.delivered ++ (id, pushed bytes) ∷ [] }) id
]
receive more s (end id trailers) = elim (get id s.readers) [
  | none ↦ s
  | some _ ↦ record s {
    readers = remove id s.readers;
    delivered = s.delivered ++ (id, ended (or_empty trailers)) ∷ [];
  }
]

-- `reader`, and the `read` of the Readable that it returns.
unfoldable pub reader : Streams → Text → Streams
reader s id = record s { readers = put id true s.readers }

unfoldable pub read : Streams → Text → Streams
read s id = elim (get id s.acknowledgements) [
  | none ↦ s
  | some _ ↦ record s {
    acknowledgements = remove id s.acknowledgements;
    sent = s.sent ++ credit id ∷ [];
  }
]

-- The pieces of `buffer` that the inner loop of `pipe` sends; `fuel` is at least its length.
unfoldable pub pieces_from : ℕ → List ℕ → List (List ℕ)
pieces_from fuel [] = []
pieces_from zero (b ∷ bytes) = []
pieces_from (suc fuel) (b ∷ bytes) =
    take chunk_size (b ∷ bytes) ∷ pieces_from fuel (drop chunk_size (b ∷ bytes))

unfoldable pub pieces : List ℕ → List (List ℕ)
unfolding pieces_from
pieces bytes = pieces_from (length bytes) bytes

unfoldable pub begin_pipe : Streams → Text → Streams
begin_pipe s id = record s { sending = put id false s.sending }

-- `finally`.
unfoldable pub finish_pipe : Streams → Text → Streams
finish_pipe s id = record s { sending = remove id s.sending; credits = remove id s.credits }

-- The inner loop up to its `await`: nothing is left, or a piece goes out and waits.
unfoldable pub offer : Streams → Text → List (List ℕ) → Streams
offer s id [] = s
offer s id (piece ∷ left) = record s {
  credits = put id (piping left) s.credits;
  sent = s.sent ++ chunk id piece ∷ [];
}

abbrev pub is_cancelled : Option Bool → Bool
is_cancelled none = false
is_cancelled (some cancelled) = cancelled

-- `for await` has bytes of the source, or the wait of the inner loop is over.
unfoldable pub pipe_on : Streams → Text → List (List ℕ) → Streams
unfolding offer finish_pipe
pipe_on s id left = if is_cancelled (get id s.sending) then finish_pipe s id else offer s id left

-- The source is at its end.
unfoldable pub end_pipe : Streams → Text → Option Headers → Streams
unfolding finish_pipe
end_pipe s id trailers = finish_pipe (sent_also s (end id trailers)) id

-- The entries whose key has a prefix, and the others.
unfoldable pub under {ℓ} : {V : Type ℓ} → Text → Assoc V → Assoc V
under prefix [] = []
under prefix ((k, v) ∷ m) = if starts_with prefix k then (k, v) ∷ under prefix m else under prefix m

unfoldable pub without {ℓ} : {V : Type ℓ} → Text → Assoc V → Assoc V
without prefix [] = []
without prefix ((k, v) ∷ m) =
    if starts_with prefix k then without prefix m else (k, v) ∷ without prefix m

unfoldable pub cancel_sending : Text → Assoc Bool → Assoc Bool
cancel_sending prefix [] = []
cancel_sending prefix ((k, cancelled) ∷ m) =
    (k, starts_with prefix k || cancelled) ∷ cancel_sending prefix m

abbrev destroy_each : Assoc Bool → List (Text × Delivery)
destroy_each [] = []
destroy_each ((k, v) ∷ m) = (k, destroyed) ∷ destroy_each m

-- The loop over `credits`: each is let go, and deleted behind that. A write that this starts
-- replaces the value under a key that is there, so the loop goes through the entries of before.
unfoldable pub cancel_credits : Text → Assoc Waiter → Streams → Streams
unfolding release
cancel_credits prefix [] s = s
cancel_credits prefix ((id, waiter) ∷ m) s =
    let s' = release s id waiter in
    let gone : Streams = record s' { credits = remove id s'.credits } in
    cancel_credits prefix m (if starts_with prefix id then gone else s)

abbrev pub cancel_readers : Text → Streams → Streams
cancel_readers prefix s = record s {
  sending = cancel_sending prefix s.sending;
  readers = without prefix s.readers;
  delivered = s.delivered ++ destroy_each (under prefix s.readers);
}

unfoldable pub cancel : Streams → Text → Streams
unfolding cancel_sending under without cancel_credits
cancel s prefix =
    let s' = cancel_credits prefix s.credits (cancel_readers prefix s) in
    record s' { acknowledgements = without prefix s'.acknowledgements }

unfoldable pub close : Streams → Streams
unfolding cancel
close s = cancel s []
