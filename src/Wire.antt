-- ===== src/Wire.antt =====
-- src/core/wire.ts: length-prefixed JSON frames over the core's stdin and stdout.
-- A byte is a number. `headerUsed` and `bodyUsed` are the lengths of the prefixes received so
-- far, so the record holds those prefixes. `JSON.parse` with its reviver, and `JSON.stringify`
-- after `encode`, are the arguments `parse` and `serialize`; `none` is a `SyntaxError`.
pub mod Bytes
pub mod Feed
pub mod Stream
pub mod Chunks
pub mod Frames
mod Tests
use tapline.Base.{
  ℕ, zero, suc, ◌+◌, ◌-◌, ◌*◌, ◌/◌, ◌%◌, ◌^◌, min, Bool, true, false, ◌||◌, Option, none, some,
  List, [], ◌∷◌, ◌++◌, length, take, drop, ltb, leb, ◌==◌, if◌then◌else◌,
}

abbrev pub max_message : ℕ
max_message = 144 * 1024 * 1024

-- `writeUInt32BE` and `readUInt32BE`.
pub write_uint32_be : ℕ → List ℕ
write_uint32_be n = n / 2 ^ 24 % 256 ∷ n / 2 ^ 16 % 256 ∷ n / 2 ^ 8 % 256 ∷ n % 256 ∷ []

be_from : ℕ → List ℕ → ℕ
be_from acc [] = acc
be_from acc (b ∷ bs) = be_from (acc * 256 + b) bs

pub read_uint32_be : List ℕ → ℕ
unfolding be_from
read_uint32_be bytes = be_from 0 bytes

-- `Buffer.allocUnsafe(size)` with the bytes written so far.
pub record Body : Type 0 where
  pub size : ℕ
  pub used : List ℕ

pub record Wire : Type 0 where
  pub header : List ℕ
  pub body : Option Body

-- What one call of `receive` leaves: the messages emitted, and whether it threw.
pub data Received {ℓ} (M : Type ℓ) : Type ℓ where
  done : Wire → List M → Received M
  threw : Wire → List M → Received M

abbrev pub emitting {ℓ} : {M : Type ℓ} → List M → Received M → Received M
emitting ms (done w rest) = done w (ms ++ rest)
emitting ms (threw w rest) = threw w (ms ++ rest)

-- What follows a call that threw does not run.
abbrev pub and_then {ℓ} : {M : Type ℓ} → Received M → (Wire → Received M) → Received M
and_then (done w ms) k = emitting ms (k w)
and_then (threw w ms) k = threw w ms

-- A fault is kept, whatever follows it.
abbrev pub faulted {ℓ} : {M : Type ℓ} → List M → Received M → Received M
faulted ms (done w rest) = threw w (ms ++ rest)
faulted ms (threw w rest) = threw w (ms ++ rest)

-- What follows a call that threw runs too: its caller catches the error.
abbrev pub and_also {ℓ} : {M : Type ℓ} → Received M → (Wire → Received M) → Received M
and_also (done w ms) k = emitting ms (k w)
and_also (threw w ms) k = faulted ms (k w)

abbrev pub initial : Wire
initial = record { header = []; body = none }

pub data Sent : Type 0 where
  wrote : List ℕ → Sent
  skipped : Sent
  too_large : Sent

module _ {ℓ} {M : Type ℓ} (serialize : M → List ℕ) where
  -- The frame of a message.
  pub encode_frame : M → List ℕ
  encode_frame message = let body = serialize message in write_uint32_be (length body) ++ body

  -- `writable` says that the output is writable and not destroyed.
  pub send : Bool → M → Sent
  send writable message =
      if ltb max_message (length (serialize message))
      then too_large
      else if writable
      then wrote (encode_frame message)
      else skipped

module _ {ℓ} {M : Type ℓ} (parse : List ℕ → Option M) where
  -- The end of a round, once the body has taken its bytes: `rest` is what is left of `data`.
  pub settle_body : (Wire → List ℕ → Received M) → List ℕ → Body → List ℕ → Received M
  settle_body loop header body rest =
      let filled : Wire = record { header = header; body = some body } in
      if ltb (length body.used) body.size then done filled [] else elim (parse body.used) [
        | none ↦ threw filled []
        | some message ↦ emitting (message ∷ []) (loop initial rest)
      ]

  -- The second half of a round: the body takes what it still needs of `data`.
  pub receive_body : (Wire → List ℕ → Received M) → List ℕ → Body → List ℕ → Received M
  receive_body loop header body bytes =
      let count = min (body.size - length body.used) (length bytes) in
      settle_body loop header (record body { used = body.used ++ take count bytes })
        (drop count bytes)

  -- Once the header has taken its bytes: a full one allocates the body.
  pub settle_header : (Wire → List ℕ → Received M) → List ℕ → List ℕ → Received M
  settle_header loop header rest =
      if ltb (length header) 4
      then done (record { header = header; body = none }) []
      else let size = read_uint32_be header in
        if size == 0 || ltb max_message size
        then threw (record { header = header; body = none }) []
        else receive_body loop header (record { size = size; used = [] }) rest

  -- The first half: the header takes what it still needs.
  pub receive_header : (Wire → List ℕ → Received M) → List ℕ → List ℕ → Received M
  receive_header loop header bytes =
      let count = min (4 - length header) (length bytes) in
      settle_header loop (header ++ take count bytes) (drop count bytes)

  -- One round of the loop on what is left of `data`.
  pub receive_round : (Wire → List ℕ → Received M) → Wire → List ℕ → Received M
  receive_round loop w bytes = elim w.body [
    | none ↦ receive_header loop w.header bytes
    | some body ↦ receive_body loop w.header body bytes
  ]

  -- `while (offset < data.length)`: a round takes at least one byte, or it is the last.
  pub receive_loop : ℕ → Wire → List ℕ → Received M
  receive_loop fuel w [] = done w []
  receive_loop zero w (b ∷ bs) = done w []
  receive_loop (suc fuel) w (b ∷ bs) = receive_round (receive_loop fuel) w (b ∷ bs)

  pub receive : Wire → List ℕ → Received M
  receive w bytes = receive_loop (length bytes) w bytes

  -- The `data` events of the core's stdout (src/core/inspector.ts): one call a chunk. A fault is
  -- caught there and stops the core, whose data is read on until it exits.
  pub receive_all : Wire → List (List ℕ) → Received M
  receive_all w [] = done w []
  receive_all w (chunk ∷ chunks) = and_also (receive w chunk) (λ w'. receive_all w' chunks)
