-- ===== src/ProtoRaw/Decoding.antt =====
-- src/shared/protoRaw.ts: decode comes to its end, in messages within messages too.
use tapline.Base.{ℕ, ◌≤◌, ◌<◌, ◌≡◌, Option, none, some, List, length}
use tapline.ProtoRaw.Messages.{Decoder, RawMessage, Field}

-- What is read leaves less than there was, or no more.
abbrev Leaves : List ℕ → Option (ℕ × List ℕ) → Type 0
Leaves bytes none = Unit {0}
Leaves bytes (some (n, rest)) = length rest < length bytes

abbrev Within : List ℕ → Option (List ℕ × List ℕ) → Type 0
Within bytes none = Unit {0}
Within bytes (some (slice, rest)) = (length slice ≤ length bytes) × (length rest ≤ length bytes)

abbrev FieldWithin : List ℕ → Option Field → Type 0
FieldWithin bytes none = Unit {0}
FieldWithin bytes (some f) = length f.rest ≤ length bytes

-- Two readers of messages within a message give the same on bytes up to a length.
abbrev Agree : ℕ → (List ℕ → Option RawMessage) → (List ℕ → Option RawMessage) → Type 0
Agree n f g = (s : List ℕ) → length s ≤ n → f s ≡ g s

module _ (d : Decoder) (f : List ℕ → Option RawMessage) where
  -- A field takes a byte at least.
  FieldLeaves : List ℕ → Option Field → Type 0
  FieldLeaves bytes none = Unit {0}
  FieldLeaves bytes (some x) = length x.rest < length bytes
