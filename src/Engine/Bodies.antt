-- ===== src/Engine/Bodies.antt =====
-- src/core/engine.ts: the bodies of a transaction, captured up to a limit, and its event stream.
-- The decoding of gRPC messages, at the end of a side and on a timer, is not part of the model.
use tapline.Base.{
  ℕ, suc, ◌+◌, ◌-◌, Bool, true, not, ◌||◌, Option, none, some, List, [], ◌∷◌, ◌++◌, Text, text,
  text_eq, lower, trim, before, get, put, length, take, ltb, if◌then◌else◌,
}
use tapline.Headers.{Headers, get_header, to_wire}
use tapline.Codings.{decode_body, max_decoded_bytes, Decoded}
use tapline.Sse.{SseParser, ParsedEvent, Output, emit, truncate}
use tapline.Sse
use tapline.Sse.Bounds.{byte_size}
use tapline.Model.{Transaction}
use tapline.Engine.{
  Engine, Platform, Side, request, response, Capture, Captures, EventStream, store,
}

abbrev pub flatten_chunks : List (List ℕ) → List ℕ
flatten_chunks [] = []
flatten_chunks (c ∷ cs) = c ++ flatten_chunks cs

abbrev pub empty_capture : Capture
empty_capture = record { chunks = []; retained = 0; total = 0 }

-- The part of `capture` that concerns the buffers: a chunk is kept as far as there is room.
unfoldable pub capture_chunk : ℕ → Capture → List ℕ → Capture
capture_chunk most c chunk =
    let room = most - c.retained in
    let slice = if ltb room (length chunk) then take room chunk else chunk in
    if ltb 0 room
    then record {
      chunks = c.chunks ++ slice ∷ [];
      retained = c.retained + length slice;
      total = c.total + length chunk;
    }
    else record c { total = c.total + length chunk }

abbrev pub side_of : Side → Captures → Capture
side_of request c = c.request
side_of response c = c.response

abbrev pub with_side : Side → Captures → Capture → Captures
with_side request c v = record c { request = v }
with_side response c v = record c { response = v }

abbrev pub captures_for : Option Captures → Captures
captures_for none = record { request = empty_capture; response = empty_capture }
captures_for (some c) = c

abbrev pub with_bytes : Side → ℕ → Transaction → Transaction
with_bytes request n t = record t { request_bytes = n }
with_bytes response n t = record t { response_bytes = n }

unfoldable pub counted : ℕ → Side → Capture → Transaction → Transaction
counted most side c t =
    with_bytes side c.total (if ltb most c.total then record t { truncated = true } else t)

unfoldable pub capture : Engine → Text → Side → List ℕ → Engine
unfolding counted
capture e id side chunk = elim (get id e.transactions) [
  | none ↦ e
  | some t ↦
      let most = e.settings.max_body_bytes in
      let cs = captures_for (get id e.captures) in
      let c = capture_chunk most (side_of side cs) chunk in
      store (record e { captures = put id (with_side side cs c) e.captures }) id
        (counted most side c t)
]

abbrev body_text : Platform → List ℕ → Text
body_text p bytes = if p.is_utf8 bytes then p.utf8 bytes else p.base64 bytes

abbrev headers_of : Side → Transaction → Headers
headers_of request t = t.request_headers
headers_of response t = t.response_headers

abbrev retain_decoded : Platform → Side → Decoded → Transaction → Transaction
retain_decoded p request d t = record t {
  request_body = body_text p d.bytes;
  request_binary = not (p.is_utf8 d.bytes);
}
retain_decoded p response d t = record t {
  response_body = body_text p d.bytes;
  response_binary = not (p.is_utf8 d.bytes);
  response_encoding = d.encoding;
}

unfoldable pub retain : Platform → Side → List ℕ → Transaction → Transaction
retain p side raw t =
    let coding = get_header (to_wire (headers_of side t)) (text "content-encoding") in
    retain_decoded p side (decode_body p.zlib raw coding max_decoded_bytes) t

-- `seal`: the body as captured goes on the record, and its chunks are let go.
unfoldable pub seal : Platform → Engine → Text → Side → Engine
seal p e id side = elim (get id e.transactions) [
  | none ↦ e
  | some t ↦ elim (get id e.captures) [
    | none ↦ e
    | some cs ↦
        let c = side_of side cs in
        let kept = put id (with_side side cs (record c { chunks = [] })) e.captures in
        store (record e { captures = kept }) id (retain p side (flatten_chunks c.chunks) t)
  ]
]

-- The media type of a response, as `trackEvents` and `response` read it.
unfoldable pub media_type : Option Text → Text
media_type none = []
media_type (some header) = lower (trim (before b';' header))

abbrev max_events : ℕ
max_events = 500

-- What a transaction and its stream hold of the events that arrived.
pub record Arrived : Type 0 where
  pub events : List ParsedEvent
  pub retained : ℕ
  pub sizes : List ℕ
  pub truncated : Bool

-- The loop that drops the oldest events: `sizes` has one entry an event.
unfoldable pub shift_events : ℕ → List ParsedEvent → ℕ → List ℕ → Bool → Arrived
shift_events limit [] retained sizes cut = record {
  events = [];
  retained = retained;
  sizes = sizes;
  truncated = cut;
}
shift_events limit (v ∷ events) retained [] cut = record {
  events = v ∷ events;
  retained = retained;
  sizes = [];
  truncated = cut;
}
shift_events limit (v ∷ events) retained (n ∷ sizes) cut =
    let shifted = shift_events limit events (retained - n) sizes true in
    if ltb max_events (suc (length events)) || ltb limit retained
    then shifted
    else record { events = v ∷ events; retained = retained; sizes = n ∷ sizes; truncated = cut }

unfoldable pub event_size : ParsedEvent → ℕ
event_size v = byte_size (v.payload ++ (v.event ++ v.last_event_id))

-- The callbacks of the parser: an event, and the report of a dropped one.
unfoldable pub arrive : ℕ → Arrived → Output → Arrived
unfolding event_size
arrive limit a truncate = record a { truncated = true }
arrive limit a (emit v) =
    if ltb limit (event_size v)
    then record a { truncated = true }
    else shift_events limit (a.events ++ v ∷ []) (a.retained + event_size v)
        (a.sizes ++ event_size v ∷ []) a.truncated

unfoldable pub arrive_all : ℕ → Arrived → List Output → Arrived
arrive_all limit a [] = a
arrive_all limit a (o ∷ os) = arrive_all limit (arrive limit a o) os

unfoldable pub track_events : Engine → Text → Transaction → Engine
track_events e id t =
    let coding = get_header (to_wire t.response_headers) (text "content-type") in
    if not (text_eq (media_type coding) (text "text/event-stream"))
    then e
    else elim (get id e.event_streams) [
      | some _ ↦ e
      | none ↦
          let stream : EventStream = record {
            parser = Sse.initial;
            limit = e.settings.max_body_bytes;
            retained = 0;
            sizes = [];
          } in
          store (record e { event_streams = put id stream e.event_streams }) id
            (record t { events = some [] })
    ]

abbrev events_or_none : Option (List ParsedEvent) → List ParsedEvent
events_or_none none = []
events_or_none (some events) = events

-- `parser.push(chunk)`, on the characters that the chunk decodes to.
unfoldable pub push_events : EventStream → Text → Transaction → EventStream × Transaction
push_events stream chars t =
    let (parser, out) = Sse.push stream.limit stream.parser chars in
    let before : Arrived = record {
      events = events_or_none t.events;
      retained = stream.retained;
      sizes = stream.sizes;
      truncated = t.events_truncated;
    } in
    let after = arrive_all stream.limit before out in
    (
      record stream { parser = parser; retained = after.retained; sizes = after.sizes },
      record t { events = some after.events; events_truncated = after.truncated },
    )
