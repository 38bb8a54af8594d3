-- ===== src/Inspector.antt =====
-- src/core/inspector.ts: the state of the inspector, and what its operations share.
-- What is sent to the core, and what the engine's handlers are called with, are the lists `sent` and
-- `told`; a promise that was settled is an entry of `settled`. The messages of the byte streams are
-- in `streams.sent`.
pub mod Messages
pub mod Control
pub mod Sessions
pub mod Matched
pub mod Ends
pub mod Settling
mod Tests
use tapline.Base.{
  ℕ, Bool, true, false, Option, none, some, List, [], ◌∷◌, ◌++◌, Text, text, Assoc, get, put,
  remove, if◌then◌else◌,
}
use tapline.Headers.{Headers, WireHeaders}
use tapline.Streams.{Streams}
use tapline.Streams
use tapline.Engine.{Client}

pub record Target : Type 0 where
  pub protocol : Text
  pub hostname : Text
  -- Without a port that the URL does not name.
  pub port : Option ℕ
  -- `pathname + search`.
  pub path : Text

-- What the inspector is given: `new URL`, `net.isIPv6`, its options, and the answer of `handlers.connect`.
-- `bind_session` gives the message of the error that it throws.
pub record Options : Type 0 where
  pub parse_url : Text → Option Target
  pub is_ipv6 : Text → Bool
  pub dynamic_inbounds : Bool
  pub bind_session : Text → Text → Option Text
  pub intercept : Text → Option Text → Bool
  pub connects : Text → Text → ℕ → Client → Bool
  pub upstream_ca : Option Text
  pub insecure_upstream : Text → Bool

pub data Side : Type 0 where
  request response : Side

-- The calls of the handlers.
pub data Told : Type 0 where
  connect : Text → Text → ℕ → Client → Told
  requested : Text → Text → Text → Option Text → WireHeaders → Client → Told
  responded : Text → ℕ → WireHeaders → Told
  upstream_connected : Text → Text → Told
  -- The bytes of a tunnel that its client sends, or that it receives.
  tunnel_bytes : Text → Bool → ℕ → Told
  data_of : Side → Text → List ℕ → Told
  end_of : Side → Text → Headers → Told
  websocket : Text → Text → WireHeaders → Client → Told
  frame : Text → Bool → List ℕ → Bool → Told
  closed : Text → Bool → Told
  failure : Text → Text → Told
  exit_of : Text → Told

-- Where a request goes.
pub record RequestOptions : Type 0 where
  pub host : Text
  pub port : ℕ
  pub path : Text
  pub method : Text
  pub headers : WireHeaders
  pub ca : Option Text
  pub insecure : Bool

-- The messages to the core.
pub data Sent : Type 0 where
  certificate_result : Text → Sent
  quic_result : Text → Bool → Sent
  inspect : Text → Sent
  abort : Text → Sent
  request_error : Text → Text → Sent
  request_local : Text → ℕ → WireHeaders → Sent
  request_result : Text → RequestOptions → Text → Sent
  response_error : Text → Text → Sent
  response_result : Text → ℕ → Option Text → WireHeaders → List Text → Sent
  websocket_result : Text → Text → WireHeaders → Option Text → Bool → Sent
  frame_result : Text → List ℕ → Bool → Sent
  websocket_send : Text → Text → List ℕ → Bool → Sent
  inbound : Bool → Text → Text → ℕ → Sent

-- How a promise of sendWebSocket or inlet was settled.
pub data Settled : Type 0 where
  resolved : ℕ → Settled
  rejected : Text → Settled

pub record Inspector : Type 0 where
  pub port : ℕ
  pub child : Bool
  pub wire : Bool
  pub stopping : Bool
  pub streams : Streams
  pub tunnels : Assoc Bool
  pub sessions : Assoc Bool
  pub websocket_send : Bool
  pub dynamic_inbounds : Bool
  pub controls : Assoc Bool
  pub pending_sends : Assoc Bool
  pub sent : List Sent
  pub told : List Told
  pub settled : List (Text × Settled)

abbrev pub send : Inspector → Sent → Inspector
send i message = record i { sent = i.sent ++ message ∷ [] }

abbrev pub tell : Inspector → Told → Inspector
tell i call = record i { told = i.told ++ call ∷ [] }

abbrev pub has : Text → Assoc Bool → Bool
has id m = elim (get id m) [ none ↦ false | some _ ↦ true ]

-- `${id}:${side}:${end}`.
abbrev side_text : Side → Text
side_text request = text "request"
side_text response = text "response"

abbrev pub stream_name : Text → Side → Text → Text
stream_name id side end = id ++ (text ":" ++ (side_text side ++ (text ":" ++ end)))

-- `if (this.sessions.delete(id))`, and a call of a handler.
unfoldable pub end_session : Inspector → Text → Told → Inspector
end_session i id call = elim (get id i.sessions) [
  | none ↦ i
  | some _ ↦ tell (record i { sessions = remove id i.sessions }) call
]

unfoldable pub fail : Inspector → Text → Text → Inspector
unfolding end_session
fail i id message =
    let i' = send (end_session i id (failure id message)) (abort id) in
    record i' {
      streams = Streams.cancel i'.streams (id ++ text ":");
      tunnels = remove id i'.tunnels;
    }

-- `this.sessions.add(id)`, with the handler that is called next.
unfoldable pub begin_session : Inspector → Text → Told → Inspector
begin_session i id call = tell (record i { sessions = put id true i.sessions }) call
