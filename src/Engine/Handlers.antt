-- ===== src/Engine/Handlers.antt =====
-- src/core/engine.ts: the handlers that the inspector calls, but for `request` and `response`.
-- `uid` stands for the `randomUUID()` of a call, and a handler that throws gives `none`.
use tapline.Base.{
  ℕ, ◌+◌, Bool, true, false, not, ◌&&◌, ◌||◌, Option, none, some, List, [], ◌∷◌, ◌++◌, Text, text,
  text_eq, drop, decimal, get, put, remove, length, take, any, ltb, ◌==◌, if◌then◌else◌,
}
use tapline.Headers.{Headers, WireHeaders, flatten}
use tapline.Model.{Transaction, Frame, Direction, outgoing, incoming}
use tapline.Engine.{
  Engine, Platform, Client, Clock, EventStream, request, response, publish, store, release,
  intercepts,
}
use tapline.Engine.Bodies.{capture, seal, push_events, flatten_chunks}
use tapline.Engine.Records.{Created, create, finish, update, modify}

unfoldable pub upstream_connected : Engine → Text → Text → Engine
unfolding update
upstream_connected e id address = update e id (λ t. record t { server_address = some address })

-- `direction` is `outgoing` for 'send'.
unfoldable pub tunnel_bytes : Engine → Text → Direction → ℕ → Engine
unfolding modify
tunnel_bytes e id outgoing count =
    modify e id (λ t. record t { request_bytes = t.request_bytes + count })
tunnel_bytes e id incoming count =
    modify e id (λ t. record t { response_bytes = t.response_bytes + count })

-- `composedClients.has(port)`.
abbrev pub is_composed : Engine → Client → Bool
is_composed e c =
    text_eq c.remote_address (text "127.0.0.1") && any (λ q. q == c.remote_port) e.composed_clients

abbrev authority : Platform → Text → ℕ → Text
authority p host port =
    (if p.is_ipv6 host then b'[' ∷ (host ++ b']' ∷ []) else host) ++ (b':' ∷ decimal port)

-- The answer says whether the connection is to be decrypted.
pub record Connected : Type 0 where
  pub engine : Engine
  pub intercept : Bool

-- `if (t) { … }` behind the `create` of an opaque tunnel.
unfoldable pub name_tunnel : Option Transaction → Engine → Text → Text → ℕ → Engine
unfolding modify
name_tunnel none e id host port = e
name_tunnel (some _) e id host port =
    modify e id (λ t. record t { path = host ++ (b':' ∷ decimal port); tls = false })

unfoldable pub tunnelled : Option Created → Text → Text → ℕ → Option Connected
unfolding name_tunnel
tunnelled none id host port = none
tunnelled (some c) id host port =
    some (record { engine = name_tunnel c.entry c.engine id host port; intercept = false })

unfoldable pub connect : Platform → Engine → Clock → Text → Text → ℕ → Client → Option Connected
unfolding tunnelled
connect p e now id host port client =
    let url = text "https://" ++ (authority p host port ++ text "/") in
    if intercepts e host || is_composed e client
    then some (record { engine = e; intercept = true })
    else tunnelled (create p e now id (text "CONNECT") url client (some (text "connect"))) id host
        port

unfoldable pub request_data : Engine → Text → List ℕ → Engine
request_data e id chunk = capture e id request chunk

-- Behind `seal`, without the gRPC decoding of the sealed body: `true` is a local answer.
unfoldable pub end_request : Bool → Engine → Clock → Text → Transaction → Engine
end_request true e now id t =
    finish (record e { captures = remove id e.captures; matched = remove id e.matched }) now id none
end_request false e now id t = publish e id t

unfoldable pub sealed_request : Engine → Clock → Text → Engine
unfolding end_request
sealed_request e now id = elim (get id e.transactions) [
  | none ↦ e
  | some t ↦ end_request t.answered_locally e now id t
]

unfoldable pub request_end : Platform → Engine → Clock → Text → Engine
unfolding sealed_request
request_end p e now id = sealed_request (seal p e id request) now id

-- `t.responseBody` behind the parser's push.
abbrev pub live_body : Platform → Engine → Text → Transaction → Text
live_body p e id t = elim (get id e.captures) [
  | none ↦ t.response_body
  | some cs ↦
      if ltb (length t.response_body) e.settings.max_body_bytes
      then p.utf8 (flatten_chunks cs.response.chunks)
      else t.response_body
]

unfoldable pub push_stream : Platform → Engine → Text → EventStream × Transaction → Engine
push_stream p e id (stream, t) =
    let shown = record t { response_body = live_body p e id t } in
    publish (store (record e { event_streams = put id stream e.event_streams }) id shown) id shown

-- The part of `responseData` behind `parser`: `chars` is what the chunk decodes to.
unfoldable pub stream_data : Platform → Engine → Text → Text → Engine
unfolding push_stream
stream_data p e id chars = elim (get id e.transactions) [
  | none ↦ e
  | some t ↦ elim (get id e.event_streams) [
    | none ↦ e
    | some stream ↦ push_stream p e id (push_events stream chars t)
  ]
]

unfoldable pub response_data : Platform → Engine → Text → List ℕ → Text → Engine
unfolding stream_data
response_data p e id chunk chars = stream_data p (capture e id response chunk) id chars

abbrev pub with_trailers : Headers → Transaction → Transaction
with_trailers [] t = t
with_trailers (h ∷ trailers) t = record t { response_trailers = some (h ∷ trailers) }

unfoldable pub sealed_response : Engine → Clock → Text → Engine
sealed_response e now id = elim (get id e.transactions) [
  | none ↦ e
  | some t ↦
      finish (record e { captures = remove id e.captures; matched = remove id e.matched }) now id
        none
]

unfoldable pub response_end : Platform → Engine → Clock → Text → Headers → Engine
unfolding modify sealed_response
response_end p e now id trailers =
    sealed_response (modify (seal p e id response) id (with_trailers trailers)) now id

-- `if (!t) return` and what follows, behind the `create` of a WebSocket.
unfoldable pub switch_protocols : Option Transaction → Engine → Text → WireHeaders → Engine
unfolding update
switch_protocols none e id headers = e
switch_protocols (some _) e id headers = update e id (λ t. record t {
  request_headers = flatten headers;
  status = some 101;
  status_message = some (text "Switching Protocols");
})

unfoldable pub switched : Option Created → Text → WireHeaders → Option Engine
unfolding switch_protocols
switched none id headers = none
switched (some c) id headers = some (switch_protocols c.entry c.engine id headers)

unfoldable pub websocket :
    Platform → Engine → Clock → Text → Text → WireHeaders → Client → Option Engine
unfolding switched
websocket p e now id url headers client =
    switched (create p e now id (text "GET") url client none) id headers

abbrev pub max_frames : ℕ
max_frames = 500

abbrev pub new_frame : Platform → ℕ → Clock → Text → Bool → List ℕ → Bool → Option Text → Frame
new_frame p most now uid from_server payload binary replay_of =
    let is_text = not binary && p.is_utf8 payload in
    record {
      id = uid;
      time = now.date;
      direction = if from_server then incoming else outgoing;
      binary = not is_text;
      payload = if is_text then p.utf8 (take most payload) else p.base64 (take most payload);
      size = length payload;
      truncated = ltb most (length payload);
      replay_of = replay_of;
    }

unfoldable pub add_frame : Frame → Transaction → Transaction
add_frame f t =
    let frames = t.frames ++ f ∷ [] in
    if ltb max_frames (length frames)
    then record t { frames = drop 1 frames; frames_truncated = true }
    else record t { frames = frames }

abbrev pub counted_frame : Bool → ℕ → Transaction → Transaction
counted_frame true n t = record t { response_bytes = t.response_bytes + n }
counted_frame false n t = record t { request_bytes = t.request_bytes + n }

unfoldable pub frame :
    Platform → Engine → Clock → Text → Text → Bool → List ℕ → Bool → Option Text → Engine
unfolding update add_frame
frame p e now uid id from_server payload binary replay_of = update e id (λ t.
    add_frame (new_frame p e.settings.max_body_bytes now uid from_server payload binary replay_of)
      (counted_frame from_server (length payload) t))

abbrev is_connect : Transaction → Bool
is_connect t = text_eq t.scheme (text "connect")

abbrev is_switched : Option ℕ → Bool
is_switched none = false
is_switched (some n) = n == 101

abbrev has_frames : List Frame → Bool
has_frames [] = false
has_frames (f ∷ fs) = true

unfoldable pub forget : Engine → Text → Engine
forget e id =
    release (record e { captures = remove id e.captures; matched = remove id e.matched }) id

-- Whether an end by the client is no error of this transaction.
unfoldable pub close_message : Transaction → Bool → Option Text
close_message t was_aborted =
    if is_connect t || has_frames t.frames || is_switched t.status || not was_aborted
    then none
    else some (text "Client disconnected")

unfoldable pub closed : Engine → Clock → Text → Bool → Engine
unfolding forget close_message
closed e now id was_aborted = elim (get id e.transactions) [
  | none ↦ forget e id
  | some t ↦ finish (forget e id) now id (close_message t was_aborted)
]

unfoldable pub failure : Engine → Clock → Text → Text → Engine
unfolding forget
failure e now id message = finish (forget e id) now id (some message)
