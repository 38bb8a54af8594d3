-- ===== src/Inspector/Messages.antt =====
-- src/core/inspector.ts: `message`, the relay of bodies, and the wire's messages.
-- The handlers of a request and of a response are awaited: what comes behind the wait is an operation
-- of its own, and so is what comes behind the delay of a throttle.
pub mod Answers
use tapline.Base.{
  ℕ, Bool, true, false, not, ◌&&◌, Option, none, some, List, [], ◌∷◌, ◌++◌, Text, text, text_eq,
  is_empty, decimal, length, put, remove, ◌==◌, if◌then◌else◌,
}
use tapline.Headers.{Headers, WireHeaders, one}
use tapline.Streams.{Message, pieces}
use tapline.Streams
use tapline.Engine.{Client}
use tapline.Engine.Pipeline.{LocalReply, Throttle}
use tapline.Engine.Pipeline.Requests.{RequestDecision}
use tapline.Engine.Pipeline.Responses.{ResponseDecision}
use tapline.Inspector.{
  Target, Options, Side, request, response, connect, requested, responded, upstream_connected,
  tunnel_bytes, data_of, end_of, websocket, frame, closed, RequestOptions, certificate_result,
  quic_result, inspect, abort, request_error, request_local, request_result, response_error,
  response_result, websocket_result, frame_result, Inspector, send, tell, has, stream_name,
  end_session, fail, begin_session,
}

pub record Socket : Type 0 where
  pub remote_address : Option Text
  pub remote_port : Option ℕ
  pub inbound : Option Text

pub record Request : Type 0 where
  pub method : Option Text
  pub url : Text
  pub http_version : Option Text
  pub headers : WireHeaders

pub record Response : Type 0 where
  pub status : ℕ
  pub status_message : Option Text
  pub headers : WireHeaders
  pub raw_headers : List Text

-- What the core sends. A message without a socket has an empty one.
pub data Incoming : Type 0 where
  stream : Bool → Message → Incoming
  certificate : Text → Incoming
  quic : Text → Text → Option Text → Incoming
  connects : Text → Text → Socket → Incoming
  requests : Text → Request → Socket → Incoming
  responds : Text → Response → Option Text → Incoming
  reached : Text → Option Text → Incoming
  closes : Text → Bool → Incoming
  fails : Text → Text → Incoming
  upgrades : Text → Text → WireHeaders → Socket → Incoming
  frames : Option Text → Text → Text → Bool → List ℕ → Bool → Incoming

-- Either an operation goes on, or it throws.
pub data Result : Type 0 where
  going : Inspector → Result
  thrown : Text → Result

abbrev pub given {ℓ} : {A : Type ℓ} → A → Option A → A
given d none = d
given d (some a) = a

abbrev pub client_of : Socket → Client
client_of socket = record {
  remote_address = given [] socket.remote_address;
  remote_port = given 0 socket.remote_port;
}

abbrev lacks_inbound : Option Text → Bool
lacks_inbound none = true
lacks_inbound (some inbound) = is_empty inbound

abbrev bound : Options → Text → Option Text → Option Text
bound o id none = none
bound o id (some []) = none
bound o id (some (c ∷ inbound)) = if is_empty id then none else o.bind_session id (c ∷ inbound)

-- The inlet of a message that opens a session; an error that is thrown, if any.
unfoldable pub inlet_error : Options → Text → Socket → Option Text
inlet_error o id socket =
    if o.dynamic_inbounds && lacks_inbound socket.inbound
    then some (text "Missing capture inlet identity")
    else bound o id socket.inbound

-- `hostname.replace(/^\[|\]$/g, '')`.
abbrev without_end : Text → Text
without_end [] = []
without_end (c ∷ []) = if c == b']' then [] else c ∷ []
without_end (c ∷ d ∷ s) = c ∷ without_end (d ∷ s)

abbrev pub without_brackets : Text → Text
without_brackets [] = []
without_brackets (c ∷ s) = if c == b'[' then without_end s else without_end (c ∷ s)

-- `Number(port) || 443`.
abbrev pub port_or_443 : Option ℕ → ℕ
port_or_443 none = 443
port_or_443 (some n) = if n == 0 then 443 else n

-- The opaque tunnel, up to the connection to its server.
abbrev open_tunnel : Inspector → Text → Inspector
open_tunnel i id = record i {
  streams = Streams.reader i.streams (id ++ text ":tunnel:in");
  tunnels = put id true i.tunnels;
}

-- The address of the server of a tunnel.
abbrev pub tunnel_address : Options → Text → ℕ → Text
tunnel_address o address port =
    (if o.is_ipv6 address then b'[' ∷ (address ++ text "]") else address) ++ b':' ∷ decimal port

abbrev tell_address : Options → Inspector → Text → Option Text → ℕ → Inspector
tell_address o i id none port = i
tell_address o i id (some []) port = i
tell_address o i id (some (c ∷ address)) port =
    tell i (upstream_connected id (tunnel_address o (c ∷ address) port))

-- `socket.write`, on the stream of a tunnel.
abbrev pub write_tunnel : Inspector → Text → Text → Inspector
write_tunnel i id line = record i {
  streams = Streams.write i.streams (id ++ text ":tunnel:out") line;
}

-- The server of a tunnel answers, which the client is told.
unfoldable pub tunnel_opens : Options → Inspector → Text → Option Text → ℕ → Inspector
tunnel_opens o i id address port =
    write_tunnel (tell_address o i id address port) id
      (text "HTTP/1.1 200 Connection Established\r\n\r\n")

unfoldable pub tunnel_moves : Inspector → Text → Bool → ℕ → Inspector
tunnel_moves i id sending count = tell i (tunnel_bytes id sending count)

-- An error of the connection to the server; once it stands, the error is nothing to report.
unfoldable pub tunnel_fails : Inspector → Text → Bool → Text → Inspector
unfolding fail
tunnel_fails i id false error = i
tunnel_fails i id true error =
    fail (write_tunnel i id (text "HTTP/1.1 502 Bad Gateway\r\nContent-Length: 0\r\n\r\n")) id error

unfoldable pub open_connect : Options → Inspector → Text → Text → ℕ → Client → Inspector
unfolding begin_session
open_connect o i id host port client =
    let i' = begin_session i id (connect id host port client) in
    if o.connects id host port client then send i' (inspect id) else open_tunnel i' id

unfoldable pub on_connect : Options → Inspector → Text → Text → Socket → Result
unfolding open_connect
on_connect o i id url socket = elim (o.parse_url (text "https://" ++ url)) [
  | none ↦ thrown (text "Invalid URL")
  | some target ↦ going (
      open_connect o i id (without_brackets target.hostname) (port_or_443 target.port)
        (client_of socket))
]

-- `request` up to the wait for the handler.
unfoldable pub on_request : Inspector → Text → Request → Socket → Inspector
unfolding begin_session
on_request i id r socket =
    let i' = begin_session i id (
      requested id (given (text "GET") r.method) r.url r.http_version r.headers
        (client_of socket)) in
    record i' { streams = Streams.reader i'.streams (stream_name id request (text "in")) }

unfoldable pub on_response : Inspector → Text → Response → Option Text → Inspector
on_response i id r address =
    if has id i.sessions
    then record (tell i (responded id r.status r.headers)) {
      streams = Streams.reader i.streams (stream_name id response (text "in"));
    }
    else send i (abort id)

unfoldable pub on_reached : Inspector → Text → Option Text → Inspector
on_reached i id none = i
on_reached i id (some address) =
    if has id i.sessions then tell i (upstream_connected id address) else i

unfoldable pub on_closed : Inspector → Text → Bool → Inspector
unfolding end_session
on_closed i id aborted =
    end_session
      (record i {
        tunnels = remove id i.tunnels;
        streams = Streams.cancel i.streams (id ++ text ":");
      })
      id (closed id aborted)

unfoldable pub on_websocket : Options → Inspector → Text → Text → WireHeaders → Socket → Inspector
unfolding begin_session
on_websocket o i id url headers socket =
    send (begin_session i id (websocket id url headers (client_of socket)))
      (websocket_result id url headers o.upstream_ca (o.insecure_upstream id))

unfoldable pub on_frame : Inspector → Option Text → Text → Text → Bool → List ℕ → Bool → Inspector
on_frame i session id frame_id from_server bytes binary =
    send (tell i (frame (given id session) from_server bytes binary))
      (frame_result frame_id bytes binary)

abbrev pub unless_thrown : Option Text → Result → Result
unless_thrown none result = result
unless_thrown (some error) result = thrown error

-- `message`.
unfoldable pub message : Options → Inspector → Incoming → Result
unfolding inlet_error on_connect on_request on_response on_reached on_closed on_websocket on_frame
    fail
message o i (stream more m) = going (record i { streams = Streams.receive more i.streams m })
message o i (certificate id) = going (send i (certificate_result id))
message o i (quic id host inbound) = going (send i (quic_result id (o.intercept host inbound)))
message o i (connects id url socket) =
    unless_thrown (inlet_error o id socket) (on_connect o i id url socket)
message o i (requests id r socket) =
    unless_thrown (inlet_error o id socket) (going (on_request i id r socket))
message o i (responds id r address) = going (on_response i id r address)
message o i (reached id address) = going (on_reached i id address)
message o i (closes id aborted) = going (on_closed i id aborted)
message o i (fails id error) = going (fail i id error)
message o i (upgrades id url headers socket) =
    unless_thrown (inlet_error o id socket) (going (on_websocket o i id url headers socket))
message o i (frames session id frame_id from_server bytes binary) =
    going (on_frame i session id frame_id from_server bytes binary)

abbrev pub id_of : Incoming → Text
id_of (stream more m) = []
id_of (certificate id) = id
id_of (quic id host inbound) = id
id_of (connects id url socket) = id
id_of (requests id r socket) = id
id_of (responds id r address) = id
id_of (reached id address) = id
id_of (closes id aborted) = id
id_of (fails id error) = id
id_of (upgrades id url headers socket) = id
id_of (frames session id frame_id from_server bytes binary) = id

-- `.catch((error) => this.fail(id, error))`.
unfoldable pub or_fail : Inspector → Text → Result → Inspector
unfolding fail
or_fail i id (going i') = i'
or_fail i id (thrown error) = fail i id error

unfoldable pub on_message : Options → Inspector → Incoming → Inspector
unfolding message or_fail
on_message o i m = or_fail i (id_of m) (message o i m)
