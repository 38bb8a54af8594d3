-- ===== src/Inspector/Messages/Answers.antt =====
-- src/core/inspector.ts: what the inspector does with the answers of the handlers, and the relay of bodies.
use tapline.Base.{
  ℕ, Bool, false, not, Option, none, some, List, [], ◌∷◌, Text, text, text_eq, decimal, length, put,
  ◌==◌, if◌then◌else◌,
}
use tapline.Headers.{Headers, one}
use tapline.Streams.{Message, pieces}
use tapline.Streams
use tapline.Engine.Pipeline.{LocalReply, Throttle}
use tapline.Engine.Pipeline.Requests.{RequestDecision}
use tapline.Engine.Pipeline.Responses.{ResponseDecision}
use tapline.Inspector.{
  Target, Options, Side, request, response, data_of, end_of, RequestOptions, request_error,
  request_local, request_result, response_error, response_result, Inspector, send, tell, has,
  stream_name,
}
use tapline.Inspector.Messages.{Request, Response, Result, given, going, thrown}

-- A pipe of `relay` or `respondLocally` begins.
abbrev pub begin_relay : Inspector → Text → Side → Inspector
begin_relay i id side = record i {
  streams = Streams.begin_pipe i.streams (stream_name id side (text "out"));
}

unfoldable pub respond_locally : Inspector → Text → LocalReply → Inspector
respond_locally i id local =
    begin_relay
      (send i (
        request_local id local.status
          (put (text "content-length") (one (decimal (length local.body))) local.headers)))
      id request

-- `target.port || (target.protocol === 'https:' ? 443 : 80)`.
abbrev port_of : Target → ℕ
port_of target = given (if text_eq target.protocol (text "https:") then 443 else 80) target.port

abbrev pub no_decision : RequestDecision
no_decision = record {
  method = none;
  url = none;
  headers = none;
  body = none;
  local = none;
  aborted = none;
  throttle = none;
}

abbrev request_options : Options → Target → Text → Request → RequestDecision → RequestOptions
request_options o target id r d = record {
  host = target.hostname;
  port = port_of target;
  path = target.path;
  method = given (given (text "GET") r.method) d.method;
  headers = given r.headers d.headers;
  ca = o.upstream_ca;
  insecure = o.insecure_upstream id;
}

-- The request is sent on.
unfoldable pub forward_request : Options → Inspector → Text → Request → RequestDecision → Result
forward_request o i id r d =
    let url = given r.url d.url in
    elim (o.parse_url url) [
      | none ↦ thrown (text "Invalid URL")
      | some target ↦ going (
          begin_relay (send i (request_result id (request_options o target id r d) url)) id request)
    ]

abbrev pub latency_of : Option Throttle → Option ℕ
latency_of none = none
latency_of (some t) = t.latency_ms

-- Whether there is a wait first: a latency of zero is none.
abbrev pub waits : Option ℕ → Bool
waits none = false
waits (some n) = not (n == 0)

-- An empty reason counts as none.
abbrev pub if_given : Option Text → Option Text
if_given none = none
if_given (some []) = none
if_given (some (c ∷ s)) = some (c ∷ s)

unfoldable pub decide_request : Options → Inspector → Text → Request → RequestDecision → Result
unfolding forward_request respond_locally
decide_request o i id r d = elim (if_given d.aborted) [
  | some error ↦ going (send i (request_error id error))
  | none ↦ elim d.local [
    | some local ↦ going (respond_locally i id local)
    | none ↦ if waits (latency_of d.throttle) then going i else forward_request o i id r d
  ]
]

-- Behind the wait for the handler; no decision counts as an empty one.
unfoldable pub answer_request :
    Options → Inspector → Text → Request → Option RequestDecision → Result
unfolding decide_request
answer_request o i id r d =
    if has id i.sessions then decide_request o i id r (given no_decision d) else going i

unfoldable pub forward_response : Inspector → Text → Response → ResponseDecision → Inspector
forward_response i id r d =
    begin_relay
      (send i (
        response_result id (given r.status d.status) r.status_message (given r.headers d.headers)
          r.raw_headers))
      id response

abbrev pub no_reply : ResponseDecision
no_reply = record { status = none; headers = none; body = none; aborted = none; throttle = none }

unfoldable pub decide_response : Inspector → Text → Response → ResponseDecision → Inspector
unfolding forward_response
decide_response i id r d = elim (if_given d.aborted) [
  | some error ↦ send i (response_error id error)
  | none ↦ if waits (latency_of d.throttle) then i else forward_response i id r d
]

unfoldable pub answer_response : Inspector → Text → Response → Option ResponseDecision → Inspector
unfolding decide_response
answer_response i id r d =
    if has id i.sessions then decide_response i id r (given no_reply d) else i

-- The tap of `relay` takes a chunk; its bytes go on to the pipe.
unfoldable pub relay_data : Inspector → Text → Side → List ℕ → Inspector
relay_data i id side bytes = record (tell i (data_of side id bytes)) {
  streams = Streams.pipe_on i.streams (stream_name id side (text "out")) (pieces bytes);
}

-- The pipe of `relay` is done.
unfoldable pub relay_end : Inspector → Text → Side → Headers → Inspector
relay_end i id side trailers = tell i (end_of side id trailers)
