-- ===== src/Engine/Lifecycle.antt =====
-- src/core/engine.ts: holds, replayed frames, stopping; and one call of the engine as a step.
use tapline.Base.{
  ℕ, Bool, true, false, not, ◌||◌, Option, none, some, List, [], ◌∷◌, ◌++◌, Text, text, text_eq,
  get, remove, ◌==◌, if◌then◌else◌,
}
use tapline.Headers.{Headers, WireHeaders}
use tapline.Model.{
  TransactionState, pending, completed, error, Frame, Direction, outgoing, incoming, BreakpointEdit,
  info,
}
use tapline.Engine.{
  Engine, Platform, Client, Clock, release, release_all, keys, log_message, Outcome, ok, refused,
  edited, clear, delete, annotate,
}
use tapline.Engine.Records.{finish}
use tapline.Engine.Handlers.{
  Connected, connect, upstream_connected, tunnel_bytes, request_data, request_end, response_data,
  response_end, websocket, frame, closed, failure,
}
use tapline.Model.{Rule}
use tapline.Engine.Pipeline.Requests.{RequestInfo, RequestPlan, Opened, open_request}
use tapline.Engine.Pipeline.Requests.Answers.{hold_request, unpause, abort_request, answer_request}
use tapline.Engine.Pipeline.Responses.{
  ResponseInfo, ResponsePlan, hold_response, abort_response, answer_response,
}

unfoldable pub resume : Engine → Text → BreakpointEdit → Outcome
resume e id edit = elim (get id e.holds) [
  | none ↦ refused (text "This request is not paused")
  | some _ ↦
      ok (record e { holds = remove id e.holds; resolved = e.resolved ++ (id, edited edit) ∷ [] })
]

unfoldable pub abort : Engine → Text → Outcome
abort e id = elim (get id e.holds) [
  | none ↦ refused (text "This request is not paused")
  | some _ ↦ ok (release e id)
]

-- The message that `resendFrame` sends, or why it does not.
pub data Resend : Type 0 where
  send : List ℕ → Bool → Resend
  reject : Text → Resend

unfoldable pub find_frame : List Frame → Text → Option Frame
find_frame [] id = none
find_frame (f ∷ fs) id = if text_eq f.id id then some f else find_frame fs id

abbrev is_outgoing : Direction → Bool
is_outgoing outgoing = true
is_outgoing incoming = false

abbrev is_pending : TransactionState → Bool
is_pending pending = true
is_pending completed = false
is_pending error = false

abbrev is_switched : Option ℕ → Bool
is_switched none = false
is_switched (some n) = n == 101

unfoldable pub resendable : Platform → Frame → Resend
resendable p f =
    if not (is_outgoing f.direction)
    then reject (text "Only outgoing WebSocket messages can be resent")
    else if f.truncated
    then reject (text "Truncated WebSocket messages cannot be resent")
    else send (if f.binary then p.from_base64 f.payload else p.from_utf8 f.payload) f.binary

unfoldable pub check_resend : Platform → Engine → Text → Text → Resend
check_resend p e id frame_id = elim (get id e.transactions) [
  | none ↦ reject (text "WebSocket connection is closed")
  | some t ↦
      if not (is_pending t.state) || not (is_switched t.status) || not e.attached
      then reject (text "WebSocket connection is closed")
      else elim (find_frame t.frames frame_id) [
        | none ↦ reject (text "WebSocket message is no longer retained")
        | some f ↦ resendable p f
      ]
]

-- What follows once the core confirmed the send.
unfoldable pub resent : Platform → Engine → Clock → Text → Text → Text → List ℕ → Bool → Engine
resent p e now uid id frame_id payload binary =
    frame p e now uid id false payload binary (some frame_id)

-- `stop` up to its first `await`, and what follows it.
unfoldable pub begin_stop : Engine → Engine
begin_stop e = release_all (keys e.holds) (record e { attached = false; running = false })

unfoldable pub finish_each : List Text → Engine → Clock → Text → Engine
finish_each [] e now message = e
finish_each (id ∷ ids) e now message = finish_each ids (finish e now id (some message)) now message

unfoldable pub end_stop : Engine → Clock → Bool → Engine
unfolding finish_each
end_stop e now was_attached =
    let e' = finish_each (keys e.transactions) e now (text "Capture stopped") in
    let e'' = record e' { captures = [] } in
    if was_attached then log_message e'' now.date info (text "Capture stopped") else e''

-- The calls that reach the engine, from the inspector and from its clients, and what follows a wait
-- of `request` or `response`, whatever plan its handler has come to.
pub data Call : Type 0 where
  connects : Text → Text → ℕ → Client → Call
  upstreams : Text → Text → Call
  tunnels : Text → Direction → ℕ → Call
  requests : Text → RequestInfo → Call
  holds_request : Text → RequestPlan → List ℕ → Call
  unpauses : Text → Call
  aborts_request : Text → RequestPlan → Call
  answers_request : Text → RequestInfo → Bool → RequestPlan → Call
  holds_response : Text → ResponseInfo → ResponsePlan → Call
  aborts_response : Text → ResponsePlan → Call
  answers_response : Text → ResponseInfo → Bool → List Rule → ResponsePlan → Call
  request_chunk : Text → List ℕ → Call
  request_ends : Text → Call
  response_chunk : Text → List ℕ → Text → Call
  response_ends : Text → Headers → Call
  websockets : Text → Text → WireHeaders → Client → Call
  frames : Text → Text → Bool → List ℕ → Bool → Option Text → Call
  closes : Text → Bool → Call
  fails : Text → Text → Call
  clears : Call
  deletes : List Text → Call
  annotates : Text → Option Text → Option Bool → Call
  resumes : Text → BreakpointEdit → Call
  aborts : Text → Call
  records : Bool → Call
  stops : Call
  stopped : Bool → Call

-- A call that throws leaves the engine as it was.
abbrev pub after : Engine → Outcome → Engine
after e (ok e') = e'
after e (refused message) = e

abbrev pub opened_or : Engine → Option Opened → Engine
opened_or e none = e
opened_or e (some o) = o.engine

abbrev pub connected_or : Engine → Option Connected → Engine
connected_or e none = e
connected_or e (some c) = c.engine

abbrev pub engine_or : Engine → Option Engine → Engine
engine_or e none = e
engine_or e (some e') = e'

-- One call.
unfoldable pub step : Platform → Engine → Clock → Call → Engine
step p e now (connects id host port client) = connected_or e (connect p e now id host port client)
step p e now (upstreams id address) = upstream_connected e id address
step p e now (tunnels id direction count) = tunnel_bytes e id direction count
step p e now (requests id asked) = opened_or e (open_request p e now id asked)
step p e now (holds_request id plan whole) = hold_request p e id plan whole
step p e now (unpauses id) = unpause e id
step p e now (aborts_request id plan) = (abort_request e id plan).engine
step p e now (answers_request id asked recorded plan) =
    (answer_request p e now id asked recorded plan).engine
step p e now (holds_response id asked plan) = hold_response p e id asked plan
step p e now (aborts_response id plan) = (abort_response e id plan).engine
step p e now (answers_response id asked recorded rules plan) =
    (answer_response p e id asked recorded rules plan).engine
step p e now (request_chunk id chunk) = request_data e id chunk
step p e now (request_ends id) = request_end p e now id
step p e now (response_chunk id chunk chars) = response_data p e id chunk chars
step p e now (response_ends id trailers) = response_end p e now id trailers
step p e now (websockets id url headers client) =
    engine_or e (websocket p e now id url headers client)
step p e now (frames uid id from_server payload binary replay_of) =
    frame p e now uid id from_server payload binary replay_of
step p e now (closes id was_aborted) = closed e now id was_aborted
step p e now (fails id message) = failure e now id message
step p e now clears = clear e
step p e now (deletes ids) = delete e ids
step p e now (annotates id note marked) = after e (annotate e id note marked)
step p e now (resumes id edit) = after e (resume e id edit)
step p e now (aborts id) = after e (abort e id)
step p e now (records value) = record e { recording = value }
step p e now stops = begin_stop e
step p e now (stopped was_attached) = end_stop e now was_attached

unfoldable pub run : Platform → Engine → List (Clock × Call) → Engine
run p e [] = e
run p e ((now, c) ∷ calls) = run p (step p e now c) calls
