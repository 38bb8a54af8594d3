-- ===== src/Inspector/Control.antt =====
-- src/core/inspector.ts: what the inspector asks of the core, how the core ends, and all that can
-- happen to an inspector as `step`. A random id is an argument, and so is the error that the wire
-- throws on a message.
use tapline.Base.{
  ℕ, Bool, true, false, not, ◌||◌, Option, none, some, List, [], ◌∷◌, ◌++◌, Text, text, Assoc, get,
  put, remove, if◌then◌else◌,
}
use tapline.Headers.{Headers}
use tapline.Streams
use tapline.Engine.Pipeline.Requests.{RequestDecision}
use tapline.Engine.Pipeline.Responses.{ResponseDecision}
use tapline.Inspector.{
  Options, Side, exit_of, websocket_send, inbound, Settled, resolved, rejected, Inspector, send,
  tell, has, fail,
}
use tapline.Inspector.Messages.{
  Incoming, Request, Response, or_fail, on_message, tunnel_opens, tunnel_moves, tunnel_fails,
}
use tapline.Inspector.Messages.Answers.{
  answer_request, forward_request, answer_response, forward_response, relay_data, relay_end,
}

abbrev settle : Inspector → Text → Settled → Inspector
settle i id outcome = record i { settled = i.settled ++ (id, outcome) ∷ [] }

-- `finish` of sendWebSocket, found in `pendingSends`.
unfoldable pub finish_send : Inspector → Text → Settled → Inspector
finish_send i id outcome = elim (get id i.pending_sends) [
  | none ↦ i
  | some _ ↦ settle (record i { pending_sends = remove id i.pending_sends }) id outcome
]

abbrev pub ask_core : Inspector → Text → Text → List ℕ → Bool → Option Text → Inspector
ask_core i id session bytes binary none = send i (websocket_send id session bytes binary)
ask_core i id session bytes binary (some error) = finish_send i id (rejected error)

unfoldable pub send_websocket : Inspector → Text → Text → List ℕ → Bool → Option Text → Inspector
unfolding finish_send
send_websocket i id session bytes binary fault =
    if not i.websocket_send
    then settle i id (rejected (text "Rebuild the capture core to enable WebSocket resend"))
    else if not i.wire || not (has session i.sessions)
    then settle i id (rejected (text "WebSocket connection is closed"))
    else ask_core (record i { pending_sends = put id true i.pending_sends }) id session bytes binary
        fault

unfoldable pub finish_control : Inspector → Text → Settled → Inspector
finish_control i id outcome = elim (get id i.controls) [
  | none ↦ i
  | some _ ↦ settle (record i { controls = remove id i.controls }) id outcome
]

unfoldable pub inlet : Inspector → Bool → Text → Text → ℕ → Inspector
inlet i add id session port =
    if not i.dynamic_inbounds
    then settle i id (rejected (text "Rebuild the capture core to enable window isolation"))
    else send (record i { controls = put id true i.controls }) (inbound add id session port)

abbrev pub outcome_of : ℕ → Option Text → Settled
outcome_of port none = resolved port
outcome_of port (some error) = rejected error

abbrev pub ids : Assoc Bool → List Text
ids [] = []
ids ((k, v) ∷ m) = k ∷ ids m

-- `for (const control of this.controls.values()) control.reject(error)`, and the same for the sends.
unfoldable pub finish_controls : Settled → List Text → Inspector → Inspector
unfolding finish_control
finish_controls outcome [] i = i
finish_controls outcome (id ∷ waiting) i =
    finish_controls outcome waiting (finish_control i id outcome)

unfoldable pub finish_sends : Settled → List Text → Inspector → Inspector
unfolding finish_send
finish_sends outcome [] i = i
finish_sends outcome (id ∷ waiting) i = finish_sends outcome waiting (finish_send i id outcome)

unfoldable pub fail_each : Text → List Text → Inspector → Inspector
unfolding fail
fail_each error [] i = i
fail_each error (id ∷ sessions) i = fail_each error sessions (fail i id error)

abbrev pub reject_controls : Text → Inspector → Inspector
reject_controls error i = finish_controls (rejected error) (ids i.controls) i

abbrev pub reject_sends : Text → Inspector → Inspector
reject_sends error i = finish_sends (rejected error) (ids i.pending_sends) i

-- `shutdown`, up to its wait for the child.
abbrev pub dismissed : Inspector → Inspector
dismissed i =
    reject_sends (text "Capture stopped")
      (reject_controls (text "Core stopped") (record i { websocket_send = false }))

unfoldable pub shutdown : Inspector → Inspector
unfolding finish_controls finish_sends
shutdown i =
    let i' = dismissed i in
    record i' { streams = Streams.close i'.streams; child = false; tunnels = []; sessions = [] }

-- `stop` runs `shutdown` once.
unfoldable pub stop : Inspector → Inspector
unfolding shutdown
stop i = if i.stopping then i else shutdown (record i { stopping = true })

abbrev pub timed_out : Settled
timed_out = rejected (text "Core inlet control timed out")

-- The timer of `inlet`, which an answer clears.
unfoldable pub time_out_inlet : Inspector → Text → Inspector
unfolding finish_control stop
time_out_inlet i id = if has id i.controls then stop (finish_control i id timed_out) else i

-- The child exits; `this.child === child` unless a stop came first.
abbrev pub tell_exit : Inspector → Text → Inspector
tell_exit i error = if i.child then tell i (exit_of error) else i

abbrev pub left_behind : Inspector → Text → Inspector
left_behind i error = tell_exit (reject_sends error i) error

-- `fatal`: an error of the child or of its stdin, a fault of the wire, or a start that takes too
-- long. `ready` says that the core and its inspector were ready.
unfoldable pub fatal : Inspector → Bool → Text → Inspector
unfolding stop
fatal i ready error = stop (if ready then tell_exit i error else i)

unfoldable pub on_exit : Inspector → Text → Inspector
unfolding finish_sends fail_each
on_exit i error =
    let i' = left_behind i error in
    let i2 = fail_each (text "sing-box stopped") (ids i'.sessions) i' in
    record i2 { streams = Streams.close i2.streams }

unfoldable pub on_ready : Inspector → Bool → Bool → ℕ → Inspector
on_ready i sends dynamic port = record i {
  websocket_send = sends;
  dynamic_inbounds = dynamic;
  port = port;
}

pub data Happening : Type 0 where
  readies : Bool → Bool → ℕ → Happening
  comes : Incoming → Happening
  answers_request : Text → Request → Option RequestDecision → Happening
  forwards_request : Text → Request → RequestDecision → Happening
  answers_response : Text → Response → Option ResponseDecision → Happening
  forwards_response : Text → Response → ResponseDecision → Happening
  relays : Text → Side → List ℕ → Happening
  relay_ends : Text → Side → Headers → Happening
  relay_fails : Text → Text → Happening
  tunnel_answers : Text → Option Text → ℕ → Happening
  tunnel_carries : Text → Bool → ℕ → Happening
  tunnel_errs : Text → Bool → Text → Happening
  resends : Text → Text → List ℕ → Bool → Option Text → Happening
  resend_result : Text → Option Text → Happening
  resend_timeout : Text → Happening
  asks_inlet : Bool → Text → Text → ℕ → Happening
  inlet_result : Text → Option Text → ℕ → Happening
  inlet_timeout : Text → Happening
  exits : Text → Happening
  breaks : Bool → Text → Happening
  stops : Happening

unfoldable pub step : Options → Inspector → Happening → Inspector
unfolding on_ready on_message answer_request forward_request answer_response forward_response
    relay_data relay_end tunnel_opens tunnel_moves tunnel_fails fail send_websocket finish_send
    inlet finish_control time_out_inlet on_exit fatal stop
step o i (readies sends dynamic port) = on_ready i sends dynamic port
step o i (comes m) = on_message o i m
step o i (answers_request id r d) = or_fail i id (answer_request o i id r d)
step o i (forwards_request id r d) = or_fail i id (forward_request o i id r d)
step o i (answers_response id r d) = answer_response i id r d
step o i (forwards_response id r d) = forward_response i id r d
step o i (relays id side bytes) = relay_data i id side bytes
step o i (relay_ends id side trailers) = relay_end i id side trailers
step o i (relay_fails id error) = fail i id error
step o i (tunnel_answers id address port) = tunnel_opens o i id address port
step o i (tunnel_carries id sending count) = tunnel_moves i id sending count
step o i (tunnel_errs id connecting error) = tunnel_fails i id connecting error
step o i (resends id session bytes binary fault) = send_websocket i id session bytes binary fault
step o i (resend_result id error) = finish_send i id (outcome_of 0 error)
step o i (resend_timeout id) =
    finish_send i id (rejected (text "WebSocket resend timed out; delivery is unknown"))
step o i (asks_inlet add id session port) = inlet i add id session port
step o i (inlet_result id error port) = finish_control i id (outcome_of port error)
step o i (inlet_timeout id) = time_out_inlet i id
step o i (exits error) = on_exit i error
step o i (breaks ready error) = fatal i ready error
step o i stops = stop i

unfoldable pub run : Options → Inspector → List Happening → Inspector
unfolding step
run o i [] = i
run o i (h ∷ hs) = run o (step o i h) hs
