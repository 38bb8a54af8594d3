-- ===== src/Inspector/Ends.antt =====
-- src/core/inspector.ts: whatever happens, no session ends more often than it was opened.
use tapline.Base.{
  ℕ, if◌then◌else◌, refl, inl, inr, Option-cases, Bool, true, false, not, ◌||◌, Option, none, some,
  List, [], ◌∷◌, Text, text, get, arith,
}
use tapline.Inspector.{
  Options, upstream_connected, tunnel_bytes, data_of, end_of, exit_of, Inspector, Settled, rejected,
  has,
}
use tapline.Inspector.Messages.{
  on_message, id_of, tunnel_address, write_tunnel, tunnel_opens, tunnel_moves, tunnel_fails,
}
use tapline.Inspector.Messages.Answers.{forward_response, relay_data, relay_end}
use tapline.Inspector.Control.{
  finish_send, ask_core, send_websocket, finish_control, inlet, finish_controls, finish_sends,
  fail_each, ids, reject_controls, reject_sends, dismissed, left_behind, timed_out, outcome_of,
  shutdown, stop, tell_exit, on_exit, time_out_inlet, on_ready, Happening, readies, comes,
  answers_request, forwards_request, answers_response, forwards_response, relays, relay_ends,
  relay_fails, tunnel_answers, tunnel_carries, tunnel_errs, resends, resend_result, resend_timeout,
  asks_inlet, inlet_result, inlet_timeout, exits, breaks, fatal, stops, step, run,
}
use tapline.Inspector.Sessions.{IsMatched, tell-IsMatched, fail-IsMatched}
use tapline.Inspector.Matched.{
  either_IsMatched, or_fail-IsMatched, message-IsMatched, forward_request-IsMatched,
  answer_request-IsMatched, answer_response-IsMatched,
}

module _ (j : Text) where
  finish_send-IsMatched :
      (i : Inspector) (id : Text) (outcome : Settled)
      → IsMatched j i
      → IsMatched j (finish_send i id outcome)
  unfolding finish_send
  finish_send-IsMatched i id outcome h = elim (Option-cases (get id i.pending_sends)) [
    | inl gone ↦ rw (gone, finish_send) h
    | inr (b, found) ↦ rw (found, finish_send) h
  ]

  finish_control-IsMatched :
      (i : Inspector) (id : Text) (outcome : Settled)
      → IsMatched j i
      → IsMatched j (finish_control i id outcome)
  unfolding finish_control
  finish_control-IsMatched i id outcome h = elim (Option-cases (get id i.controls)) [
    | inl gone ↦ rw (gone, finish_control) h
    | inr (b, found) ↦ rw (found, finish_control) h
  ]

  ask_core-IsMatched :
      (i : Inspector) (id session : Text) (bytes : List ℕ) (binary : Bool) (fault : Option Text)
      → IsMatched j i
      → IsMatched j (ask_core i id session bytes binary fault)
  ask_core-IsMatched i id session bytes binary none h = h
  ask_core-IsMatched i id session bytes binary (some error) h =
      finish_send-IsMatched i id (rejected error) h

  send_websocket-IsMatched :
      (i : Inspector) (id session : Text) (bytes : List ℕ) (binary : Bool) (fault : Option Text)
      → IsMatched j i
      → IsMatched j (send_websocket i id session bytes binary fault)
  unfolding send_websocket
  send_websocket-IsMatched i id session bytes binary fault h =
      either_IsMatched j (not i.websocket_send) _ _ h (
        either_IsMatched j (not i.wire || not (has session i.sessions)) _ _ h
          (ask_core-IsMatched _ id session bytes binary fault h))

  inlet-IsMatched :
      (i : Inspector) (add : Bool) (id session : Text) (port : ℕ)
      → IsMatched j i
      → IsMatched j (inlet i add id session port)
  unfolding inlet
  inlet-IsMatched i add id session port h = either_IsMatched j (not i.dynamic_inbounds) _ _ h h

  finish_controls-IsMatched :
      (outcome : Settled) (waiting : List Text) (i : Inspector)
      → IsMatched j i
      → IsMatched j (finish_controls outcome waiting i)
  unfolding finish_controls
  finish_controls-IsMatched outcome [] i h = h
  finish_controls-IsMatched outcome (id ∷ waiting) i h =
      finish_controls-IsMatched outcome waiting _ (finish_control-IsMatched i id outcome h)

  finish_sends-IsMatched :
      (outcome : Settled) (waiting : List Text) (i : Inspector)
      → IsMatched j i
      → IsMatched j (finish_sends outcome waiting i)
  unfolding finish_sends
  finish_sends-IsMatched outcome [] i h = h
  finish_sends-IsMatched outcome (id ∷ waiting) i h =
      finish_sends-IsMatched outcome waiting _ (finish_send-IsMatched i id outcome h)

  fail_each-IsMatched :
      (error : Text) (sessions : List Text) (i : Inspector)
      → IsMatched j i
      → IsMatched j (fail_each error sessions i)
  unfolding fail_each
  fail_each-IsMatched error [] i h = h
  fail_each-IsMatched error (id ∷ sessions) i h =
      fail_each-IsMatched error sessions _ (fail-IsMatched j i id error h)

  tunnel_opens-IsMatched :
      (o : Options) (i : Inspector) (id : Text) (address : Option Text) (port : ℕ)
      → IsMatched j i
      → IsMatched j (tunnel_opens o i id address port)
  unfolding tunnel_opens
  tunnel_opens-IsMatched o i id none port h = h
  tunnel_opens-IsMatched o i id (some []) port h = h
  tunnel_opens-IsMatched o i id (some (c ∷ address)) port h =
      tell-IsMatched j i (upstream_connected id (tunnel_address o (c ∷ address) port)) (refl, refl)
        h

  tunnel_fails-IsMatched :
      (i : Inspector) (id : Text) (connecting : Bool) (error : Text)
      → IsMatched j i
      → IsMatched j (tunnel_fails i id connecting error)
  unfolding tunnel_fails
  tunnel_fails-IsMatched i id false error h = h
  tunnel_fails-IsMatched i id true error h =
      fail-IsMatched j
        (write_tunnel i id (text "HTTP/1.1 502 Bad Gateway\r\nContent-Length: 0\r\n\r\n")) id error
        h

  -- Sessions may be forgotten.
  without_sessions-IsMatched :
      (i : Inspector) → IsMatched j i → IsMatched j (record i { sessions = [] })
  unfolding get
  without_sessions-IsMatched i h = omega (arith, h)

  reject_controls-IsMatched :
      (error : Text) (i : Inspector) → IsMatched j i → IsMatched j (reject_controls error i)
  reject_controls-IsMatched error i h =
      finish_controls-IsMatched (rejected error) (ids i.controls) i h

  reject_sends-IsMatched :
      (error : Text) (i : Inspector) → IsMatched j i → IsMatched j (reject_sends error i)
  reject_sends-IsMatched error i h =
      finish_sends-IsMatched (rejected error) (ids i.pending_sends) i h

  dismissed-IsMatched : (i : Inspector) → IsMatched j i → IsMatched j (dismissed i)
  dismissed-IsMatched i h =
      let quiet : Inspector = record i { websocket_send = false } in
      reject_sends-IsMatched (text "Capture stopped") (reject_controls (text "Core stopped") quiet)
        (reject_controls-IsMatched (text "Core stopped") quiet h)

  shutdown-IsMatched : (i : Inspector) → IsMatched j i → IsMatched j (shutdown i)
  unfolding shutdown
  shutdown-IsMatched i h = without_sessions-IsMatched (dismissed i) (dismissed-IsMatched i h)

  stop-IsMatched : (i : Inspector) → IsMatched j i → IsMatched j (stop i)
  unfolding stop
  stop-IsMatched i h =
      either_IsMatched j i.stopping _ _ h (shutdown-IsMatched (record i { stopping = true }) h)

  tell_exit-IsMatched :
      (i : Inspector) (error : Text) → IsMatched j i → IsMatched j (tell_exit i error)
  tell_exit-IsMatched i error h =
      either_IsMatched j i.child _ _ (tell-IsMatched j i (exit_of error) (refl, refl) h) h

  on_exit-IsMatched : (i : Inspector) (error : Text) → IsMatched j i → IsMatched j (on_exit i error)
  unfolding on_exit
  on_exit-IsMatched i error h =
      fail_each-IsMatched (text "sing-box stopped") (ids (left_behind i error).sessions)
        (left_behind i error)
        (tell_exit-IsMatched (reject_sends error i) error (reject_sends-IsMatched error i h))

  fatal-IsMatched :
      (i : Inspector) (ready : Bool) (error : Text)
      → IsMatched j i
      → IsMatched j (fatal i ready error)
  unfolding fatal
  fatal-IsMatched i ready error h =
      stop-IsMatched (if ready then tell_exit i error else i)
        (either_IsMatched j ready _ _ (tell_exit-IsMatched i error h) h)

  time_out_inlet-IsMatched :
      (i : Inspector) (id : Text) → IsMatched j i → IsMatched j (time_out_inlet i id)
  unfolding time_out_inlet
  time_out_inlet-IsMatched i id h =
      either_IsMatched j (has id i.controls) _ _
        (stop-IsMatched (finish_control i id timed_out) (finish_control-IsMatched i id timed_out h))
        h

  step-IsMatched :
      (o : Options) (i : Inspector) (h : Happening) → IsMatched j i → IsMatched j (step o i h)
  unfolding step on_ready on_message forward_response relay_data relay_end tunnel_moves
  step-IsMatched o i (readies sends dynamic port) h = h
  step-IsMatched o i (comes m) h = or_fail-IsMatched j i (id_of m) _ h (message-IsMatched j o i m h)
  step-IsMatched o i (answers_request id r d) h =
      or_fail-IsMatched j i id _ h (answer_request-IsMatched j o i id r d h)
  step-IsMatched o i (forwards_request id r d) h =
      or_fail-IsMatched j i id _ h (forward_request-IsMatched j o i id r d h)
  step-IsMatched o i (answers_response id r d) h = answer_response-IsMatched j i id r d h
  step-IsMatched o i (forwards_response id r d) h = h
  step-IsMatched o i (relays id side bytes) h =
      tell-IsMatched j i (data_of side id bytes) (refl, refl) h
  step-IsMatched o i (relay_ends id side trailers) h =
      tell-IsMatched j i (end_of side id trailers) (refl, refl) h
  step-IsMatched o i (relay_fails id error) h = fail-IsMatched j i id error h
  step-IsMatched o i (tunnel_answers id address port) h =
      tunnel_opens-IsMatched o i id address port h
  step-IsMatched o i (tunnel_carries id sending count) h =
      tell-IsMatched j i (tunnel_bytes id sending count) (refl, refl) h
  step-IsMatched o i (tunnel_errs id connecting error) h =
      tunnel_fails-IsMatched i id connecting error h
  step-IsMatched o i (resends id session bytes binary fault) h =
      send_websocket-IsMatched i id session bytes binary fault h
  step-IsMatched o i (resend_result id error) h = finish_send-IsMatched i id (outcome_of 0 error) h
  step-IsMatched o i (resend_timeout id) h =
      finish_send-IsMatched i id (rejected (text "WebSocket resend timed out; delivery is unknown"))
        h
  step-IsMatched o i (asks_inlet add id session port) h = inlet-IsMatched i add id session port h
  step-IsMatched o i (inlet_result id error port) h =
      finish_control-IsMatched i id (outcome_of port error) h
  step-IsMatched o i (inlet_timeout id) h = time_out_inlet-IsMatched i id h
  step-IsMatched o i (exits error) h = on_exit-IsMatched i error h
  step-IsMatched o i (breaks ready error) h = fatal-IsMatched i ready error h
  step-IsMatched o i stops h = stop-IsMatched i h

-- Whatever happens to an inspector, in any order, from one whose ends of a session, with its being
-- open, are at most as many as its openings: the engine is told of the end of a session at most as
-- often as of its opening, and once less while the session is open.
pub run-IsMatched :
    (j : Text) (o : Options) (i : Inspector) (happenings : List Happening)
    → IsMatched j i
    → IsMatched j (run o i happenings)
unfolding run
run-IsMatched j o i [] h = h
run-IsMatched j o i (x ∷ happenings) h =
    run-IsMatched j o (step o i x) happenings (step-IsMatched j o i x h)
