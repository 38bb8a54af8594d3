-- ===== src/Inspector/Matched.antt =====
-- src/core/inspector.ts: the messages of the core and the answers to them, and the ends of sessions.
use tapline.Base.{
  ℕ, refl, inl, inr, Option-cases, Bool, true, false, Option, none, some, ◌++◌, Text, text,
  if◌then◌else◌,
}
use tapline.Engine.{Client}
use tapline.Engine.Pipeline.Requests.{RequestDecision}
use tapline.Engine.Pipeline.Responses.{ResponseDecision}
use tapline.Inspector.{
  Options, connect, requested, responded, upstream_connected, websocket, frame, closed, Inspector,
  has,
}
use tapline.Inspector.Messages.{
  Incoming, stream, certificate, quic, connects, requests, responds, reached, closes, fails,
  upgrades, frames, Socket, Request, Response, Result, going, thrown, inlet_error, open_connect,
  on_connect, on_request, on_response, on_reached, on_closed, on_websocket, on_frame, unless_thrown,
  message, or_fail, given,
}
use tapline.Inspector.Messages.Answers.{
  respond_locally, forward_request, decide_request, answer_request, forward_response,
  decide_response, answer_response, if_given, waits, latency_of, no_decision, no_reply,
}
use tapline.Inspector.Sessions.{
  IsMatched, tell-IsMatched, begin_session-IsMatched, end_session-IsMatched, fail-IsMatched,
}

module _ (j : Text) where
  abbrev IsMatchedResult : Result → Type 0
  IsMatchedResult (going i) = IsMatched j i
  IsMatchedResult (thrown error) = Unit {0}

  pub either_IsMatched :
      (b : Bool) (x y : Inspector)
      → IsMatched j x
      → IsMatched j y
      → IsMatched j (if b then x else y)
  either_IsMatched true x y h k = h
  either_IsMatched false x y h k = k

  either_IsMatchedResult :
      (b : Bool) (x y : Result)
      → IsMatchedResult x
      → IsMatchedResult y
      → IsMatchedResult (if b then x else y)
  either_IsMatchedResult true x y h k = h
  either_IsMatchedResult false x y h k = k

  unless_thrown-IsMatched :
      (e : Option Text) (r : Result) → IsMatchedResult r → IsMatchedResult (unless_thrown e r)
  unless_thrown-IsMatched none r h = h
  unless_thrown-IsMatched (some error) r h = tt

  pub or_fail-IsMatched :
      (i : Inspector) (id : Text) (r : Result)
      → IsMatched j i
      → IsMatchedResult r
      → IsMatched j (or_fail i id r)
  unfolding or_fail
  or_fail-IsMatched i id (going i') h k = k
  or_fail-IsMatched i id (thrown error) h k = fail-IsMatched j i id error h

  open_connect-IsMatched :
      (o : Options) (i : Inspector) (id host : Text) (port : ℕ) (client : Client)
      → IsMatched j i
      → IsMatched j (open_connect o i id host port client)
  unfolding open_connect
  open_connect-IsMatched o i id host port client h =
      let begun = begin_session-IsMatched j i id (connect id host port client) refl refl h in
      either_IsMatched (o.connects id host port client) _ _ begun begun

  on_connect-IsMatched :
      (o : Options) (i : Inspector) (id url : Text) (socket : Socket)
      → IsMatched j i
      → IsMatchedResult (on_connect o i id url socket)
  unfolding on_connect
  on_connect-IsMatched o i id url socket h =
      elim (Option-cases (o.parse_url (text "https://" ++ url))) [
        | inl bad ↦ rw (bad, on_connect) tt
        | inr (target, good) ↦ rw (good, on_connect) (open_connect-IsMatched o i id _ _ _ h)
      ]

  on_response-IsMatched :
      (i : Inspector) (id : Text) (r : Response) (address : Option Text)
      → IsMatched j i
      → IsMatched j (on_response i id r address)
  unfolding on_response
  on_response-IsMatched i id r address h =
      either_IsMatched (has id i.sessions) _ _
        (tell-IsMatched j i (responded id r.status r.headers) (refl, refl) h) h

  on_reached-IsMatched :
      (i : Inspector) (id : Text) (address : Option Text)
      → IsMatched j i
      → IsMatched j (on_reached i id address)
  unfolding on_reached
  on_reached-IsMatched i id none h = h
  on_reached-IsMatched i id (some address) h =
      either_IsMatched (has id i.sessions) _ _
        (tell-IsMatched j i (upstream_connected id address) (refl, refl) h) h

  pub message-IsMatched :
      (o : Options) (i : Inspector) (m : Incoming) → IsMatched j i → IsMatchedResult (message o i m)
  unfolding message on_request on_closed on_websocket on_frame
  message-IsMatched o i (stream more m) h = h
  message-IsMatched o i (certificate id) h = h
  message-IsMatched o i (quic id host inbound) h = h
  message-IsMatched o i (connects id url socket) h =
      unless_thrown-IsMatched (inlet_error o id socket) _ (on_connect-IsMatched o i id url socket h)
  message-IsMatched o i (requests id r socket) h =
      unless_thrown-IsMatched (inlet_error o id socket) _ (
        begin_session-IsMatched j i id (requested id _ r.url r.http_version r.headers _) refl refl
          h)
  message-IsMatched o i (responds id r address) h = on_response-IsMatched i id r address h
  message-IsMatched o i (reached id address) h = on_reached-IsMatched i id address h
  message-IsMatched o i (closes id aborted) h =
      end_session-IsMatched j _ id (closed id aborted) refl refl h
  message-IsMatched o i (fails id error) h = fail-IsMatched j i id error h
  message-IsMatched o i (upgrades id url headers socket) h =
      unless_thrown-IsMatched (inlet_error o id socket) _
        (begin_session-IsMatched j i id (websocket id url headers _) refl refl h)
  message-IsMatched o i (frames session id frame_id from_server bytes binary) h =
      tell-IsMatched j i (frame _ from_server bytes binary) (refl, refl) h

  pub forward_request-IsMatched :
      (o : Options) (i : Inspector) (id : Text) (r : Request) (d : RequestDecision)
      → IsMatched j i
      → IsMatchedResult (forward_request o i id r d)
  unfolding forward_request
  forward_request-IsMatched o i id r d h = elim (Option-cases (o.parse_url (given r.url d.url))) [
    | inl bad ↦ rw (bad, forward_request) tt
    | inr (target, good) ↦ rw (good, forward_request) h
  ]

  decide_request-IsMatched :
      (o : Options) (i : Inspector) (id : Text) (r : Request) (d : RequestDecision)
      → IsMatched j i
      → IsMatchedResult (decide_request o i id r d)
  unfolding decide_request respond_locally
  decide_request-IsMatched o i id r d h = elim (Option-cases (if_given d.aborted)) [
    | inr (error, given_up) ↦ rw (given_up, decide_request) h
    | inl goes_on ↦ elim (Option-cases d.local) [
      | inr (local, found) ↦ rw (goes_on, found, decide_request) h
      | inl no_local ↦
          rw (goes_on, no_local, decide_request)
            (either_IsMatchedResult (waits (latency_of d.throttle)) _ _ h
              (forward_request-IsMatched o i id r d h))
    ]
  ]

  pub answer_request-IsMatched :
      (o : Options) (i : Inspector) (id : Text) (r : Request) (d : Option RequestDecision)
      → IsMatched j i
      → IsMatchedResult (answer_request o i id r d)
  unfolding answer_request
  answer_request-IsMatched o i id r d h =
      either_IsMatchedResult (has id i.sessions) _ _
        (decide_request-IsMatched o i id r (given no_decision d) h) h

  decide_response-IsMatched :
      (i : Inspector) (id : Text) (r : Response) (d : ResponseDecision)
      → IsMatched j i
      → IsMatched j (decide_response i id r d)
  unfolding decide_response forward_response
  decide_response-IsMatched i id r d h = elim (Option-cases (if_given d.aborted)) [
    | inr (error, given_up) ↦ rw (given_up, decide_response) h
    | inl goes_on ↦
        rw (goes_on, decide_response) (either_IsMatched (waits (latency_of d.throttle)) _ _ h h)
  ]

  pub answer_response-IsMatched :
      (i : Inspector) (id : Text) (r : Response) (d : Option ResponseDecision)
      → IsMatched j i
      → IsMatched j (answer_response i id r d)
  unfolding answer_response
  answer_response-IsMatched i id r d h =
      either_IsMatched (has id i.sessions) _ _
        (decide_response-IsMatched i id r (given no_reply d) h) h
