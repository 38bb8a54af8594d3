-- ===== src/Engine/Keeping/Calls.antt =====
-- src/core/engine.ts: what every call keeps of the map of transactions.
use tapline.Base.{
  ℕ, ◌≡◌, refl, inl, inr, Bool, true, false, ◌||◌, Option, none, some, List, [], ◌∷◌, Text, text,
  Assoc, get, Bool-cases, Option-cases,
}
use tapline.Headers.{WireHeaders}
use tapline.Model.{Transaction, Settings, outgoing, incoming, BreakpointEdit}
use tapline.Engine.{
  intercepts, EventStream, request, response, Engine, Platform, Client, Clock, keys, clear, delete,
  delete_each, annotate, too_long, emit_event, log_message,
}
use tapline.Engine.Records.{Created}
use tapline.Engine.Handlers.{
  end_request, sealed_request, sealed_response, push_stream, close_message, name_tunnel, tunnelled,
  switch_protocols, switched, is_composed, connect, upstream_connected, tunnel_bytes, request_data,
  request_end, stream_data, response_data, response_end, websocket, frame, closed, failure,
}
use tapline.Engine.Lifecycle.{
  connects, upstreams, tunnels, requests, holds_request, unpauses, aborts_request, answers_request,
  holds_response, aborts_response, answers_response, request_chunk, request_ends, response_chunk,
  response_ends, websockets, frames, closes, fails, clears, deletes, annotates, resumes, aborts,
  records, stops, stopped, step, run, Call, begin_stop, end_stop, finish_each, resume, abort, after,
  connected_or, engine_or,
}
use tapline.Engine.Keeping.{
  Keeper, IsWrite, untouched, Kept, KeptCreated, publish-keeps, store-keeps, update-keeps,
  modify-keeps, finish-keeps, release-keeps, release_all-keeps, forget-keeps, capture-keeps,
  seal-keeps, create-keeps,
}
use tapline.Engine.Pipeline.Requests.Answers.{unpause, abort_request}
use tapline.Engine.Pipeline.Responses.{abort_response}
use tapline.Engine.Keeping.Rules.{
  open_request-keeps, hold_request-keeps, answer_request-keeps, hold_response-keeps,
  answer_response-keeps,
}
use tapline.Engine.Keeping.Writes.{
  annotated-IsWrite, push_events-IsWrite, shown-IsWrite, with_trailers-IsWrite, frame-IsWrite,
}

-- What holds of the ids that a call opens.
abbrev pub Opens : (Text → Type 0) → Call → Type 0
Opens N (connects id host port client) = N id
Opens N (requests id info) = N id
Opens N (websockets id url headers client) = N id
Opens N c = Unit {0}

abbrev pub OpensAll : (Text → Type 0) → List (Clock × Call) → Type 0
OpensAll N [] = Unit {0}
OpensAll N ((now, c) ∷ calls) = Opens N c × OpensAll N calls

module _ {P : Settings → Assoc Transaction → Type 0} {IsNew : Text → Type 0}
    (rule : Keeper P IsNew) where
  name_tunnel-keeps :
      (entry : Option Transaction) (e : Engine) (id host : Text) (port : ℕ)
      → Kept rule e
      → Kept rule (name_tunnel entry e id host port)
  unfolding name_tunnel
  name_tunnel-keeps none e id host port b = b
  name_tunnel-keeps (some _) e id host port b =
      modify-keeps rule e id _ (λ t. untouched t _ refl refl refl refl) b

  tunnelled-keeps :
      (e : Engine) (c : Option Created) (id host : Text) (port : ℕ)
      → Kept rule e
      → KeptCreated rule c
      → Kept rule (connected_or e (tunnelled c id host port))
  unfolding tunnelled
  tunnelled-keeps e none id host port b h = b
  tunnelled-keeps e (some c) id host port b h = name_tunnel-keeps c.entry c.engine id host port h

  connect-keeps :
      (p : Platform) (e : Engine) (now : Clock) (id host : Text) (port : ℕ) (client : Client)
      → IsNew id
      → Kept rule e
      → Kept rule (connected_or e (connect p e now id host port client))
  unfolding connect
  connect-keeps p e now id host port client new b =
      elim (Bool-cases (intercepts e host || is_composed e client)) [
        | inl through ↦ rw through b
        | inr opaque ↦
            rw opaque
              (tunnelled-keeps e _ id host port b (create-keeps rule p e now id _ _ client _ new b))
      ]

  switch_protocols-keeps :
      (entry : Option Transaction) (e : Engine) (id : Text) (headers : WireHeaders)
      → Kept rule e
      → Kept rule (switch_protocols entry e id headers)
  unfolding switch_protocols
  switch_protocols-keeps none e id headers b = b
  switch_protocols-keeps (some _) e id headers b =
      update-keeps rule e id _ (λ t. untouched t _ refl refl refl refl) b

  switched-keeps :
      (e : Engine) (c : Option Created) (id : Text) (headers : WireHeaders)
      → Kept rule e
      → KeptCreated rule c
      → Kept rule (engine_or e (switched c id headers))
  unfolding switched
  switched-keeps e none id headers b h = b
  switched-keeps e (some c) id headers b h = switch_protocols-keeps c.entry c.engine id headers h

  finish_each-keeps :
      (ids : List Text) (e : Engine) (now : Clock) (m : Text)
      → Kept rule e
      → Kept rule (finish_each ids e now m)
  unfolding finish_each
  finish_each-keeps [] e now m b = b
  finish_each-keeps (id ∷ ids) e now m b =
      finish_each-keeps ids _ now m (finish-keeps rule e now id (some m) b)

  delete_each-keeps : (ids : List Text) (e : Engine) → Kept rule e → Kept rule (delete_each ids e)
  unfolding delete_each
  delete_each-keeps [] e b = b
  delete_each-keeps (id ∷ ids) e b =
      delete_each-keeps ids _ (rule.drop _ _ id (release-keeps rule e id b))

  clear-keeps : (e : Engine) → Kept rule e → Kept rule (clear e)
  unfolding clear emit_event
  clear-keeps e b = rule.empty _ _ (release_all-keeps rule (keys e.holds) e b)

  annotate-keeps :
      (e : Engine) (id : Text) (note : Option Text) (marked : Option Bool)
      → Kept rule e
      → Kept rule (after e (annotate e id note marked))
  unfolding annotate
  annotate-keeps e id note marked b = elim (Option-cases (get id e.transactions)) [
    | inl gone ↦ rw (gone, annotate) b
    | inr (t, found) ↦ elim (Bool-cases (too_long note)) [
      | inl long ↦ rw (found, annotate, long) b
      | inr short ↦
          rw (found, annotate, short)
            (publish-keeps rule _ id _
              (store-keeps rule e id t _ found (annotated-IsWrite t note marked) b))
    ]
  ]

  end_request-keeps :
      (local : Bool) (e : Engine) (now : Clock) (id : Text) (t : Transaction)
      → Kept rule e
      → Kept rule (end_request local e now id t)
  unfolding end_request
  end_request-keeps true e now id t b = finish-keeps rule _ now id none b
  end_request-keeps false e now id t b = publish-keeps rule e id t b

  sealed_request-keeps :
      (e : Engine) (now : Clock) (id : Text) → Kept rule e → Kept rule (sealed_request e now id)
  unfolding sealed_request
  sealed_request-keeps e now id b = elim (Option-cases (get id e.transactions)) [
    | inl gone ↦ rw (gone, sealed_request) b
    | inr (t, found) ↦
        rw (found, sealed_request) (end_request-keeps t.answered_locally e now id t b)
  ]

  sealed_response-keeps :
      (e : Engine) (now : Clock) (id : Text) → Kept rule e → Kept rule (sealed_response e now id)
  unfolding sealed_response
  sealed_response-keeps e now id b = elim (Option-cases (get id e.transactions)) [
    | inl gone ↦ rw (gone, sealed_response) b
    | inr (t, found) ↦ rw (found, sealed_response) (finish-keeps rule _ now id none b)
  ]

  push_stream-keeps :
      (p : Platform) (e : Engine) (id : Text) (old : Transaction) (st : EventStream × Transaction)
      → get id e.transactions ≡ some old
      → IsWrite old st.1
      → Kept rule e
      → Kept rule (push_stream p e id st)
  unfolding push_stream
  push_stream-keeps p e id old (stream, t) found w b =
      publish-keeps rule _ id _ (store-keeps rule _ id old _ found (shown-IsWrite old t _ w) b)

  stream_data-keeps :
      (p : Platform) (e : Engine) (id chars : Text)
      → Kept rule e
      → Kept rule (stream_data p e id chars)
  unfolding stream_data
  stream_data-keeps p e id chars b = elim (Option-cases (get id e.transactions)) [
    | inl gone ↦ rw (gone, stream_data) b
    | inr (t, found) ↦ elim (Option-cases (get id e.event_streams)) [
      | inl bare ↦ rw (found, bare, stream_data) b
      | inr (stream, kept) ↦
          rw (found, kept, stream_data)
            (push_stream-keeps p e id t _ found (push_events-IsWrite stream chars t) b)
    ]
  ]

  closed-keeps :
      (e : Engine) (now : Clock) (id : Text) (was_aborted : Bool)
      → Kept rule e
      → Kept rule (closed e now id was_aborted)
  unfolding closed
  closed-keeps e now id was_aborted b = elim (Option-cases (get id e.transactions)) [
    | inl gone ↦ rw (gone, closed) (forget-keeps rule e id b)
    | inr (t, found) ↦
        rw (found, closed)
          (finish-keeps rule _ now id (close_message t was_aborted) (forget-keeps rule e id b))
  ]

  resume-keeps :
      (e : Engine) (id : Text) (edit : BreakpointEdit)
      → Kept rule e
      → Kept rule (after e (resume e id edit))
  unfolding resume
  resume-keeps e id edit b = elim (Option-cases (get id e.holds)) [
    | inl free ↦ rw (free, resume) b
    | inr (phase, held) ↦ rw (held, resume) b
  ]

  abort-keeps : (e : Engine) (id : Text) → Kept rule e → Kept rule (after e (abort e id))
  unfolding abort
  abort-keeps e id b = elim (Option-cases (get id e.holds)) [
    | inl free ↦ rw (free, abort) b
    | inr (phase, held) ↦ rw (held, abort) (release-keeps rule e id b)
  ]

  end_stop-keeps :
      (e : Engine) (now : Clock) (was_attached : Bool)
      → Kept rule e
      → Kept rule (end_stop e now was_attached)
  unfolding end_stop log_message emit_event
  end_stop-keeps e now true b =
      finish_each-keeps (keys e.transactions) e now (text "Capture stopped") b
  end_stop-keeps e now false b =
      finish_each-keeps (keys e.transactions) e now (text "Capture stopped") b

  delete-keeps : (e : Engine) (ids : List Text) → Kept rule e → Kept rule (delete e ids)
  unfolding delete emit_event
  delete-keeps e ids b = delete_each-keeps ids e b

  step-keeps :
      (p : Platform) (e : Engine) (now : Clock) (c : Call)
      → Opens IsNew c
      → Kept rule e
      → Kept rule (step p e now c)
  unfolding step upstream_connected tunnel_bytes request_data request_end response_data response_end
      websocket frame failure unpause abort_request abort_response begin_stop
  step-keeps p e now (connects id host port client) new b =
      connect-keeps p e now id host port client new b
  step-keeps p e now (upstreams id address) new b =
      update-keeps rule e id _ (λ t. untouched t _ refl refl refl refl) b
  step-keeps p e now (tunnels id outgoing count) new b =
      modify-keeps rule e id _ (λ t. untouched t _ refl refl refl refl) b
  step-keeps p e now (tunnels id incoming count) new b =
      modify-keeps rule e id _ (λ t. untouched t _ refl refl refl refl) b
  step-keeps p e now (requests id asked) new b = open_request-keeps rule p e now id asked new b
  step-keeps p e now (holds_request id plan whole) new b =
      hold_request-keeps rule p e id plan whole b
  step-keeps p e now (unpauses id) new b =
      modify-keeps rule e id _ (λ t. untouched t _ refl refl refl refl) b
  step-keeps p e now (aborts_request id plan) new b =
      update-keeps rule e id _ (λ t. untouched t _ refl refl refl refl) b
  step-keeps p e now (answers_request id asked recorded plan) new b =
      answer_request-keeps rule p e now id asked recorded plan b
  step-keeps p e now (holds_response id got plan) new b = hold_response-keeps rule p e id got plan b
  step-keeps p e now (aborts_response id plan) new b =
      update-keeps rule e id _ (λ t. untouched t _ refl refl refl refl) b
  step-keeps p e now (answers_response id got recorded rules plan) new b =
      answer_response-keeps rule p e id got recorded rules plan b
  step-keeps p e now (request_chunk id chunk) new b = capture-keeps rule e id request chunk b
  step-keeps p e now (request_ends id) new b =
      sealed_request-keeps _ now id (seal-keeps rule p e id request b)
  step-keeps p e now (response_chunk id chunk chars) new b =
      stream_data-keeps p _ id chars (capture-keeps rule e id response chunk b)
  step-keeps p e now (response_ends id trailers) new b = sealed_response-keeps _ now id (
      modify-keeps rule _ id _ (with_trailers-IsWrite trailers) (seal-keeps rule p e id response b))
  step-keeps p e now (websockets id url headers client) new b =
      switched-keeps e _ id headers b (create-keeps rule p e now id _ url client none new b)
  step-keeps p e now (frames uid id from_server payload binary replay_of) new b =
      update-keeps rule e id _ (frame-IsWrite _ from_server _) b
  step-keeps p e now (closes id was_aborted) new b = closed-keeps e now id was_aborted b
  step-keeps p e now (fails id message) new b =
      finish-keeps rule _ now id (some message) (forget-keeps rule e id b)
  step-keeps p e now clears new b = clear-keeps e b
  step-keeps p e now (deletes ids) new b = delete-keeps e ids b
  step-keeps p e now (annotates id note marked) new b = annotate-keeps e id note marked b
  step-keeps p e now (resumes id edit) new b = resume-keeps e id edit b
  step-keeps p e now (aborts id) new b = abort-keeps e id b
  step-keeps p e now (records value) new b = b
  step-keeps p e now stops new b = release_all-keeps rule (keys e.holds) _ b
  step-keeps p e now (stopped was_attached) new b = end_stop-keeps e now was_attached b

  pub run-keeps :
      (p : Platform) (e : Engine) (calls : List (Clock × Call))
      → OpensAll IsNew calls
      → Kept rule e
      → Kept rule (run p e calls)
  unfolding run
  run-keeps p e [] new b = b
  run-keeps p e ((now, c) ∷ calls) (new, news) b =
      run-keeps p (step p e now c) calls news (step-keeps p e now c new b)
