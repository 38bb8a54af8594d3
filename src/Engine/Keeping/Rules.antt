-- ===== src/Engine/Keeping/Rules.antt =====
-- src/core/engine.ts: what `request` and `response` keep of the map of transactions.
use tapline.Base.{
  ℕ, ◌≡◌, refl, inl, inr, Bool, true, false, not, Option, none, some, List, [], ◌∷◌, Text, text,
  text_eq, Assoc, get, Bool-cases, Option-cases, ◌++◌,
}
use tapline.Headers.{WireHeaders, get_header, to_wire}
use tapline.Model.{Transaction, Settings, Rule}
use tapline.Engine.{Engine, Platform, Clock, emit_event, log_message}
use tapline.Engine.Bodies.{retain, media_type, track_events}
use tapline.Engine.Records.{Created}
use tapline.Engine.Pipeline.{LocalReply}
use tapline.Engine.Pipeline.Requests.Answers
use tapline.Engine.Pipeline.Requests.{
  RequestInfo, RequestPlan, open_request, opened_request, describe_opened, remember_rules,
}
use tapline.Engine.Pipeline.Requests.Answers.{
  hold_request, held_request, describe_request, with_local, log_warning, warning_of, answer_request,
}
use tapline.Engine.Pipeline.Responses
use tapline.Engine.Pipeline.Responses.{
  ResponseInfo, ResponsePlan, hold_response, held_response, describe_response, answered_response,
  with_address, tracked, republish, answer_response, final_headers,
}
use tapline.Engine.Lifecycle.{opened_or}
use tapline.Engine.Keeping.{
  Keeper, IsWrite, untouched, Kept, KeptCreated, publish-keeps, store-keeps, update-keeps,
  modify-keeps, create-keeps,
}

with_local-IsWrite :
    (p : Platform) (l : Option LocalReply) (plan : RequestPlan) (headers : WireHeaders)
    (t : Transaction)
    → IsWrite t (with_local p l (record (describe_request plan headers t) { rules = plan.applied }))
unfolding with_local describe_request retain
with_local-IsWrite p none plan headers t = untouched t _ refl refl refl refl
with_local-IsWrite p (some l) plan headers t = untouched t _ refl refl refl refl

answered_response-IsWrite :
    (p : Platform) (got : ResponseInfo) (plan : ResponsePlan) (headers : WireHeaders)
    (t : Transaction)
    → IsWrite t (answered_response p got plan headers t)
unfolding describe_response
answered_response-IsWrite p got plan headers t = by_address got.address
  where
    by_address :
        (a : Option Text)
        → IsWrite t (
            with_address a (record (describe_response p got plan.status headers t) {
              rules = t.rules ++ plan.applied;
            }))
    by_address none = untouched t _ refl refl refl refl
    by_address (some []) = untouched t _ refl refl refl refl
    by_address (some (c ∷ a)) = untouched t _ refl refl refl refl

module _ {P : Settings → Assoc Transaction → Type 0} {IsNew : Text → Type 0}
    (rule : Keeper P IsNew) where
  remember_rules-keeps :
      (rules : List Rule) (e : Engine) (id : Text)
      → Kept rule e
      → Kept rule (remember_rules rules e id)
  unfolding remember_rules
  remember_rules-keeps [] e id b = b
  remember_rules-keeps (r ∷ rules) e id b = b

  describe_opened-keeps :
      (entry : Option Transaction) (e : Engine) (id : Text) (asked : RequestInfo)
      → Kept rule e
      → Kept rule (describe_opened entry e id asked)
  unfolding describe_opened
  describe_opened-keeps none e id asked b = b
  describe_opened-keeps (some _) e id asked b =
      update-keeps rule e id _ (λ t. untouched t _ refl refl refl refl) b

  opened_request-keeps :
      (e : Engine) (c : Option Created) (id : Text) (asked : RequestInfo)
      → Kept rule e
      → KeptCreated rule c
      → Kept rule (opened_or e (opened_request c id asked))
  unfolding opened_request
  opened_request-keeps e none id asked b h = b
  opened_request-keeps e (some c) id asked b h =
      remember_rules-keeps _ _ id (describe_opened-keeps c.entry c.engine id asked h)

  pub open_request-keeps :
      (p : Platform) (e : Engine) (now : Clock) (id : Text) (asked : RequestInfo)
      → IsNew id
      → Kept rule e
      → Kept rule (opened_or e (open_request p e now id asked))
  unfolding open_request
  open_request-keeps p e now id asked new b =
      opened_request-keeps e _ id asked b
        (create-keeps rule p e now id asked.method asked.url asked.client none new b)

  pub hold_request-keeps :
      (p : Platform) (e : Engine) (id : Text) (plan : RequestPlan) (whole : List ℕ)
      → Kept rule e
      → Kept rule (hold_request p e id plan whole)
  unfolding hold_request describe_request retain
  hold_request-keeps p e id plan whole b =
      update-keeps rule e id _ (λ t. untouched t _ refl refl refl refl) b

  log_warning-keeps :
      (e : Engine) (now : Clock) (w : Option Text) → Kept rule e → Kept rule (log_warning e now w)
  unfolding log_warning log_message emit_event
  log_warning-keeps e now none b = b
  log_warning-keeps e now (some message) b = b

  describe_request_answer-keeps :
      (p : Platform) (recorded : Bool) (e : Engine) (id : Text) (plan : RequestPlan)
      (headers : WireHeaders)
      → Kept rule e
      → Kept rule (Answers.describe_answer p recorded e id plan headers)
  unfolding Answers.describe_answer describe_request
  describe_request_answer-keeps p false e id plan headers b = b
  describe_request_answer-keeps p true e id plan headers b =
      update-keeps rule e id _ (with_local-IsWrite p plan.local plan headers) b

  pub answer_request-keeps :
      (p : Platform) (e : Engine) (now : Clock) (id : Text) (asked : RequestInfo) (recorded : Bool)
      (plan : RequestPlan)
      → Kept rule e
      → Kept rule (answer_request p e now id asked recorded plan).engine
  unfolding answer_request
  answer_request-keeps p e now id asked recorded plan b =
      describe_request_answer-keeps p recorded _ id plan _
        (log_warning-keeps e now (warning_of plan.local) b)

  pub hold_response-keeps :
      (p : Platform) (e : Engine) (id : Text) (got : ResponseInfo) (plan : ResponsePlan)
      → Kept rule e
      → Kept rule (hold_response p e id got plan)
  unfolding hold_response describe_response retain
  hold_response-keeps p e id got plan b =
      update-keeps rule e id _ (λ t. untouched t _ refl refl refl refl) b

  track_events-keeps :
      (e : Engine) (id : Text) (t : Transaction)
      → get id e.transactions ≡ some t
      → Kept rule e
      → Kept rule (track_events e id t)
  unfolding track_events
  track_events-keeps e id t found b =
      let header = get_header (to_wire t.response_headers) (text "content-type") in
      elim (Bool-cases (not (text_eq (media_type header) (text "text/event-stream")))) [
        | inl plain ↦ rw (plain, track_events) b
        | inr streams ↦ elim (Option-cases (get id e.event_streams)) [
          | inl fresh ↦
              rw (streams, fresh, track_events)
                (store-keeps rule _ id t _ found (untouched t _ refl refl refl refl) b)
          | inr (old, tracking) ↦ rw (streams, tracking, track_events) b
        ]
      ]

  tracked-keeps : (e : Engine) (id : Text) → Kept rule e → Kept rule (tracked e id)
  unfolding tracked
  tracked-keeps e id b = elim (Option-cases (get id e.transactions)) [
    | inl gone ↦ rw (gone, tracked) b
    | inr (t, found) ↦ rw (found, tracked) (track_events-keeps e id t found b)
  ]

  republish-keeps : (e : Engine) (id : Text) → Kept rule e → Kept rule (republish e id)
  unfolding republish
  republish-keeps e id b = elim (Option-cases (get id e.transactions)) [
    | inl gone ↦ rw (gone, republish) b
    | inr (t, found) ↦ rw (found, republish) (publish-keeps rule e id t b)
  ]

  describe_response_answer-keeps :
      (p : Platform) (recorded : Bool) (e : Engine) (id : Text) (got : ResponseInfo)
      (plan : ResponsePlan) (headers : WireHeaders)
      → Kept rule e
      → Kept rule (Responses.describe_answer p recorded e id got plan headers)
  unfolding Responses.describe_answer
  describe_response_answer-keeps p false e id got plan headers b = b
  describe_response_answer-keeps p true e id got plan headers b = republish-keeps _ id (
      tracked-keeps _ id
        (modify-keeps rule e id _ (answered_response-IsWrite p got plan headers) b))

  pub answer_response-keeps :
      (p : Platform) (e : Engine) (id : Text) (got : ResponseInfo) (recorded : Bool)
      (rules : List Rule) (plan : ResponsePlan)
      → Kept rule e
      → Kept rule (answer_response p e id got recorded rules plan).engine
  unfolding answer_response
  answer_response-keeps p e id got recorded rules plan b =
      describe_response_answer-keeps p recorded e id got plan (final_headers recorded plan) b
