-- ===== src/Engine/Pipeline/Responses.antt =====
-- src/core/engine.ts: `response`, cut where it waits: for a body, and at a breakpoint.
-- The timings of a response are not part of a record here.
use tapline.Base.{
  ℕ, Bool, true, false, not, ◌&&◌, ◌||◌, Option, none, some, List, [], ◌∷◌, ◌++◌, Text, text,
  text_eq, put, get, ◌==◌, if◌then◌else◌,
}
use tapline.Headers.{WireHeaders, get_header, set_header, apply_header_edits, to_wire, flatten}
use tapline.Model.{
  Transaction, Rule, RuleKind, breakpoint, rewrite, map_local, map_remote, block, throttle, Edit,
  BreakpointEdit, Phase,
}
use tapline.Engine.{Engine, Platform, response, publish}
use tapline.Engine.Bodies.{retain, media_type, track_events}
use tapline.Engine.Records.{update, modify}
use tapline.Engine.Pipeline.Requests.Answers.{unpause}
use tapline.Engine.Pipeline.{rule_label, decoded, edit_body, fit_headers, Throttle}

pub record ResponseInfo : Type 0 where
  pub status : ℕ
  pub status_message : Option Text
  pub http_version : Option Text
  pub headers : WireHeaders
  pub address : Option Text
  pub body : List ℕ

pub record ResponsePlan : Type 0 where
  pub status : ℕ
  pub headers : WireHeaders
  pub body : Option (List ℕ)
  pub hold : Bool
  pub throttle : Option Throttle
  pub applied : List Text

pub record ResponseDecision : Type 0 where
  pub status : Option ℕ
  pub headers : Option WireHeaders
  pub body : Option (List ℕ)
  pub aborted : Option Text
  pub throttle : Option Throttle

abbrev pub first_plan : ResponseInfo → ResponsePlan
first_plan info = record {
  status = info.status;
  headers = info.headers;
  body = none;
  hold = false;
  throttle = none;
  applied = [];
}

unfoldable pub is_streaming : WireHeaders → Bool
is_streaming headers =
    text_eq (media_type (get_header headers (text "content-type"))) (text "text/event-stream")

-- The rules that matched the request, and whether it still has a record.
abbrev pub rules_of : Option (List Rule) → List Rule
rules_of none = []
rules_of (some rules) = rules

-- A status of zero counts as none.
abbrev edited_status : Option ℕ → ℕ → ℕ
edited_status none status = status
edited_status (some n) status = if n == 0 then status else n

unfoldable pub rewrite_response : Platform → Bool → Edit → ResponsePlan → List ℕ → ResponsePlan
unfolding edit_body
rewrite_response p streaming edit plan whole =
    let headers = apply_header_edits plan.headers edit.headers in
    record plan {
      status = edited_status edit.status plan.status;
      headers = headers;
      body = if streaming then plan.body else edit_body p edit headers plan.body whole;
    }

unfoldable pub apply_response_kind :
    Platform → Bool → Bool → List ℕ → RuleKind → Text → ResponsePlan → ResponsePlan
unfolding rewrite_response
apply_response_kind p streaming recorded whole (rewrite at_request none) label plan = plan
apply_response_kind p streaming recorded whole (rewrite at_request (some edit)) label plan =
    let plan' = rewrite_response p streaming edit plan whole in
    record plan' { applied = plan'.applied ++ label ∷ [] }
apply_response_kind p streaming recorded whole (throttle latency kbps) label plan = record plan {
  throttle = some (record { latency_ms = none; kbps = kbps });
}
apply_response_kind p streaming recorded whole (breakpoint at_request at_response) label plan =
    record plan { hold = plan.hold || (at_response && (recorded && not streaming)) }
apply_response_kind p streaming recorded whole (map_local a) label plan = plan
apply_response_kind p streaming recorded whole (map_remote to) label plan = plan
apply_response_kind p streaming recorded whole (block status) label plan = plan

unfoldable pub apply_response_rules :
    Platform → Bool → Bool → List ℕ → List Rule → ResponsePlan → ResponsePlan
unfolding apply_response_kind
apply_response_rules p streaming recorded whole [] plan = plan
apply_response_rules p streaming recorded whole (r ∷ rules) plan =
    apply_response_rules p streaming recorded whole rules
      (apply_response_kind p streaming recorded whole r.kind (rule_label r) plan)

-- The loop of `response`, for the rules of a session.
unfoldable pub plan_response : Platform → Bool → List Rule → ResponseInfo → ResponsePlan
unfolding apply_response_rules
plan_response p recorded rules info =
    apply_response_rules p (is_streaming info.headers) recorded info.body rules (first_plan info)

-- `describeResponse`.
abbrev status_text_of : Platform → ResponseInfo → ℕ → Option Text
status_text_of p info status =
    if status == info.status
    then elim info.status_message [ some m ↦ some m | none ↦ p.status_text status ]
    else p.status_text status

abbrev version_of : Option Text → Option Text → Option Text
version_of none old = old
version_of (some v) old = some v

unfoldable pub describe_response :
    Platform → ResponseInfo → ℕ → WireHeaders → Transaction → Transaction
describe_response p info status headers t = record t {
  status = some status;
  status_message = status_text_of p info status;
  http_version = version_of info.http_version t.http_version;
  response_headers = flatten headers;
}

-- What the user is shown at a breakpoint: the decoded body, without its coding.
abbrev pub original_body : Platform → ResponsePlan → List ℕ → List ℕ
original_body p plan whole = elim plan.body [
  | none ↦ decoded p plan.headers none whole
  | some body ↦ body
]

abbrev pub held_headers : ResponsePlan → WireHeaders
held_headers plan = elim plan.body [
  | none ↦ set_header plan.headers (text "content-encoding") none
  | some body ↦ plan.headers
]

abbrev pub held_response : Platform → ResponseInfo → ResponsePlan → Transaction → Transaction
held_response p info plan t =
    record (retain p response (original_body p plan info.body)
      (describe_response p info plan.status (held_headers plan) t)) { paused = some Phase.response }

unfoldable pub hold_response : Platform → Engine → Text → ResponseInfo → ResponsePlan → Engine
unfolding update describe_response
hold_response p e id info plan =
    let e' = update e id (held_response p info plan) in
    record e' { holds = put id Phase.response e'.holds }

-- Behind the wait. `binary` is `t.responseBinary`; the body is the edited or the original one.
unfoldable pub resume_response :
    Platform → Bool → BreakpointEdit → ResponseInfo → ResponsePlan → ResponsePlan
resume_response p binary edit info plan =
    let original = original_body p plan info.body in
    record plan {
      status = edited_status edit.status plan.status;
      headers = elim edit.headers [ none ↦ held_headers plan | some headers ↦ to_wire headers ];
      body = some (elim edit.body [
        | none ↦ original
        | some body ↦ if binary then original else p.from_utf8 body
      ]);
      applied = plan.applied ++ text "breakpoint" ∷ [];
    }

abbrev also_rules : List Text → Transaction → Transaction
also_rules applied t = record t { rules = t.rules ++ applied }

abbrev unpaused : List Text → Transaction → Transaction
unpaused applied t = record t { paused = none; rules = t.rules ++ applied }

pub record Answered : Type 0 where
  pub engine : Engine
  pub decision : Option ResponseDecision

unfoldable pub abort_response : Engine → Text → ResponsePlan → Answered
unfolding update
abort_response e id plan = record {
  engine = update e id (unpaused (plan.applied ++ text "breakpoint" ∷ []));
  decision = some (record {
    status = none;
    headers = none;
    body = none;
    aborted = some (text "Aborted at a Tapline breakpoint");
    throttle = plan.throttle;
  });
}

abbrev pub with_address : Option Text → Transaction → Transaction
with_address none t = t
with_address (some []) t = t
with_address (some (c ∷ address)) t = record t { server_address = some (c ∷ address) }

abbrev pub answered_response :
    Platform → ResponseInfo → ResponsePlan → WireHeaders → Transaction → Transaction
answered_response p info plan headers t =
    with_address info.address
      (also_rules plan.applied (describe_response p info plan.status headers t))

-- `this.trackEvents(t)`, and `this.publish(t)`, for the record under `id`.
unfoldable pub tracked : Engine → Text → Engine
tracked e id = elim (get id e.transactions) [ none ↦ e | some t ↦ track_events e id t ]

unfoldable pub republish : Engine → Text → Engine
republish e id = elim (get id e.transactions) [ none ↦ e | some t ↦ publish e id t ]

unfoldable pub describe_answer :
    Platform → Bool → Engine → Text → ResponseInfo → ResponsePlan → WireHeaders → Engine
unfolding modify tracked republish describe_response
describe_answer p false e id info plan headers = e
describe_answer p true e id info plan headers =
    republish (tracked (modify e id (answered_response p info plan headers)) id) id

-- The headers are fitted to a replaced body only where there is a record.
abbrev pub final_headers : Bool → ResponsePlan → WireHeaders
final_headers true plan = fit_headers plan.headers plan.body
final_headers false plan = plan.headers

abbrev decide_response :
    List Rule → ResponseInfo → ResponsePlan → WireHeaders → Option ResponseDecision
decide_response [] info plan headers = none
decide_response (r ∷ rules) info plan headers = some (record {
  status = if plan.status == info.status then none else some plan.status;
  headers = some headers;
  body = plan.body;
  aborted = none;
  throttle = plan.throttle;
})

unfoldable pub answer_response :
    Platform → Engine → Text → ResponseInfo → Bool → List Rule → ResponsePlan → Answered
unfolding describe_answer fit_headers
answer_response p e id info recorded rules plan =
    let headers = final_headers recorded plan in
    record {
      engine = describe_answer p recorded e id info plan headers;
      decision = decide_response rules info plan headers;
    }

-- Behind the rules: where the response waits, on the user's answer, `none` an abort. `e` is the
-- engine once that is there, and `binary` is `t.responseBinary`.
unfoldable pub settle_response :
    Platform
    → Engine
    → Text
    → ResponseInfo
    → Bool
    → List Rule
    → Bool
    → Option BreakpointEdit
    → ResponsePlan
    → Answered
unfolding answer_response abort_response resume_response unpause
settle_response p e id info recorded rules binary answer plan =
    if recorded && plan.hold
    then elim answer [
      | none ↦ abort_response e id plan
      | some edit ↦
          answer_response p (unpause e id) id info recorded rules
            (resume_response p binary edit info plan)
    ]
    else answer_response p e id info recorded rules plan
