-- ===== src/Engine/Pipeline/Requests/Answers.antt =====
-- src/core/engine.ts: `request` behind its rules: the breakpoint, and the answer.
use tapline.Base.{
  ℕ, Bool, true, false, not, ◌&&◌, Option, none, some, List, [], ◌∷◌, Text, text, text_eq, decimal,
  length, put, if◌then◌else◌,
}
use tapline.Headers.{Headers, WireHeaders, one, to_wire, flatten}
use tapline.Model.{Transaction, BreakpointEdit, Phase, warn}
use tapline.Engine.{Engine, Platform, Clock, request, response, log_message}
use tapline.Engine.Bodies.{retain}
use tapline.Engine.Records.{update, modify}
use tapline.Engine.Pipeline.{set_host, decoded, fit_headers, LocalReply}
use tapline.Engine.Pipeline.Requests.{
  RequestInfo, RequestPlan, RequestDecision, is_some, also_applied, edited_method,
}

-- `describeRequest`.
unfoldable pub describe_request : RequestPlan → WireHeaders → Transaction → Transaction
describe_request plan headers t = record t {
  method = plan.method;
  upstream_url = if text_eq plan.url t.url then t.upstream_url else some plan.url;
  request_headers = flatten headers;
}

-- Whether the request waits at a breakpoint.
unfoldable pub wants_hold : RequestPlan → Bool → Bool
wants_hold plan recorded = plan.hold && (recorded && not (is_some plan.local))

abbrev pub original_body : Platform → RequestPlan → List ℕ → List ℕ
original_body p plan whole = elim plan.body [
  | none ↦ decoded p plan.headers none whole
  | some body ↦ body
]

abbrev pub held_request : Platform → RequestPlan → List ℕ → Transaction → Transaction
held_request p plan whole t =
    record (retain p request (original_body p plan whole) (describe_request plan plan.headers t)) {
      paused = some Phase.request;
    }

-- Up to the wait at the breakpoint.
unfoldable pub hold_request : Platform → Engine → Text → RequestPlan → List ℕ → Engine
unfolding update describe_request
hold_request p e id plan whole =
    let e' = update e id (held_request p plan whole) in
    record e' { holds = put id Phase.request e'.holds }

-- Behind the wait: `t.paused = undefined`, and what the user's edit makes of the request. `binary`
-- is `t.requestBinary`.
abbrev pub also_breakpoint : RequestPlan → RequestPlan
also_breakpoint plan = also_applied plan (text "breakpoint")

unfoldable pub edit_held_url : Platform → Option Text → RequestPlan → Option RequestPlan
edit_held_url p none plan = some plan
edit_held_url p (some []) plan = some plan
edit_held_url p (some (c ∷ u)) plan = elim (set_host p plan.headers (c ∷ u)) [
  | none ↦ none
  | some headers ↦ some (record plan { url = c ∷ u; headers = headers })
]

abbrev pub edit_held_headers : Option Headers → RequestPlan → RequestPlan
edit_held_headers none plan = plan
edit_held_headers (some headers) plan = record plan { headers = to_wire headers }

abbrev pub edit_held_body : Platform → Bool → Option Text → RequestPlan → RequestPlan
edit_held_body p binary none plan = plan
edit_held_body p true (some body) plan = plan
edit_held_body p false (some body) plan = record plan { body = some (p.from_utf8 body) }

unfoldable pub resume_request : Platform → Bool → BreakpointEdit → RequestPlan → Option RequestPlan
unfolding edit_held_url
resume_request p binary edit plan =
    elim (edit_held_url p edit.url
      (record (also_breakpoint plan) { method = edited_method edit.method plan.method })) [
        | none ↦ none
        | some plan' ↦
            some (edit_held_body p binary edit.body (edit_held_headers edit.headers plan'))
      ]

unfoldable pub unpause : Engine → Text → Engine
unfolding modify
unpause e id = modify e id (λ t. record t { paused = none })

abbrev with_rules : List Text → Transaction → Transaction
with_rules rules t = record t { paused = none; rules = rules }

pub record Answered : Type 0 where
  pub engine : Engine
  pub decision : RequestDecision

-- The breakpoint was aborted.
unfoldable pub abort_request : Engine → Text → RequestPlan → Answered
unfolding update
abort_request e id plan = record {
  engine = update e id (with_rules (also_breakpoint plan).applied);
  decision = record {
    method = none;
    url = none;
    headers = none;
    body = none;
    local = none;
    aborted = some (text "Aborted at a Tapline breakpoint");
    throttle = plan.throttle;
  };
}

unfoldable pub with_local : Platform → Option LocalReply → Transaction → Transaction
with_local p none t = t
with_local p (some l) t = retain p response l.body (record t {
  answered_locally = true;
  status = some l.status;
  status_message = p.status_text l.status;
  response_headers =
      flatten (put (text "content-length") (one (decimal (length l.body))) l.headers);
  response_bytes = length l.body;
})

abbrev pub warning_of : Option LocalReply → Option Text
warning_of none = none
warning_of (some l) = l.warning

unfoldable pub log_warning : Engine → Clock → Option Text → Engine
log_warning e now none = e
log_warning e now (some message) = log_message e now.date warn message

unfoldable pub describe_answer :
    Platform → Bool → Engine → Text → RequestPlan → WireHeaders → Engine
unfolding update describe_request with_local
describe_answer p false e id plan headers = e
describe_answer p true e id plan headers = update e id (λ t.
    with_local p plan.local (record (describe_request plan headers t) { rules = plan.applied }))

abbrev unless_same : Text → Text → Option Text
unless_same new old = if text_eq new old then none else some new

-- The end of `request`, where some rule matched.
unfoldable pub answer_request :
    Platform → Engine → Clock → Text → RequestInfo → Bool → RequestPlan → Answered
unfolding log_warning describe_answer
answer_request p e now id info recorded plan =
    let headers = fit_headers plan.headers plan.body in
    record {
      engine =
          describe_answer p recorded (log_warning e now (warning_of plan.local)) id plan headers;
      decision = record {
        method = unless_same plan.method info.method;
        url = unless_same plan.url info.url;
        headers = some headers;
        body = plan.body;
        local = plan.local;
        aborted = none;
        throttle = plan.throttle;
      };
    }

-- Behind the rules: where the request waits, on the user's answer, `none` an abort. `e` is the
-- engine once that is there, and `binary` is `t.requestBinary`. The result `none` is a TypeError of
-- `new URL`.
unfoldable pub settle_request :
    Platform
    → Engine
    → Clock
    → Text
    → RequestInfo
    → Bool
    → Bool
    → Option BreakpointEdit
    → RequestPlan
    → Option Answered
unfolding answer_request abort_request resume_request unpause wants_hold
settle_request p e now id info recorded binary answer plan =
    if wants_hold plan recorded
    then elim answer [
      | none ↦ some (abort_request e id plan)
      | some edit ↦ elim (resume_request p binary edit plan) [
        | none ↦ none
        | some plan' ↦ some (answer_request p (unpause e id) now id info recorded plan')
      ]
    ]
    else some (answer_request p e now id info recorded plan)
