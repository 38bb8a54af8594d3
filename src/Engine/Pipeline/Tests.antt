-- ===== src/Engine/Pipeline/Tests.antt =====
-- Runs of the rules of src/core/engine.ts, on the platform of Engine/Tests.
use tapline.Base.{◌≡◌, refl, List, true, false, none, some, [], ◌∷◌, Text, text}
use tapline.Headers.{Headers, WireHeaders, to_wire, one}
use tapline.Model.{Rule, RuleKind, rewrite, block, breakpoint, Edit, BreakpointEdit}
use tapline.Engine.Tests.{platform, engine, at, client}
use tapline.Engine.Pipeline.{rule_label, FileRead, content}
use tapline.Engine.Pipeline.Requests.{
  RequestInfo, RequestPlan, apply_rules, first_plan, apply_kind, blocked_reply,
}
use tapline.Engine.Pipeline.Requests.Answers.{Answered, answer_request, wants_hold, unpause}
use tapline.Engine.Pipeline.Responses.{ResponseInfo, ResponsePlan, plan_response}
use tapline.Engine.Pipeline.Stopping.{answered, block_decides}

abbrev no_edit : Edit
no_edit = record {
  method = none;
  url = none;
  status = none;
  headers = [];
  body = none;
  body_replace = none;
}

abbrev greeting : Edit
greeting = record no_edit { body = some (text "hello") }

abbrev rule_of : RuleKind → Rule
rule_of kind = record {
  id = text "r";
  enabled = true;
  name = some (text "mine");
  url = none;
  method = none;
  kind = kind;
}

abbrev coded : WireHeaders
coded = (text "Content-Encoding", one (text "gzip")) ∷ (text "Host", one (text "a.dev")) ∷ []

abbrev asked : RequestInfo
asked = record {
  method = text "POST";
  url = text "https://a.dev/x?y";
  http_version = none;
  headers = coded;
  client = client;
  body = text "old";
}

abbrev files : Text → FileRead
files name = content []

abbrev pauses : Rule
pauses = rule_of (breakpoint true true)

-- Rewritten, and held at a breakpoint.
abbrev rewritten : RequestPlan
rewritten = record (first_plan asked) {
  body = some (text "hello");
  hold = true;
  applied = text "mine" ∷ [];
}

-- What the user sends on.
abbrev typed : BreakpointEdit
typed = record {
  method = none;
  url = none;
  status = none;
  headers = some ((text "Content-Length", text "1") ∷ []);
  body = some (text "bye");
}

abbrev typed_plan : RequestPlan
typed_plan = record rewritten {
  headers = to_wire ((text "Content-Length", text "1") ∷ []);
  body = some (platform.from_utf8 (text "bye"));
  applied = text "mine" ∷ text "breakpoint" ∷ [];
}

-- The user's body goes out, not that of the rule.
abbrev typed_answer : Answered
typed_answer =
    answer_request platform (unpause engine (text "a")) (at 1) (text "a") asked true typed_plan

abbrev got : ResponseInfo
got = record {
  status = 200;
  status_message = none;
  http_version = none;
  headers = coded;
  address = none;
  body = text "old";
}

abbrev greets : Rule
greets = rule_of (rewrite none (some greeting))

abbrev reply_rules : List Rule
reply_rules = pauses ∷ []

abbrev reply_plan : ResponsePlan
reply_plan = plan_response platform true (greets ∷ reply_rules) got

abbrev blocks : Rule
blocks = rule_of (block none)

abbrev held_plan : RequestPlan
held_plan = record (first_plan asked) { hold = true }

pauses_held : apply_rules platform files true [] (pauses ∷ []) (first_plan asked) ≡ some held_plan
unfolding apply_rules apply_kind
pauses_held = refl

block_decides_example :
    (apply_rules platform files true [] (pauses ∷ blocks ∷ greets ∷ []) (first_plan asked)
      ≡ some (
          answered held_plan (rule_label blocks) (blocked_reply platform none (rule_label blocks))))
    × (wants_hold
          (answered held_plan (rule_label blocks) (blocked_reply platform none (rule_label blocks)))
          true
        ≡ false)
block_decides_example =
    block_decides platform files true [] (pauses ∷ []) (greets ∷ []) blocks none (first_plan asked)
      held_plan (refl, tt) pauses_held refl
