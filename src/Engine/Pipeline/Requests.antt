-- ===== src/Engine/Pipeline/Requests.antt =====
-- src/core/engine.ts: `request`, cut where it waits: for a body or a file, and at a breakpoint.
pub mod Answers
use tapline.Base.{
  ℕ, Bool, true, false, not, ◌&&◌, ◌||◌, Option, none, some, List, [], ◌∷◌, ◌++◌, Text, text,
  text_eq, upper, is_empty, decimal, length, put, if◌then◌else◌,
}
use tapline.Headers.{Headers, WireHeaders, one, apply_header_edits, to_wire, flatten}
use tapline.Codings.{mime_for, mime_for_body}
use tapline.Model.{
  Transaction, Rule, RuleKind, breakpoint, rewrite, map_local, map_remote, block, throttle, Edit,
  Substitution, LocalAnswer, BreakpointEdit, Phase, warn,
}
use tapline.Engine.{Engine, Platform, Client, Clock, request, response, log_message}
use tapline.Engine.Bodies.{retain}
use tapline.Engine.Records.{Created, create, update, modify, or_else}
use tapline.Engine.Pipeline.{
  rule_label, rules_for, remap_url, set_host, decoded, edit_body, fit_headers, FileRead, content,
  unreadable, LocalReply, Throttle,
}

pub record RequestInfo : Type 0 where
  pub method : Text
  pub url : Text
  pub http_version : Option Text
  pub headers : WireHeaders
  pub client : Client
  -- What `body()` gives.
  pub body : List ℕ

-- The local variables of `request` while it goes through the rules.
pub record RequestPlan : Type 0 where
  pub method : Text
  pub url : Text
  pub headers : WireHeaders
  pub body : Option (List ℕ)
  pub hold : Bool
  pub local : Option LocalReply
  pub throttle : Option Throttle
  pub applied : List Text

pub record RequestDecision : Type 0 where
  pub method : Option Text
  pub url : Option Text
  pub headers : Option WireHeaders
  pub body : Option (List ℕ)
  pub local : Option LocalReply
  pub aborted : Option Text
  pub throttle : Option Throttle

-- Whether there is a record, and the rules that match; `none` is an error of `create`.
pub record Opened : Type 0 where
  pub engine : Engine
  pub recorded : Bool
  pub rules : List Rule

abbrev with_request : RequestInfo → Transaction → Transaction
with_request info t = record t {
  http_version = info.http_version;
  request_headers = flatten info.headers;
}

unfoldable pub describe_opened : Option Transaction → Engine → Text → RequestInfo → Engine
unfolding update
describe_opened none e id info = e
describe_opened (some _) e id info = update e id (with_request info)

abbrev pub is_some {ℓ} : {A : Type ℓ} → Option A → Bool
is_some none = false
is_some (some a) = true

unfoldable pub remember_rules : List Rule → Engine → Text → Engine
remember_rules [] e id = e
remember_rules (r ∷ rules) e id = record e { matched = put id (r ∷ rules) e.matched }

unfoldable pub opened_request : Option Created → Text → RequestInfo → Option Opened
unfolding describe_opened remember_rules
opened_request none id info = none
opened_request (some c) id info =
    let e = describe_opened c.entry c.engine id info in
    let rules = rules_for e.settings.rules info.method info.url in
    some (record { engine = remember_rules rules e id; recorded = is_some c.entry; rules = rules })

-- `request` up to its rules.
unfoldable pub open_request : Platform → Engine → Clock → Text → RequestInfo → Option Opened
unfolding opened_request
open_request p e now id info =
    opened_request (create p e now id info.method info.url info.client none) id info

abbrev pub first_plan : RequestInfo → RequestPlan
first_plan info = record {
  method = info.method;
  url = info.url;
  headers = info.headers;
  body = none;
  hold = false;
  local = none;
  throttle = none;
  applied = [];
}

abbrev plain : WireHeaders
plain = (text "content-type", one (text "text/plain; charset=utf-8")) ∷ []

unfoldable pub blocked_reply : Platform → Option ℕ → Text → LocalReply
blocked_reply p status label = record {
  status = or_else status 403;
  headers = plain;
  body = p.from_utf8 (text "Blocked by Tapline rule \"" ++ (label ++ text "\"\n"));
  warning = none;
}

abbrev content_type_or : Option Text → Text → Text
content_type_or none d = d
content_type_or (some []) d = d
content_type_or (some (c ∷ s)) d = c ∷ s

abbrev file_reply : Platform → LocalAnswer → Text → FileRead → LocalReply
file_reply p a file (content bytes) = record {
  status = or_else a.status 200;
  headers =
      (text "content-type", one (content_type_or a.content_type (mime_for p.extname file))) ∷ [];
  body = bytes;
  warning = none;
}
file_reply p a file (unreadable reason) = record {
  status = 404;
  headers = plain;
  body = p.from_utf8 (text "Tapline: cannot read " ++ (file ++ text "\n"));
  warning = some (text "Map local: cannot read " ++ (file ++ (text ": " ++ reason)));
}

abbrev inline_reply : Platform → LocalAnswer → Text → LocalReply
inline_reply p a body = record {
  status = or_else a.status 200;
  headers =
      (text "content-type", one (content_type_or a.content_type (mime_for_body p.is_json body)))
      ∷ [];
  body = p.from_utf8 body;
  warning = none;
}

-- `localResponse`; an empty file name counts as none.
unfoldable pub local_response : Platform → (Text → FileRead) → LocalAnswer → LocalReply
local_response p files a = elim a.file [
  | none ↦ inline_reply p a (or_else a.body [])
  | some file ↦
      if is_empty file
      then inline_reply p a (or_else a.body [])
      else file_reply p a file (files file)
]

-- What one rule does: the loop goes on, ends, or throws.
pub data Applied : Type 0 where
  going : RequestPlan → Applied
  stopping : RequestPlan → Applied
  threw : Applied

abbrev pub also_applied : RequestPlan → Text → RequestPlan
also_applied plan label = record plan { applied = plan.applied ++ label ∷ [] }

abbrev pub or_threw : Option RequestPlan → Applied
or_threw none = threw
or_threw (some plan) = going plan

abbrev pub edited_method : Option Text → Text → Text
edited_method none method = method
edited_method (some []) method = method
edited_method (some (c ∷ m)) method = upper (c ∷ m)

unfoldable pub edit_url : Platform → Option Substitution → RequestPlan → Option RequestPlan
edit_url p none plan = some plan
edit_url p (some s) plan =
    let url = or_else (p.replace s.pattern [] plan.url s.replacement) plan.url in
    elim (set_host p plan.headers url) [
      | none ↦ none
      | some headers ↦ some (record plan { url = url; headers = headers })
    ]

abbrev pub edit_rest : Platform → Edit → RequestPlan → List ℕ → RequestPlan
edit_rest p edit plan whole =
    let headers = apply_header_edits plan.headers edit.headers in
    record plan { headers = headers; body = edit_body p edit headers plan.body whole }

unfoldable pub rewrite_request : Platform → Edit → RequestPlan → List ℕ → Option RequestPlan
unfolding edit_url edit_body
rewrite_request p edit plan whole =
    elim (edit_url p edit.url (record plan { method = edited_method edit.method plan.method })) [
      | none ↦ none
      | some plan' ↦ some (edit_rest p edit plan' whole)
    ]

unfoldable pub remap_request : Platform → Text → RequestPlan → Option RequestPlan
remap_request p to plan = elim (remap_url p plan.url to) [
  | none ↦ none
  | some url ↦ elim (set_host p plan.headers url) [
    | none ↦ none
    | some headers ↦ some (record plan { url = url; headers = headers })
  ]
]

abbrev pub labelled : Option RequestPlan → Text → Option RequestPlan
labelled none label = none
labelled (some plan) label = some (also_applied plan label)

unfoldable pub apply_kind :
    Platform → (Text → FileRead) → Bool → List ℕ → RuleKind → Text → RequestPlan → Applied
unfolding blocked_reply local_response remap_request rewrite_request
apply_kind p files recorded whole (block status) label plan =
    stopping (also_applied (record plan { local = some (blocked_reply p status label) }) label)
apply_kind p files recorded whole (map_local a) label plan =
    stopping (also_applied (record plan { local = some (local_response p files a) }) label)
apply_kind p files recorded whole (map_remote to) label plan =
    or_threw (labelled (remap_request p to plan) label)
apply_kind p files recorded whole (rewrite none at_response) label plan = going plan
apply_kind p files recorded whole (rewrite (some edit) at_response) label plan =
    or_threw (labelled (rewrite_request p edit plan whole) label)
apply_kind p files recorded whole (throttle latency kbps) label plan = going (
    also_applied (record plan { throttle = some (record { latency_ms = latency; kbps = kbps }) })
      label)
apply_kind p files recorded whole (breakpoint at_request at_response) label plan =
    going (record plan { hold = plan.hold || (at_request && recorded) })

-- The loop `rules`; `none` is an error.
unfoldable pub apply_rules :
    Platform → (Text → FileRead) → Bool → List ℕ → List Rule → RequestPlan → Option RequestPlan
unfolding apply_kind
apply_rules p files recorded whole [] plan = some plan
apply_rules p files recorded whole (r ∷ rules) plan =
    elim (apply_kind p files recorded whole r.kind (rule_label r) plan) [
      | going plan' ↦ apply_rules p files recorded whole rules plan'
      | stopping plan' ↦ some plan'
      | threw ↦ none
    ]
