-- ===== src/Engine/Pipeline/Sent.antt =====
-- src/core/engine.ts: the headers of a request whose body the rules, or the user at a breakpoint,
-- replaced.
use tapline.Base.{ℕ, ◌≡◌, Bool, true, false, Option, none, some, List, Text}
use tapline.Headers.{Headers, WireHeaders, to_wire}
use tapline.Headers.Laws.{IsDistinct}
use tapline.Model.{BreakpointEdit}
use tapline.Engine.{Engine, Platform}
use tapline.Engine.Pipeline.Requests.{RequestPlan, RequestDecision}
use tapline.Engine.Pipeline.Bodies.{Fits}

-- The header names that the user gives at a breakpoint, if any, are distinct.
abbrev pub IsDistinctEdit : Option BreakpointEdit → Type 0
IsDistinctEdit none = Unit {0}
IsDistinctEdit (some edit) =
    (headers : Headers) → edit.headers ≡ some headers → IsDistinct (to_wire headers)

-- A decision that sends a body has headers that fit it.
abbrev pub IsFitting : RequestDecision → Type 0
IsFitting d =
    (body : List ℕ) → d.body ≡ some body → (h : WireHeaders) × (d.headers ≡ some h) × Fits body h

-- The body that should go out: where the request waited, what the user typed, unless the body is
-- shown as binary, and nothing after an abort; else what the rules made.
abbrev pub typed_body : Platform → Bool → Option Text → Option (List ℕ) → Option (List ℕ)
typed_body p binary none body = body
typed_body p true (some typed) body = body
typed_body p false (some typed) body = some (p.from_utf8 typed)

abbrev pub sent_body :
    Platform → Bool → Bool → Option BreakpointEdit → Option (List ℕ) → Option (List ℕ)
sent_body p false binary answer body = body
sent_body p true binary none body = none
sent_body p true binary (some edit) body = typed_body p binary edit.body body

abbrev HasBody : Option (List ℕ) → Option RequestPlan → Type 0
HasBody body none = Unit {0}
HasBody body (some plan) = plan.body ≡ body
