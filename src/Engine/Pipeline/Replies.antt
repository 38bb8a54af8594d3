-- ===== src/Engine/Pipeline/Replies.antt =====
-- src/core/engine.ts: the headers of a response whose body the rules, or the user at a breakpoint,
-- replaced.
use tapline.Base.{ℕ, ◌≡◌, Bool, true, false, Option, none, some, List}
use tapline.Headers.{Headers, WireHeaders}
use tapline.Model.{BreakpointEdit}
use tapline.Engine.{Engine, Platform}
use tapline.Engine.Pipeline.Bodies.{Fits}
use tapline.Engine.Pipeline.Responses.{ResponseDecision}
use tapline.Engine.Pipeline.Sent.{typed_body}

-- A decision sends a body, with headers that fit it.
abbrev pub Sends : List ℕ → Option ResponseDecision → Type 0
Sends body none = ⊥
Sends body (some d) =
    (d.body ≡ some body) × ((h : WireHeaders) × (d.headers ≡ some h) × Fits body h)

-- A decision, if there is one, that sends a body has headers that fit it.
abbrev IsFittingReply : Option ResponseDecision → Type 0
IsFittingReply none = Unit {0}
IsFittingReply (some d) =
    (body : List ℕ) → d.body ≡ some body → (h : WireHeaders) × (d.headers ≡ some h) × Fits body h

-- The body that should go out: where the response waited, what the user typed, unless the body is
-- shown as binary, or else what was shown, and nothing after an abort; else what the rules made.
abbrev pub reply_body :
    Platform → Bool → Bool → Option BreakpointEdit → Option (List ℕ) → List ℕ → Option (List ℕ)
reply_body p false binary answer body shown = body
reply_body p true binary none body shown = none
reply_body p true binary (some edit) body shown = typed_body p binary edit.body (some shown)

abbrev body_of : Option ResponseDecision → Option (List ℕ)
body_of none = none
body_of (some d) = d.body
