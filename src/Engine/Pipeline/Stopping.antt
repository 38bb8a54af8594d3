-- ===== src/Engine/Pipeline/Stopping.antt =====
-- src/core/engine.ts: a rule that answers a request itself.
use tapline.Base.{
  ℕ, ◌≡◌, refl, ap, ◌∙◌, Bool, true, false, not, ◌&&◌, Option, none, some, List, [], ◌∷◌, ◌++◌,
  Text,
}
use mathlib.Core.Bool.{true≢false}
use mathlib.Core.Option.{some-injective, none-ne-some}
use tapline.Model.{Rule, RuleKind, breakpoint, rewrite, map_local, map_remote, block, throttle}
use tapline.Engine.{Platform}
use tapline.Engine.Pipeline.{rule_label, FileRead, LocalReply}
use tapline.Engine.Pipeline.Requests.{
  RequestPlan, Applied, going, stopping, threw, apply_kind, apply_rules, also_applied,
  blocked_reply, or_threw,
}
use tapline.Engine.Pipeline.Requests.Answers.{wants_hold}

-- The rules that answer a request themselves.
abbrev pub answers : RuleKind → Bool
answers (breakpoint a b) = false
answers (rewrite a b) = false
answers (map_local a) = true
answers (map_remote to) = false
answers (block status) = true
answers (throttle a b) = false

abbrev pub IsPassing : List Rule → Type 0
IsPassing [] = Unit
IsPassing (r ∷ rules) = (answers r.kind ≡ false) × IsPassing rules

-- Whether the loop goes on to the next rule or throws.
abbrev GoesOn : Applied → Type 0
GoesOn (going plan) = Unit
GoesOn (stopping plan) = ⊥
GoesOn threw = Unit

or_threw-GoesOn : (o : Option RequestPlan) → GoesOn (or_threw o)
or_threw-GoesOn none = tt
or_threw-GoesOn (some plan) = tt

apply_kind-GoesOn :
    (p : Platform) (files : Text → FileRead) (recorded : Bool) (whole : List ℕ) (k : RuleKind)
    (label : Text) (plan : RequestPlan)
    → answers k ≡ false
    → GoesOn (apply_kind p files recorded whole k label plan)
unfolding apply_kind
apply_kind-GoesOn p files recorded whole (block status) label plan e = absurd (true≢false e)
apply_kind-GoesOn p files recorded whole (map_local a) label plan e = absurd (true≢false e)
apply_kind-GoesOn p files recorded whole (map_remote to) label plan e = or_threw-GoesOn _
apply_kind-GoesOn p files recorded whole (rewrite none at_response) label plan e = tt
apply_kind-GoesOn p files recorded whole (rewrite (some edit) at_response) label plan e =
    or_threw-GoesOn _
apply_kind-GoesOn p files recorded whole (throttle latency kbps) label plan e = tt
apply_kind-GoesOn p files recorded whole (breakpoint at_request at_response) label plan e = tt

-- Rules that answer nothing hand their plan to the rules behind them.
apply_rules-append :
    (p : Platform) (files : Text → FileRead) (recorded : Bool) (whole : List ℕ)
    (before after : List Rule) (plan plan' : RequestPlan)
    → IsPassing before
    → apply_rules p files recorded whole before plan ≡ some plan'
    → apply_rules p files recorded whole (before ++ after) plan
      ≡ apply_rules p files recorded whole after plan'
unfolding apply_rules
apply_rules-append p files recorded whole [] after plan plan' h e =
    ap (apply_rules p files recorded whole after) (some-injective _ _ e)
apply_rules-append p files recorded whole (r ∷ before) after plan plan' (h, hs) e =
    by_rule (apply_kind p files recorded whole r.kind (rule_label r) plan)
      (apply_kind-GoesOn p files recorded whole r.kind (rule_label r) plan h)
      (λ q. apply_rules-append p files recorded whole before after q plan' hs) e
  where
    next : List Rule → Applied → Option RequestPlan
    next rules a = elim a [
      | going q ↦ apply_rules p files recorded whole rules q
      | stopping q ↦ some q
      | threw ↦ none
    ]

    by_rule :
        (a : Applied)
        → GoesOn a
        → ((q : RequestPlan)
            → apply_rules p files recorded whole before q ≡ some plan'
            → apply_rules p files recorded whole (before ++ after) q
              ≡ apply_rules p files recorded whole after plan')
        → next before a ≡ some plan'
        → next (before ++ after) a ≡ apply_rules p files recorded whole after plan'
    by_rule (going q) g ih e = ih q e
    by_rule (stopping q) g ih e = absurd g
    by_rule threw g ih e = absurd (none-ne-some _ e)

-- The plan of a request that a rule answers.
abbrev pub answered : RequestPlan → Text → LocalReply → RequestPlan
answered plan label reply = also_applied (record plan { local = some reply }) label

-- Where the rules before a block rule answer nothing and throw nothing, the request gets the
-- blocked reply on top of what those rules made of it, whatever rules follow; and it does not wait
-- at a breakpoint, though one of those rules is one.
pub block_decides :
    (p : Platform) (files : Text → FileRead) (recorded : Bool) (whole : List ℕ)
    (before after : List Rule) (r : Rule) (status : Option ℕ) (plan plan' : RequestPlan)
    → IsPassing before
    → apply_rules p files recorded whole before plan ≡ some plan'
    → r.kind ≡ block status
    → (apply_rules p files recorded whole (before ++ r ∷ after) plan
        ≡ some (answered plan' (rule_label r) (blocked_reply p status (rule_label r))))
      × (wants_hold (answered plan' (rule_label r) (blocked_reply p status (rule_label r))) recorded
          ≡ false)
unfolding apply_rules apply_kind wants_hold
block_decides p files recorded whole before after r status plan plan' h e k = (
  apply_rules-append p files recorded whole before (r ∷ after) plan plan' h e ∙ rw k refl,
  waits plan'.hold recorded,
)
  where
    waits : (a b : Bool) → (a && (b && not true)) ≡ false
    waits true true = refl
    waits true false = refl
    waits false b = refl
