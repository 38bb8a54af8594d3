-- ===== src/Engine/Pipeline/Bodies.antt =====
-- src/core/engine.ts: the headers of a message whose body the rules replaced.
use tapline.Base.{
  ℕ, ◌≡◌, refl, ◌∙◌, subst, inl, inr, Option-cases, Bool, true, false, Option, none, some, List, [],
  ◌∷◌, Text, text, text_eq, lower, decimal, length, if◌then◌else◌,
}
use mathlib.Core.Option.{some-injective, none-ne-some}
use tapline.Headers.{WireHeaders, same_name, get_header, set_header}
use tapline.Headers.Laws.{
  IsDistinct, get_header-set_header, get_header-set_header-none, set_header-IsDistinct,
  apply_header_edits-IsDistinct,
}
use tapline.Model.{
  Rule, RuleKind, breakpoint, rewrite, map_local, map_remote, block, throttle, Edit, Substitution,
}
use tapline.Engine.{Platform}
use tapline.Engine.Pipeline.{set_host, remap_url, fit_headers, rule_label, FileRead}
use tapline.Engine.Pipeline.Requests.{
  labelled, or_threw, edited_method, edit_rest, RequestPlan, Applied, going, stopping, threw,
  apply_kind, apply_rules, rewrite_request, remap_request, edit_url,
}

-- The headers say how long a body is, and that it has no coding.
pub record Fits (body : List ℕ) (headers : WireHeaders) : Type 0 where
  pub content_length : get_header headers (text "content-length") ≡ some (decimal (length body))
  pub transfer_encoding : get_header headers (text "transfer-encoding") ≡ none
  pub content_encoding : get_header headers (text "content-encoding") ≡ none

differ :
    (same_name (text "content-length") (text "transfer-encoding") ≡ false)
    × (same_name (text "content-length") (text "content-encoding") ≡ false)
    × (same_name (text "transfer-encoding") (text "content-length") ≡ false)
    × (same_name (text "transfer-encoding") (text "content-encoding") ≡ false)
    × (same_name (text "content-encoding") (text "content-length") ≡ false)
    × (same_name (text "content-encoding") (text "transfer-encoding") ≡ false)
    × (same_name (text "content-length") (text "content-length") ≡ true)
    × (same_name (text "transfer-encoding") (text "transfer-encoding") ≡ true)
    × (same_name (text "content-encoding") (text "content-encoding") ≡ true)
unfolding text text_eq lower
differ = (refl, refl, refl, refl, refl, refl, refl, refl, refl)

-- What is read of fitted headers under any name.
get_header-fit_headers :
    (headers : WireHeaders) (body : List ℕ) (name : Text)
    → IsDistinct headers
    → get_header (fit_headers headers (some body)) name ≡ (
        if same_name (text "content-encoding") name
        then none
        else if same_name (text "transfer-encoding") name
        then none
        else if same_name (text "content-length") name
        then some (decimal (length body))
        else get_header headers name)
unfolding fit_headers
get_header-fit_headers headers body name d =
    let h1 = set_header headers (text "content-length") (some (decimal (length body))) in
    let d1 : IsDistinct h1 = set_header-IsDistinct headers _ _ d in
    let h2 = set_header h1 (text "transfer-encoding") none in
    let d2 : IsDistinct h2 = set_header-IsDistinct h1 _ _ d1 in
    rw (get_header-set_header-none h2 (text "content-encoding") name d2) (
      rw (get_header-set_header-none h1 (text "transfer-encoding") name d1) (
        rw (get_header-set_header headers (text "content-length") name (decimal (length body)))
          refl))

pub fit_headers-Fits :
    (headers : WireHeaders) (body : List ℕ)
    → IsDistinct headers
    → Fits body (fit_headers headers (some body))
fit_headers-Fits headers body d =
    let (cl_te, cl_ce, te_cl, te_ce, ce_cl, ce_te, cl, te, ce) = differ in
    let read = λ (name : Text). get_header-fit_headers headers body name d in
    record {
      content_length = read (text "content-length") ∙ rw (ce_cl, te_cl, cl) refl;
      transfer_encoding = read (text "transfer-encoding") ∙ rw (ce_te, te) refl;
      content_encoding = read (text "content-encoding") ∙ rw ce refl;
    }

set_host-IsDistinct :
    (p : Platform) (headers h : WireHeaders) (url : Text)
    → IsDistinct headers
    → set_host p headers url ≡ some h
    → IsDistinct h
unfolding set_host
set_host-IsDistinct p headers h url d e = elim (Option-cases (p.parse_url url)) [
  | inl bad ↦ absurd (none-ne-some h (rw (bad, set_host) at e))
  | inr (target, good) ↦
      subst IsDistinct (some-injective _ _ (rw (good, set_host) at e))
        (set_header-IsDistinct headers (text "host") (some target.host) d)
]

-- A rule leaves a plan's header names distinct.
abbrev pub IsPlan : RequestPlan → Type 0
IsPlan plan = IsDistinct plan.headers

abbrev IsPlanned : Applied → Type 0
IsPlanned (going plan) = IsPlan plan
IsPlanned (stopping plan) = IsPlan plan
IsPlanned threw = Unit {0}

abbrev pub IsPlannedOption : Option RequestPlan → Type 0
IsPlannedOption none = Unit {0}
IsPlannedOption (some plan) = IsPlan plan

pub set_host-IsPlanned :
    (p : Platform) (plan : RequestPlan) (url : Text)
    → IsPlan plan
    → IsPlannedOption (elim (set_host p plan.headers url) [
      | none ↦ none
      | some headers ↦ some (record plan { url = url; headers = headers })
    ])
set_host-IsPlanned p plan url d = elim (Option-cases (set_host p plan.headers url)) [
  | inl bad ↦ rw bad tt
  | inr (h, good) ↦ rw good (set_host-IsDistinct p plan.headers h url d good)
]

edit_url-IsPlanned :
    (p : Platform) (s : Option Substitution) (plan : RequestPlan)
    → IsPlan plan
    → IsPlannedOption (edit_url p s plan)
unfolding edit_url
edit_url-IsPlanned p none plan d = d
edit_url-IsPlanned p (some s) plan d = set_host-IsPlanned p plan _ d

rewrite_request-IsPlanned :
    (p : Platform) (edit : Edit) (plan : RequestPlan) (whole : List ℕ)
    → IsPlan plan
    → IsPlannedOption (rewrite_request p edit plan whole)
unfolding rewrite_request
rewrite_request-IsPlanned p edit plan whole d =
    let started : RequestPlan = record plan { method = edited_method edit.method plan.method } in
    by_url (edit_url p edit.url started) (edit_url-IsPlanned p edit.url started d)
  where
    by_url :
        (o : Option RequestPlan)
        → IsPlannedOption o
        → IsPlannedOption (elim o as (λ x. Option RequestPlan) [
          | none ↦ none
          | some plan' ↦ some (edit_rest p edit plan' whole)
        ])
    by_url none h = tt
    by_url (some plan') h = apply_header_edits-IsDistinct plan'.headers edit.headers h

remap_request-IsPlanned :
    (p : Platform) (to : Text) (plan : RequestPlan)
    → IsPlan plan
    → IsPlannedOption (remap_request p to plan)
unfolding remap_request
remap_request-IsPlanned p to plan d = elim (Option-cases (remap_url p plan.url to)) [
  | inl bad ↦ rw (bad, remap_request) tt
  | inr (url, good) ↦ rw (good, remap_request) (set_host-IsPlanned p plan url d)
]

labelled-IsPlanned :
    (o : Option RequestPlan) (label : Text)
    → IsPlannedOption o
    → IsPlanned (or_threw (labelled o label))
labelled-IsPlanned none label h = tt
labelled-IsPlanned (some plan) label h = h

apply_kind-IsPlanned :
    (p : Platform) (files : Text → FileRead) (recorded : Bool) (whole : List ℕ) (k : RuleKind)
    (label : Text) (plan : RequestPlan)
    → IsPlan plan
    → IsPlanned (apply_kind p files recorded whole k label plan)
unfolding apply_kind
apply_kind-IsPlanned p files recorded whole (block status) label plan d = d
apply_kind-IsPlanned p files recorded whole (map_local a) label plan d = d
apply_kind-IsPlanned p files recorded whole (map_remote to) label plan d =
    labelled-IsPlanned _ label (remap_request-IsPlanned p to plan d)
apply_kind-IsPlanned p files recorded whole (rewrite none at_response) label plan d = d
apply_kind-IsPlanned p files recorded whole (rewrite (some edit) at_response) label plan d =
    labelled-IsPlanned _ label (rewrite_request-IsPlanned p edit plan whole d)
apply_kind-IsPlanned p files recorded whole (throttle latency kbps) label plan d = d
apply_kind-IsPlanned p files recorded whole (breakpoint at_request at_response) label plan d = d

pub apply_rules-IsPlanned :
    (p : Platform) (files : Text → FileRead) (recorded : Bool) (whole : List ℕ) (rules : List Rule)
    (plan : RequestPlan)
    → IsPlan plan
    → IsPlannedOption (apply_rules p files recorded whole rules plan)
unfolding apply_rules
apply_rules-IsPlanned p files recorded whole [] plan d = d
apply_rules-IsPlanned p files recorded whole (r ∷ rules) plan d =
    by_rule (apply_kind p files recorded whole r.kind (rule_label r) plan)
      (apply_kind-IsPlanned p files recorded whole r.kind (rule_label r) plan d)
      (apply_rules-IsPlanned p files recorded whole rules)
  where
    by_rule :
        (a : Applied)
        → IsPlanned a
        → ((plan' : RequestPlan)
            → IsPlan plan'
            → IsPlannedOption (apply_rules p files recorded whole rules plan'))
        → IsPlannedOption (elim a as (λ x. Option RequestPlan) [
          | going plan' ↦ apply_rules p files recorded whole rules plan'
          | stopping plan' ↦ some plan'
          | threw ↦ none
        ])
    by_rule (going plan') h ih = ih plan' h
    by_rule (stopping plan') h ih = h
    by_rule threw h ih = tt

pub planned :
    (o : Option RequestPlan) (plan : RequestPlan) → IsPlannedOption o → o ≡ some plan → IsPlan plan
planned none plan h e = absurd (none-ne-some plan e)
planned (some q) plan h e = subst IsPlan (some-injective q plan e) h
