-- ===== src/Engine/Pipeline.antt =====
-- src/core/engine.ts: what the rules make of a request or a response; and src/core/rules.ts:
-- remapUrl and regex.
-- The body that a rule waits for is an argument: the whole body of the message. `files` is what
-- reading a file gives.
pub mod Requests
pub mod Responses
pub mod Bodies
pub mod Sent
pub mod Replies
pub mod Stopping
mod Tests
use tapline.Base.{
  ℕ, Bool, true, false, not, ◌&&◌, ◌||◌, Option, none, some, List, [], ◌∷◌, ◌++◌, Text, text,
  text_eq, trim, upper, is_empty, starts_with, drop, decimal, length, select, if◌then◌else◌,
}
use tapline.Headers.{WireHeaders, get_header, set_header, apply_header_edits}
use tapline.Codings.{decode_body, max_decoded_bytes, mime_for, mime_for_body}
use tapline.Matching.{rule_matches}
use tapline.Model.{
  Rule, RuleKind, breakpoint, rewrite, map_local, map_remote, block, throttle, Edit, Substitution,
  LocalAnswer,
}
use tapline.Engine.{Platform, Url, Client}

-- `rule.name?.trim() || rule.kind`.
abbrev kind_text : RuleKind → Text
kind_text (breakpoint a b) = text "breakpoint"
kind_text (rewrite a b) = text "rewrite"
kind_text (map_local a) = text "mapLocal"
kind_text (map_remote to) = text "mapRemote"
kind_text (block status) = text "block"
kind_text (throttle a b) = text "throttle"

abbrev or_text : Text → Text → Text
or_text [] d = d
or_text (c ∷ s) d = c ∷ s

unfoldable pub rule_label : Rule → Text
rule_label r = elim r.name [
  | none ↦ kind_text r.kind
  | some n ↦ or_text (trim n) (kind_text r.kind)
]

-- The rules that concern a request.
unfoldable pub rules_for : List Rule → Text → Text → List Rule
rules_for rules method url = select (λ r. r.enabled && rule_matches r.method r.url method url) rules

abbrev has_scheme : Text → Bool
has_scheme [] = false
has_scheme (c ∷ s) = starts_with (text "://") (c ∷ s) || has_scheme s

-- `pathname.replace(/\/$/, '')`.
abbrev without_slash : Text → Text
without_slash [] = []
without_slash (c ∷ []) = if text_eq (c ∷ []) (text "/") then [] else c ∷ []
without_slash (c ∷ d ∷ s) = c ∷ without_slash (d ∷ s)

abbrev remapped : Url → Url → Text
remapped target source =
    target.protocol
    ++ (text "//"
        ++ (target.host ++ (without_slash target.pathname ++ (source.pathname ++ source.search))))

-- `none` is a TypeError of `new URL`.
unfoldable pub remap_url : Platform → Text → Text → Option Text
remap_url p url to = elim (p.parse_url url) [
  | none ↦ none
  | some source ↦ elim (p.parse_url (if has_scheme to then to else text "http://" ++ to)) [
    | none ↦ none
    | some target ↦ some (remapped target source)
  ]
]

-- `setHeader(headers, 'host', new URL(url).host)`.
unfoldable pub set_host : Platform → WireHeaders → Text → Option WireHeaders
set_host p headers url = elim (p.parse_url url) [
  | none ↦ none
  | some target ↦ some (set_header headers (text "host") (some target.host))
]

-- The body as text would be shown: what a rule made of it, or the message's, decoded.
unfoldable pub decoded : Platform → WireHeaders → Option (List ℕ) → List ℕ → List ℕ
decoded p headers body whole =
    (decode_body p.zlib (elim body [ none ↦ whole | some b ↦ b ])
      (get_header headers (text "content-encoding")) max_decoded_bytes).bytes

-- `edit.body` and `edit.bodyReplace`.
unfoldable pub edit_body :
    Platform → Edit → WireHeaders → Option (List ℕ) → List ℕ → Option (List ℕ)
unfolding decoded
edit_body p edit headers body whole = elim edit.body [
  | some b ↦ some (p.from_utf8 b)
  | none ↦ elim edit.body_replace [
    | none ↦ body
    | some by ↦
        elim (p.replace by.pattern (text "gi") (p.utf8 (decoded p headers body whole))
          by.replacement) [ none ↦ body | some replaced ↦ some (p.from_utf8 replaced) ]
  ]
]

-- What a replaced body needs: its length, and no coding.
unfoldable pub fit_headers : WireHeaders → Option (List ℕ) → WireHeaders
fit_headers headers none = headers
fit_headers headers (some body) =
    set_header
      (set_header (set_header headers (text "content-length") (some (decimal (length body))))
        (text "transfer-encoding") none)
      (text "content-encoding") none

pub data FileRead : Type 0 where
  content : List ℕ → FileRead
  unreadable : Text → FileRead

pub record LocalReply : Type 0 where
  pub status : ℕ
  pub headers : WireHeaders
  pub body : List ℕ
  -- What is logged when the file cannot be read.
  pub warning : Option Text

pub record Throttle : Type 0 where
  pub latency_ms : Option ℕ
  pub kbps : Option ℕ
