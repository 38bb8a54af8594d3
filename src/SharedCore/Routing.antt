-- ===== src/SharedCore/Routing.antt =====
-- src/agent/sharedCore.ts: to which engine a session's calls go.
use tapline.Base.{
  ◌≡◌, refl, sym, ◌∙◌, ap, inl, inr, Bool-cases, Option-cases, some, Text, text_eq, text_eq_iff,
  get, put, get-put_self, arith,
}
use mathlib.Core.Option.{some-injective}
use tapline.SharedCore.{SharedCore, Method, dispatch, routed, bind}

-- Where `bind` succeeds on a session that is bound, the engine is the same.
bind-same :
    (s s' : SharedCore) (id inbound target : Text)
    → get id s.requests ≡ some target
    → bind s id inbound ≡ some s'
    → get id s'.requests ≡ some target
unfolding bind
bind-same s s' id inbound target bound h = elim (Option-cases (get inbound s.targets)) [
  | inl gone ↦ ground (arith, gone, h)
  | inr (engine, there) ↦ elim (Bool-cases (text_eq target engine)) [
    | inl same ↦
        let put_back : get id (put id engine s.requests) ≡ some engine =
          get-put_self id engine s.requests in
        let made : s' ≡ record s { requests = put id engine s.requests } =
          sym (some-injective _ _ (rw (there, bound, same, bind) at h)) in
        ap (λ (r : SharedCore). get id r.requests) made
        ∙ (put_back ∙ ap (λ r. some r) (sym ((text_eq_iff target engine).0 same)))
    | inr differs ↦ ground (arith, there, bound, differs, h)
  ]
]

dispatch-reply :
    (s : SharedCore) (method : Method) (id target : Text)
    → get id s.requests ≡ some target
    → (dispatch s method id).reply ≡ routed target
unfolding dispatch
dispatch-reply s method id target bound = rw (bound, dispatch) refl

-- A session that is bound stays with its engine: where `bind` succeeds on it, it is bound to the
-- same engine, and the next call of any handler for it goes to that engine.
pub bind-dispatch :
    (s s' : SharedCore) (id inbound target : Text) (method : Method)
    → get id s.requests ≡ some target
    → bind s id inbound ≡ some s'
    → (get id s'.requests ≡ some target) × ((dispatch s' method id).reply ≡ routed target)
bind-dispatch s s' id inbound target method bound h =
    let kept = bind-same s s' id inbound target bound h in
    (kept, dispatch-reply s' method id target kept)
