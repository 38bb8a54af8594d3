-- ===== src/Inspector/Sessions.antt =====
-- src/core/inspector.ts: the ends of the sessions that the engine is told of.
use tapline.Base.{
  ℕ, ◌+◌, ◌≤◌, ◌≡◌, refl, inl, inr, Option-cases, Bool, true, Option, none, some, List, [], ◌∷◌,
  ◌++◌, Text, text_eq, text_eq_iff, get, get-put, get-remove, if◌then◌else◌, arith,
}
use tapline.Inspector.{
  Told, connect, requested, responded, upstream_connected, tunnel_bytes, data_of, end_of, websocket,
  frame, closed, failure, exit_of, Inspector, end_session, fail, begin_session, tell,
}

-- The session that a call of the engine opens or ends.
abbrev opened_by : Told → Option Text
opened_by (connect id host port client) = some id
opened_by (requested id method url version headers client) = some id
opened_by (responded id status headers) = none
opened_by (upstream_connected id address) = none
opened_by (tunnel_bytes id sending count) = none
opened_by (data_of side id bytes) = none
opened_by (end_of side id trailers) = none
opened_by (websocket id url headers client) = some id
opened_by (frame id from_server bytes binary) = none
opened_by (closed id aborted) = none
opened_by (failure id message) = none
opened_by (exit_of error) = none

abbrev ended_by : Told → Option Text
ended_by (connect id host port client) = none
ended_by (requested id method url version headers client) = none
ended_by (responded id status headers) = none
ended_by (upstream_connected id address) = none
ended_by (tunnel_bytes id sending count) = none
ended_by (data_of side id bytes) = none
ended_by (end_of side id trailers) = none
ended_by (websocket id url headers client) = none
ended_by (frame id from_server bytes binary) = none
ended_by (closed id aborted) = some id
ended_by (failure id message) = some id
ended_by (exit_of error) = none

abbrev one_if : Text → Option Text → ℕ
one_if id none = 0
one_if id (some i) = if text_eq i id then 1 else 0

-- How often the engine was told that a session opens, and that it ends.
abbrev pub opens : Text → List Told → ℕ
opens id [] = 0
opens id (call ∷ told) = one_if id (opened_by call) + opens id told

abbrev pub ends : Text → List Told → ℕ
ends id [] = 0
ends id (call ∷ told) = one_if id (ended_by call) + ends id told

abbrev live : Option Bool → ℕ
live none = 0
live (some b) = 1

-- Every end of a session, and its being open, has an opening of its own.
abbrev pub IsMatched : Text → Inspector → Type 0
IsMatched id i = ends id i.told + live (get id i.sessions) ≤ opens id i.told

opens-append : (id : Text) (xs ys : List Told) → opens id (xs ++ ys) ≡ opens id xs + opens id ys
opens-append id [] ys = omega arith
opens-append id (x ∷ xs) ys = omega (arith, opens-append id xs ys)

ends-append : (id : Text) (xs ys : List Told) → ends id (xs ++ ys) ≡ ends id xs + ends id ys
ends-append id [] ys = omega arith
ends-append id (x ∷ xs) ys = omega (arith, ends-append id xs ys)

-- A call that neither opens nor ends a session.
abbrev IsAside : Told → Type 0
IsAside call = (opened_by call ≡ none) × (ended_by call ≡ none)

module _ (j : Text) where
  pub tell-IsMatched :
      (i : Inspector) (call : Told) → IsAside call → IsMatched j i → IsMatched j (tell i call)
  tell-IsMatched i call (o, e) h =
      rw (opens-append j i.told (call ∷ []), ends-append j i.told (call ∷ []), o, e)
        (omega (arith, h))

  pub begin_session-IsMatched :
      (i : Inspector) (id : Text) (call : Told)
      → opened_by call ≡ some id
      → ended_by call ≡ none
      → IsMatched j i
      → IsMatched j (begin_session i id call)
  unfolding begin_session
  begin_session-IsMatched i id call o e h =
      rw
        (
          opens-append j i.told (call ∷ []),
          ends-append j i.told (call ∷ []),
          o,
          e,
          get-put id j true i.sessions,
        )
        (ground (arith, h))

  pub end_session-IsMatched :
      (i : Inspector) (id : Text) (call : Told)
      → opened_by call ≡ none
      → ended_by call ≡ some id
      → IsMatched j i
      → IsMatched j (end_session i id call)
  unfolding end_session
  end_session-IsMatched i id call o e h = elim (Option-cases (get id i.sessions)) [
    | inl gone ↦ rw (gone, end_session) h
    | inr (b, found) ↦
        rw (found, end_session)
          (rw
            (
              opens-append j i.told (call ∷ []),
              ends-append j i.told (call ∷ []),
              o,
              e,
              get-remove id j i.sessions,
            )
            (ground (arith, h, found, text_eq_iff id j)))
  ]

  pub fail-IsMatched :
      (i : Inspector) (id message : Text) → IsMatched j i → IsMatched j (fail i id message)
  unfolding fail
  fail-IsMatched i id message h = end_session-IsMatched i id (failure id message) refl refl h
