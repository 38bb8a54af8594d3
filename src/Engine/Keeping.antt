-- ===== src/Engine/Keeping.antt =====
-- src/core/engine.ts: what every handler keeps of the map of transactions.
-- Handlers change it by a few kinds of write, which `Keeper` lists.
pub mod Writes
pub mod Rules
pub mod Calls
use tapline.Base.{
  ℕ, zero, suc, ◌+◌, ◌≤◌, ◌<◌, ◌≡◌, refl, sym, ap, ◌∙◌, subst, inl, inr, ◌⊎◌, Bool, true, false,
  not, ◌||◌, ◌&&◌, Option, none, some, List, [], ◌∷◌, ◌++◌, Text, text, Assoc, get, put, remove,
  length, length-put_hit, length-remove-le, ltb, if◌then◌else◌, arith, Bool-cases, Option-cases,
}
use tapline.Headers.{Headers, WireHeaders}
use tapline.Model.{
  Transaction, Settings, pending, completed, error, outgoing, incoming, TransactionState, LogLevel,
  Direction, BreakpointEdit,
}
use tapline.Engine.{
  intercepts, Url, EventStream, Capture, request, response, Engine, Platform, Client, Clock, Side,
  publish, store, evict, enforce_entry_limit, emit_removed, remove_all, add, release, release_all,
  keys, clear, delete, delete_each, annotate, annotated, too_long, Outcome, ok, refused, emit_event,
  log_message, shift_logs,
}
use tapline.Engine.Bodies.{
  capture, capture_chunk, side_of, captures_for, seal, push_events, counted, retain,
}
use tapline.Engine.Records.{
  ended, timed, create, Created, new_transaction, finish, finish_state, finish_pending, update,
  modify,
}
use tapline.Engine.Handlers.{
  end_request, sealed_request, sealed_response, push_stream, close_message, name_tunnel, tunnelled,
  switch_protocols, switched, is_composed, connect, Connected, upstream_connected, tunnel_bytes,
  request_data, request_end, stream_data, response_data, response_end, websocket, frame, closed,
  failure, forget,
}

-- The outcome that a finished transaction shows.
pub record Same (t t' : Transaction) : Type 0 where
  pub state : t'.state ≡ t.state
  pub failed_with : t'.failed_with ≡ t.failed_with
  pub duration : t'.duration ≡ t.duration

-- What an assignment to a transaction respects.
pub record IsWrite (t t' : Transaction) : Type 0 where
  pub id : t'.id ≡ t.id
  pub finished : ¬ (t.state ≡ pending) → Same t t'

-- A property of the settings and the transactions that the writes keep; new ids satisfy `IsNew`.
pub record Keeper (P : Settings → Assoc Transaction → Type 0) (IsNew : Text → Type 0) : Type 0 where
  pub write :
      (s : Settings) (m : Assoc Transaction) (id : Text) (t t' : Transaction)
      → get id m ≡ some t
      → IsWrite t t'
      → P s m
      → P s (put id t' m)
  pub insert :
      (s : Settings) (m : Assoc Transaction) (id : Text) (t : Transaction)
      → IsNew id
      → t.id ≡ id
      → P s m
      → P s (evict s.max_entries (put id t m)).0
  pub drop : (s : Settings) (m : Assoc Transaction) (id : Text) → P s m → P s (remove id m)
  pub empty : (s : Settings) (m : Assoc Transaction) → P s m → P s []

abbrev pub untouched :
    (t t' : Transaction)
    → t'.id ≡ t.id
    → t'.state ≡ t.state
    → t'.failed_with ≡ t.failed_with
    → t'.duration ≡ t.duration
    → IsWrite t t'
untouched t t' i s f d = record {
  id = i;
  finished = λ done. record { state = s; failed_with = f; duration = d };
}

counted-IsWrite :
    (most : ℕ) (side : Side) (c : Capture) (t : Transaction) → IsWrite t (counted most side c t)
unfolding counted
counted-IsWrite most request c t = elim (Bool-cases (ltb most c.total)) [
  | inl more ↦ rw more (untouched t _ refl refl refl refl)
  | inr fits ↦ rw fits (untouched t _ refl refl refl refl)
]
counted-IsWrite most response c t = elim (Bool-cases (ltb most c.total)) [
  | inl more ↦ rw more (untouched t _ refl refl refl refl)
  | inr fits ↦ rw fits (untouched t _ refl refl refl refl)
]

pub retain-IsWrite :
    (p : Platform) (side : Side) (raw : List ℕ) (t : Transaction) → IsWrite t (retain p side raw t)
unfolding retain
retain-IsWrite p request raw t = untouched t _ refl refl refl refl
retain-IsWrite p response raw t = untouched t _ refl refl refl refl

ended-IsWrite :
    (t : Transaction) (started : Option ℕ) (tick : ℕ) (m : Option Text)
    → t.state ≡ pending
    → IsWrite t (ended m (timed started tick t))
ended-IsWrite t none tick none still = record {
  id = refl;
  finished = λ done. elim (done still) [ ];
}
ended-IsWrite t none tick (some []) still = record {
  id = refl;
  finished = λ done. elim (done still) [ ];
}
ended-IsWrite t none tick (some (c ∷ m)) still = record {
  id = refl;
  finished = λ done. elim (done still) [ ];
}
ended-IsWrite t (some n) tick none still = record {
  id = refl;
  finished = λ done. elim (done still) [ ];
}
ended-IsWrite t (some n) tick (some []) still = record {
  id = refl;
  finished = λ done. elim (done still) [ ];
}
ended-IsWrite t (some n) tick (some (c ∷ m)) still = record {
  id = refl;
  finished = λ done. elim (done still) [ ];
}

module _ {P : Settings → Assoc Transaction → Type 0} {IsNew : Text → Type 0}
    (rule : Keeper P IsNew) where
  abbrev pub Kept : Engine → Type 0
  Kept e = P e.settings e.transactions

  pub publish-keeps : (e : Engine) (id : Text) (t : Transaction) → Kept e → Kept (publish e id t)
  unfolding publish
  publish-keeps e id t b = elim (Option-cases (get id e.transactions)) [
    | inl gone ↦ rw (gone, publish) b
    | inr (old, found) ↦ rw (found, publish) b
  ]

  pub store-keeps :
      (e : Engine) (id : Text) (t t' : Transaction)
      → get id e.transactions ≡ some t
      → IsWrite t t'
      → Kept e
      → Kept (store e id t')
  unfolding store
  store-keeps e id t t' found w b =
      rw (found, store) (rule.write e.settings e.transactions id t t' found w b)

  pub update-keeps :
      (e : Engine) (id : Text) (c : Transaction → Transaction)
      → ((t : Transaction) → IsWrite t (c t))
      → Kept e
      → Kept (update e id c)
  unfolding update
  update-keeps e id c w b = elim (Option-cases (get id e.transactions)) [
    | inl gone ↦ rw (gone, update) b
    | inr (t, found) ↦
        rw (found, update) (publish-keeps _ id (c t) (store-keeps e id t (c t) found (w t) b))
  ]

  pub modify-keeps :
      (e : Engine) (id : Text) (c : Transaction → Transaction)
      → ((t : Transaction) → IsWrite t (c t))
      → Kept e
      → Kept (modify e id c)
  unfolding modify
  modify-keeps e id c w b = elim (Option-cases (get id e.transactions)) [
    | inl gone ↦ rw (gone, modify) b
    | inr (t, found) ↦ rw (found, modify) (store-keeps e id t (c t) found (w t) b)
  ]

  pub finish_state-keeps :
      (state : TransactionState) (e : Engine) (now : Clock) (id : Text) (t : Transaction)
      (m : Option Text)
      → get id e.transactions ≡ some t
      → t.state ≡ state
      → Kept e
      → Kept (finish_state state e now id t m)
  unfolding finish_state finish_pending
  finish_state-keeps pending e now id t m found still b =
      publish-keeps _ id _ (store-keeps _ id t _ found (ended-IsWrite t _ now.tick m still) b)
  finish_state-keeps completed e now id t m found over b = b
  finish_state-keeps error e now id t m found over b = b

  pub finish-keeps :
      (e : Engine) (now : Clock) (id : Text) (m : Option Text) → Kept e → Kept (finish e now id m)
  unfolding finish
  finish-keeps e now id m b = elim (Option-cases (get id e.transactions)) [
    | inl gone ↦ rw (gone, finish) b
    | inr (t, found) ↦ rw (found, finish) (finish_state-keeps t.state e now id t m found refl b)
  ]

  pub release-keeps : (e : Engine) (id : Text) → Kept e → Kept (release e id)
  unfolding release
  release-keeps e id b = elim (Option-cases (get id e.holds)) [
    | inl free ↦ rw (free, release) b
    | inr (phase, held) ↦ rw (held, release) b
  ]

  pub release_all-keeps : (ids : List Text) (e : Engine) → Kept e → Kept (release_all ids e)
  unfolding release_all
  release_all-keeps [] e b = b
  release_all-keeps (id ∷ ids) e b = release_all-keeps ids (release e id) (release-keeps e id b)

  pub forget-keeps : (e : Engine) (id : Text) → Kept e → Kept (forget e id)
  unfolding forget
  forget-keeps e id b = release-keeps _ id b

  pub capture-keeps :
      (e : Engine) (id : Text) (side : Side) (chunk : List ℕ)
      → Kept e
      → Kept (capture e id side chunk)
  unfolding capture
  capture-keeps e id side chunk b = elim (Option-cases (get id e.transactions)) [
    | inl gone ↦ rw (gone, capture) b
    | inr (t, found) ↦
        rw (found, capture)
          (store-keeps _ id t _ found
            (counted-IsWrite e.settings.max_body_bytes side
              (capture_chunk e.settings.max_body_bytes
                (side_of side (captures_for (get id e.captures))) chunk)
              t)
            b)
  ]

  pub seal-keeps :
      (p : Platform) (e : Engine) (id : Text) (side : Side) → Kept e → Kept (seal p e id side)
  unfolding seal
  seal-keeps p e id side b = elim (Option-cases (get id e.transactions)) [
    | inl gone ↦ rw (gone, seal) b
    | inr (t, found) ↦ elim (Option-cases (get id e.captures)) [
      | inl bare ↦ rw (found, bare, seal) b
      | inr (cs, kept) ↦
          rw (found, kept, seal) (store-keeps _ id t _ found (retain-IsWrite p side _ t) b)
    ]
  ]

  pub emit_removed-keeps : (ids : List Text) (e : Engine) → Kept e → Kept (emit_removed ids e)
  unfolding emit_removed
  emit_removed-keeps [] e b = b
  emit_removed-keeps (id ∷ ids) e b = b

  pub add-keeps :
      (e : Engine) (id : Text) (t : Transaction) → IsNew id → t.id ≡ id → Kept e → Kept (add e id t)
  unfolding add enforce_entry_limit
  add-keeps e id t new named b =
      publish-keeps _ id t
        (emit_removed-keeps _ _ (rule.insert e.settings e.transactions id t new named b))

  abbrev pub KeptCreated : Option Created → Type 0
  KeptCreated none = Unit {0}
  KeptCreated (some c) = Kept c.engine

  pub create-keeps :
      (p : Platform) (e : Engine) (now : Clock) (id method url : Text) (client : Client)
      (scheme : Option Text)
      → IsNew id
      → Kept e
      → KeptCreated (create p e now id method url client scheme)
  unfolding create new_transaction
  create-keeps p e now id method url client scheme new b =
      by_recording e.recording (Option-cases (p.parse_url url))
    where
      made : Url → Option Created
      made target =
          let t = new_transaction e now id method url target client scheme in
          some (record {
            engine =
                add (record e { sequence = suc e.sequence; started = put id now.tick e.started }) id
                  t;
            entry = some t;
          })

      by_recording :
          (r : Bool)
          → (p.parse_url url ≡ none) ⊎ ((u : Url) × (p.parse_url url ≡ some u))
          → KeptCreated (
              if not r
              then some (record { engine = e; entry = none })
              else elim (p.parse_url url) as (λ x. Option Created) [
                | none ↦ none
                | some target ↦ made target
              ])
      by_recording false c = b
      by_recording true (inl bad) = rw bad tt
      by_recording true (inr (target, good)) = rw good (add-keeps _ id _ new refl b)
