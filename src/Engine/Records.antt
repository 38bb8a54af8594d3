-- ===== src/Engine/Records.antt =====
-- src/core/engine.ts: how a transaction is opened, finished and written to.
-- A handler that throws gives `none`.
use tapline.Base.{
  ℕ, suc, ◌-◌, false, not, ◌||◌, Option, none, some, [], ◌∷◌, ◌++◌, Text, text, text_eq, decimal,
  get, put, remove, ◌==◌, if◌then◌else◌,
}
use tapline.Model.{Transaction, TransactionState, pending, completed, error}
use tapline.Engine.{Engine, Platform, Url, Client, Clock, publish, store, add}

abbrev pub or_else {ℓ} : {A : Type ℓ} → Option A → A → A
or_else none d = d
or_else (some a) d = a

-- `client.remoteAddress:client.remotePort`.
abbrev pub client_text : Client → Text
client_text c = c.remote_address ++ (b':' ∷ decimal c.remote_port)

-- `target.protocol.replace(':', '')`.
unfoldable pub without_colon : Text → Text
without_colon [] = []
without_colon (c ∷ s) = if c == b':' then s else c ∷ without_colon s

unfoldable pub new_transaction :
    Engine → Clock → Text → Text → Text → Url → Client → Option Text → Transaction
new_transaction e now id method url target client scheme = record {
  note = none;
  marked = false;
  id = id;
  sequence = suc e.sequence;
  timestamp = now.date;
  method = method;
  url = url;
  host = target.hostname;
  path = target.pathname ++ target.search;
  scheme = or_else scheme (without_colon target.protocol);
  http_version = none;
  client = client_text client;
  state = pending;
  status = none;
  status_message = none;
  request_headers = [];
  response_headers = [];
  response_trailers = none;
  request_body = [];
  response_body = [];
  request_binary = false;
  response_binary = false;
  request_bytes = 0;
  response_bytes = 0;
  truncated = false;
  duration = 0;
  tls = text_eq target.protocol (text "https:") || text_eq target.protocol (text "wss:");
  failed_with = none;
  frames = [];
  frames_truncated = false;
  events = none;
  events_truncated = false;
  replay_of = none;
  paused = none;
  rules = [];
  answered_locally = false;
  upstream_url = none;
  response_encoding = none;
  server_address = none;
}

-- What `create` returns: nothing while recording is off.
pub record Created : Type 0 where
  pub engine : Engine
  pub entry : Option Transaction

unfoldable pub create :
    Platform → Engine → Clock → Text → Text → Text → Client → Option Text → Option Created
create p e now id method url client scheme =
    if not e.recording then some (record { engine = e; entry = none }) else elim (p.parse_url url) [
      | none ↦ none
      | some target ↦
          let t = new_transaction e now id method url target client scheme in
          some (record {
            engine =
                add (record e { sequence = suc e.sequence; started = put id now.tick e.started }) id
                  t;
            entry = some t;
          })
    ]

-- `started`, if there is one, gives the duration.
abbrev pub timed : Option ℕ → ℕ → Transaction → Transaction
timed none tick t = t
timed (some started) tick t = record t { duration = tick - started }

-- An empty message counts as none.
abbrev pub ended : Option Text → Transaction → Transaction
ended none t = record t { state = completed }
ended (some []) t = record t { state = completed }
ended (some (c ∷ message)) t = record t { state = error; failed_with = some (c ∷ message) }

unfoldable pub finish_pending : Engine → Clock → Text → Transaction → Option Text → Engine
finish_pending e now id t message =
    let t' = ended message (timed (get id e.started) now.tick t) in
    let e' = record e {
      started = remove id e.started;
      event_streams = remove id e.event_streams;
    } in
    publish (store e' id t') id t'

unfoldable pub finish_state :
    TransactionState → Engine → Clock → Text → Transaction → Option Text → Engine
finish_state pending e now id t message = finish_pending e now id t message
finish_state completed e now id t message = e
finish_state error e now id t message = e

-- `finish`, of a transaction of the store.
unfoldable pub finish : Engine → Clock → Text → Option Text → Engine
unfolding finish_state
finish e now id message = elim (get id e.transactions) [
  | none ↦ e
  | some t ↦ finish_state t.state e now id t message
]

-- `t.field = …; this.publish(t)`, if `id` is in the store.
unfoldable pub update : Engine → Text → (Transaction → Transaction) → Engine
update e id change = elim (get id e.transactions) [
  | none ↦ e
  | some t ↦ publish (store e id (change t)) id (change t)
]

unfoldable pub modify : Engine → Text → (Transaction → Transaction) → Engine
modify e id change = elim (get id e.transactions) [ none ↦ e | some t ↦ store e id (change t) ]
