-- ===== src/Engine.antt =====
-- src/core/engine.ts: the store of captured transactions.
-- What the handlers call outside this repository is the record `Platform`. `emitted` lists the
-- events sent to clients, oldest first. A transaction object is its entry of `transactions`: one
-- that was deleted is written no more, since nothing can read it.
pub mod Bodies
pub mod Records
pub mod Handlers
pub mod Pipeline
pub mod Lifecycle
pub mod Keeping
pub mod Entries
pub mod Finished
pub mod Buffers
pub mod Holds
pub mod Tails
mod Tests
use tapline.Base.{
  ℕ, zero, suc, ◌+◌, ◌-◌, ◌≤◌, ◌<◌, ◌≡◌, Bool, true, false, not, ◌&&◌, ◌||◌, Option, none, some,
  List, [], ◌∷◌, ◌++◌, Text, text, Assoc, get, put, remove, length, drop, any, ltb, leb, ◌==◌,
  if◌then◌else◌,
}
use tapline.Headers.{Headers, WireHeaders}
use tapline.Matching.{match_host, is_host_intercepted}
use tapline.Sse.{SseParser}
use tapline.Codings.{Zlib}
use tapline.Model.{
  Transaction, TransactionState, pending, completed, error, Rule, BreakpointEdit, Settings,
  LogEntry, LogLevel, Event, transaction, removed, reset, log, Phase,
}

-- `new URL(…)`.
pub record Url : Type 0 where
  pub protocol : Text
  pub hostname : Text
  pub host : Text
  pub pathname : Text
  pub search : Text

-- Node's URL, RegExp, JSON, Buffer and zlib, and the status names of node:http.
pub record Platform : Type 0 where
  pub parse_url : Text → Option Url
  pub is_utf8 : List ℕ → Bool
  pub utf8 : List ℕ → Text
  pub base64 : List ℕ → Text
  pub zlib : Zlib
  pub status_text : ℕ → Option Text
  pub from_utf8 : Text → List ℕ
  pub from_base64 : Text → List ℕ
  pub is_ipv6 : Text → Bool
  -- `new RegExp(pattern, flags)`, if it is one, and `subject.replace(re, replacement)`.
  pub replace : Text → Text → Text → Text → Option Text
  pub extname : Text → Text
  -- Whether `JSON.parse` takes a text.
  pub is_json : Text → Bool

pub data Side : Type 0 where
  request response : Side

pub record Capture : Type 0 where
  pub chunks : List (List ℕ)
  pub retained : ℕ
  pub total : ℕ

pub record Captures : Type 0 where
  pub request : Capture
  pub response : Capture

-- The closure of `trackEvents`.
pub record EventStream : Type 0 where
  pub parser : SseParser
  pub limit : ℕ
  pub retained : ℕ
  pub sizes : List ℕ

-- How a hold was resolved.
pub data Answer : Type 0 where
  edited : BreakpointEdit → Answer
  aborted : Answer

pub record Engine : Type 0 where
  pub transactions : Assoc Transaction
  pub logs : List LogEntry
  pub settings : Settings
  pub recording : Bool
  pub running : Bool
  -- Whether `inspector` is set.
  pub attached : Bool
  pub sequence : ℕ
  pub captures : Assoc Captures
  pub event_streams : Assoc EventStream
  pub started : Assoc ℕ
  pub matched : Assoc (List Rule)
  -- The keys of `holds`; what waits behind one is the rest of its handler.
  pub holds : Assoc Phase
  -- Holds resolved whose handlers have not run on yet.
  pub resolved : List (Text × Answer)
  -- Local ports of composed requests.
  pub composed_clients : List ℕ
  pub emitted : List Event

-- `Date.now()` in milliseconds, and `performance.now()` in tenths of one.
pub record Clock : Type 0 where
  pub date : ℕ
  pub tick : ℕ

pub record Client : Type 0 where
  pub remote_address : Text
  pub remote_port : ℕ

unfoldable pub emit_event : Engine → Event → Engine
emit_event e event = record e { emitted = e.emitted ++ event ∷ [] }

abbrev pub max_logs : ℕ
max_logs = 2000

unfoldable pub shift_logs : List LogEntry → List LogEntry
shift_logs logs = if ltb max_logs (length logs) then drop 1 logs else logs

unfoldable pub log_message : Engine → ℕ → LogLevel → Text → Engine
unfolding emit_event shift_logs
log_message e now level message =
    let entry : LogEntry = record { time = now; level = level; message = message } in
    emit_event (record e { logs = shift_logs (e.logs ++ entry ∷ []) }) (log entry)

-- `publish`, for the transaction that is or was under `id`.
unfoldable pub publish : Engine → Text → Transaction → Engine
publish e id t = elim (get id e.transactions) [
  | none ↦ e
  | some _ ↦ record e { emitted = e.emitted ++ transaction t ∷ [] }
]

-- An assignment to fields of the transaction object under `id`.
unfoldable pub store : Engine → Text → Transaction → Engine
store e id t = elim (get id e.transactions) [
  | none ↦ e
  | some _ ↦ record e { transactions = put id t e.transactions }
]

-- The oldest entries beyond the limit, and what stays.
unfoldable pub evict : ℕ → Assoc Transaction → Assoc Transaction × List Text
evict most [] = ([], [])
evict most ((k, t) ∷ m) =
    let (kept, ids) = evict most m in
    if ltb most (suc (length m)) then (kept, k ∷ ids) else ((k, t) ∷ m, [])

unfoldable pub remove_all {ℓ} : {V : Type ℓ} → List Text → Assoc V → Assoc V
remove_all [] m = m
remove_all (k ∷ ks) m = remove_all ks (remove k m)

unfoldable pub emit_removed : List Text → Engine → Engine
emit_removed [] e = e
emit_removed (k ∷ ks) e = record e { emitted = e.emitted ++ removed (k ∷ ks) ∷ [] }

unfoldable pub enforce_entry_limit : Engine → Engine
unfolding emit_removed
enforce_entry_limit e =
    let (kept, ids) = evict e.settings.max_entries e.transactions in
    emit_removed ids (record e { transactions = kept; captures = remove_all ids e.captures })

unfoldable pub add : Engine → Text → Transaction → Engine
add e id t =
    publish (enforce_entry_limit (record e { transactions = put id t e.transactions })) id t

-- `release`: a hold that is there is resolved as aborted.
unfoldable pub release : Engine → Text → Engine
release e id = elim (get id e.holds) [
  | none ↦ e
  | some _ ↦ record e { holds = remove id e.holds; resolved = e.resolved ++ (id, aborted) ∷ [] }
]

unfoldable pub release_all : List Text → Engine → Engine
release_all [] e = e
release_all (id ∷ ids) e = release_all ids (release e id)

abbrev pub keys {ℓ} : {V : Type ℓ} → Assoc V → List Text
keys [] = []
keys ((k, v) ∷ m) = k ∷ keys m

unfoldable pub clear : Engine → Engine
clear e =
    let e' = release_all (keys e.holds) e in
    emit_event (record e' { transactions = []; captures = []; sequence = 0 }) reset

unfoldable pub delete_each : List Text → Engine → Engine
delete_each [] e = e
delete_each (id ∷ ids) e =
    let e' = release e id in
    delete_each ids
      (record e' { transactions = remove id e'.transactions; captures = remove id e'.captures })

unfoldable pub delete : Engine → List Text → Engine
delete e ids = emit_event (delete_each ids e) reset

-- `annotate`: the note and the mark are checked by type before; `none` leaves a field alone.
pub data Outcome : Type 0 where
  ok : Engine → Outcome
  refused : Text → Outcome

abbrev nonempty : Text → Option Text
nonempty [] = none
nonempty (c ∷ s) = some (c ∷ s)

abbrev with_note : Transaction → Option Text → Transaction
with_note t none = t
with_note t (some n) = record t { note = nonempty n }

abbrev with_mark : Transaction → Option Bool → Transaction
with_mark t none = t
with_mark t (some b) = record t { marked = b }

unfoldable pub annotated : Transaction → Option Text → Option Bool → Transaction
annotated t note marked = with_mark (with_note t note) marked

unfoldable pub too_long : Option Text → Bool
too_long none = false
too_long (some n) = ltb 2000 (length n)

unfoldable pub annotate : Engine → Text → Option Text → Option Bool → Outcome
unfolding too_long annotated
annotate e id note marked = elim (get id e.transactions) [
  | none ↦ refused (text "This request is no longer available.")
  | some t ↦
      if too_long note
      then refused (text "Notes must be at most 2000 characters.")
      else ok (publish (store e id (annotated t note marked)) id (annotated t note marked))
]

-- `intercepts`.
unfoldable pub intercepts : Engine → Text → Bool
intercepts e host =
    if any (λ pattern. match_host pattern host) e.settings.ssl_no_hosts
    then false
    else is_host_intercepted e.settings.ssl_hosts host
