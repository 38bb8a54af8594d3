-- ===== src/Engine/Tests.antt =====
-- Runs of src/core/engine.ts, on a platform that knows one URL.
use tapline.Base.{
  ℕ, ◌≤◌, ◌≡◌, ap, refl, Bool, true, false, Option, none, some, List, [], ◌∷◌, ◌++◌, text, text_eq,
  Text, get, put, remove, length, decimal, arith,
}
use tapline.Model.{
  Settings, Transaction, BreakpointEdit, request, completed, info, Frame, outgoing, log,
}
use tapline.Engine.{
  Platform, Url, Engine, Clock, Client, publish, store, evict, enforce_entry_limit, emit_removed,
  remove_all, add, release, refused, clear, log_message, max_logs,
}
use tapline.Engine.Bodies.{flatten_chunks, capture, capture_chunk, seal, retain, empty_capture}
use tapline.Headers.{flatten}
use tapline.Engine.Pipeline.{rules_for}
use tapline.Engine.Pipeline.Requests.{open_request}
use tapline.Engine.Records.{create, new_transaction, without_colon, finish, finish_pending}
use tapline.Engine.Handlers.{max_frames, request_data, request_end, failure, forget, response_end}
use tapline.Engine.Lifecycle.{
  step, run, Call, requests, request_chunk, request_ends, response_ends, fails, begin_stop, resume,
  abort, after,
}
use tapline.Engine.Entries.{run-entries-le}
use tapline.Engine.Finished.{run-finished}
use tapline.Engine.Keeping.{Same}
use tapline.Engine.Holds.{begin_stop-answers, clear-answers, resume-once, answers, dealt, IsFree}
use tapline.Engine.Buffers.{IsPrefix, capture_chunks, capture_chunks_lem}
use tapline.Engine.Tails.{latest, add_frames-frames, log_message-latest, add_frames}

abbrev some_url : Url
some_url = record {
  protocol = text "https:";
  hostname = text "a.dev";
  host = text "a.dev";
  pathname = text "/x";
  search = text "?y";
}

abbrev if_url : Bool → Option Url
if_url true = some some_url
if_url false = none

abbrev pub platform : Platform
platform = record {
  parse_url = λ u. if_url (text_eq u (text "https://a.dev/x?y"));
  is_utf8 = λ b. true;
  utf8 = λ b. b;
  base64 = λ b. b;
  zlib = record {
    gunzip = λ b n. none;
    inflate = λ b n. none;
    inflate_raw = λ b n. none;
    brotli = λ b n. none;
    zstd = none;
  };
  status_text = λ n. none;
  from_utf8 = λ s. s;
  from_base64 = λ s. s;
  is_ipv6 = λ s. false;
  replace = λ pattern flags subject replacement. none;
  extname = λ s. [];
  is_json = λ s. false;
}

abbrev settings : Settings
settings = record {
  port = 8080;
  ssl_hosts = text "*" ∷ [];
  ssl_no_hosts = [];
  insecure_upstream = false;
  max_entries = 2;
  max_body_bytes = 4;
  rules = [];
}

abbrev pub engine : Engine
engine = record {
  transactions = [];
  logs = [];
  settings = settings;
  recording = true;
  running = true;
  attached = true;
  sequence = 0;
  captures = [];
  event_streams = [];
  started = [];
  matched = [];
  holds = (text "h", request) ∷ [];
  resolved = [];
  composed_clients = [];
  emitted = [];
}

abbrev pub at : ℕ → Clock
at n = record { date = n; tick = n }

abbrev pub client : Client
client = record { remote_address = text "::1"; remote_port = 5 }

abbrev open_call : Text → Call
open_call id = requests id (record {
  method = text "GET";
  url = text "https://a.dev/x?y";
  http_version = none;
  headers = [];
  client = client;
  body = [];
})

-- Three requests, one of which sends and ends, and one of which is closed.
abbrev calls : List (Clock × Call)
calls =
    (at 1, open_call (text "a"))
    ∷ (at 2, open_call (text "b"))
    ∷ (at 3, request_chunk (text "b") (text "hel"))
    ∷ (at 4, request_chunk (text "b") (text "lo"))
    ∷ (at 5, request_ends (text "b"))
    ∷ (at 9, response_ends (text "b") [])
    ∷ (at 10, open_call (text "c"))
    ∷ []

abbrev shown : Option Transaction → List Text
shown none = []
shown (some t) = t.id ∷ t.request_body ∷ decimal t.request_bytes ∷ decimal t.duration ∷ []

run_evicts : length (run platform engine calls).transactions ≡ 2
unfolding run step create new_transaction add publish store evict enforce_entry_limit emit_removed
    remove_all get put remove text text_eq without_colon response_end seal request_end request_data
    capture retain capture_chunk finish finish_pending open_request rules_for flatten
run_evicts = refl

run-entries-le_example : length (run platform engine calls).transactions ≤ 2
run-entries-le_example = run-entries-le platform engine calls (omega arith)

abbrev opened_a : Transaction
opened_a =
    new_transaction engine (at 1) (text "a") (text "GET") (text "https://a.dev/x?y") some_url client
      none

abbrev finished_a : Transaction
finished_a = record opened_a { state = completed; duration = 7 }

abbrev finished_engine : Engine
finished_engine = record engine { transactions = (text "a", finished_a) ∷ [] }

abbrev late_calls : List (Clock × Call)
late_calls =
    (at 8, fails (text "a") (text "late"))
    ∷ (at 9, open_call (text "b"))
    ∷ (at 9, response_ends (text "a") [])
    ∷ []

abbrev head_of : Text → ℕ
head_of [] = 0
head_of (c ∷ s) = c

b_is_other : ¬ (text "b" ≡ text "a")
unfolding text
b_is_other e = let codes : 98 ≡ 97 = ap (λ s. head_of s) e in omega (arith, codes)

late_found : get (text "a") (run platform finished_engine late_calls).transactions ≡ some finished_a
unfolding run step create new_transaction add publish store evict enforce_entry_limit emit_removed
    remove_all get put remove text text_eq without_colon response_end seal request_end request_data
    capture retain capture_chunk finish finish_pending open_request rules_for flatten failure forget
    release
late_found = refl

run-finished_example : Same finished_a finished_a
run-finished_example =
    run-finished (text "a") finished_a (λ e. cc) platform finished_engine late_calls finished_a
      (λ here. record { state = refl; failed_with = refl; duration = refl }, tt)
      (tt, (b_is_other, (tt, tt))) late_found

capture_chunks_runs :
    capture_chunks 4 empty_capture (text "hel" ∷ text "lo" ∷ text "!" ∷ [])
    ≡ record { chunks = text "hel" ∷ text "l" ∷ []; retained = 4; total = 6 }
unfolding capture_chunks capture_chunk text
capture_chunks_runs = refl

capture_chunks_lem_example :
    IsPrefix 4
      (flatten_chunks (text "hel" ∷ text "lo" ∷ []))
      (capture_chunks 4 empty_capture (text "hel" ∷ text "lo" ∷ []))
capture_chunks_lem_example = capture_chunks_lem 4 (text "hel" ∷ text "lo" ∷ [])

dealt_one : dealt engine (text "h") ≡ 1
unfolding dealt answers get text text_eq
dealt_one = refl

begin_stop-answers_example :
    IsFree (begin_stop engine) (text "h")
    × (answers (text "h") (begin_stop engine).resolved ≡ dealt engine (text "h"))
begin_stop-answers_example = begin_stop-answers engine (text "h")

clear-answers_example :
    IsFree (clear engine) (text "h")
    × (answers (text "h") (clear engine).resolved ≡ dealt engine (text "h"))
clear-answers_example = clear-answers engine (text "h")

abbrev no_edit : BreakpointEdit
no_edit = record { method = none; url = none; status = none; headers = none; body = none }

abbrev resumed : Engine
resumed = after engine (resume engine (text "h") no_edit)

resume-once_example :
    IsFree resumed (text "h")
    × (dealt resumed (text "h") ≡ dealt engine (text "h"))
    × (resume resumed (text "h") no_edit ≡ refused (text "This request is not paused"))
    × (abort resumed (text "h") ≡ refused (text "This request is not paused"))
resume-once_example = resume-once engine (text "h") no_edit no_edit (text "h")

abbrev some_frame : Frame
some_frame = record {
  id = text "f";
  time = 3;
  direction = outgoing;
  binary = false;
  payload = text "hi";
  size = 2;
  truncated = false;
  replay_of = none;
}

opened_fits : length opened_a.frames ≤ max_frames
unfolding new_transaction
opened_fits = omega arith

add_frames-frames_example :
    (add_frames (some_frame ∷ some_frame ∷ []) opened_a).frames
    ≡ latest max_frames (opened_a.frames ++ some_frame ∷ some_frame ∷ [])
add_frames-frames_example = add_frames-frames (some_frame ∷ some_frame ∷ []) opened_a opened_fits

log_message-latest_example :
    ((log_message engine 3 info (text "on")).logs
      ≡ latest max_logs
          (engine.logs ++ record { time = 3; level = info; message = text "on" } ∷ []))
    × ((log_message engine 3 info (text "on")).emitted
        ≡ engine.emitted ++ log (record { time = 3; level = info; message = text "on" }) ∷ [])
log_message-latest_example = log_message-latest engine 3 info (text "on") (omega arith)
