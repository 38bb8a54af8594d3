-- ===== src/Filter.antt =====
-- src/webview/types/messages.ts (Row, toRow) and src/webview/lib/filter.ts: the rows of the
-- sequence table, the terms of a query, and what passes them.
-- `toLowerCase` and the flag `i` fold ASCII letters.
pub mod Query
pub mod Rows
pub mod Sorting
pub mod Search
pub mod Comparing
pub mod Ordered
pub mod Placed
pub mod Scanning
pub mod Printed
pub mod Whole
mod Tests
use tapline.Base.{
  ℕ, Bool, true, false, ◌||◌, not, Option, none, some, List, [], ◌∷◌, Text, text, text_eq, lower,
  trim, before, starts_with, is_empty, length, ltb, ◌==◌, if◌then◌else◌,
}
use tapline.Headers.{Headers}
use tapline.Model.{Transaction, TransactionState, Phase}

-- What the rows use of the runtime: doubles, given by their bits, and the order of texts. A double
-- that is not a number is `none`.
pub record Runtime : Type 0 where
  pub parse_float : Text → Option ℕ
  pub times : ℕ → ℕ → ℕ
  pub of_nat : ℕ → ℕ
  pub of_tenths : ℕ → ℕ
  pub above : ℕ → ℕ → Bool
  pub same : ℕ → ℕ → Bool

pub record Row : Type 0 where
  pub note : Option Text
  pub marked : Bool
  pub id : Text
  pub sequence : ℕ
  pub timestamp : ℕ
  pub method : Text
  pub host : Text
  pub server_address : Option Text
  pub path : Text
  pub url : Text
  pub scheme : Text
  pub http_version : Option Text
  pub state : TransactionState
  pub status : Option ℕ
  pub duration : ℕ
  pub request_bytes : ℕ
  pub response_bytes : ℕ
  pub tls : Bool
  pub failed_with : Option Text
  pub replay_of : Option Text
  pub paused : Option Phase
  pub answered_locally : Bool
  pub content_type : Text
  pub websocket : Bool
  pub events : Option ℕ
  pub grpc : Bool
  pub grpc_status : Option ℕ
  pub rules : ℕ

-- What a row shows of a decoded gRPC call.
pub record GrpcCall : Type 0 where
  pub status : Option ℕ

-- The first header of a name that is spelled in lower case.
unfoldable pub header_of : Headers → Text → Option Text
header_of [] name = none
header_of ((k, v) ∷ headers) name =
    let rest = header_of headers name in if text_eq (lower k) name then some v else rest

unfoldable pub or_none : Option Text → Text
or_none none = []
or_none (some s) = s

unfoldable pub media_type_of : Headers → Text
unfolding header_of or_none
media_type_of headers =
    lower (trim (before b';' (or_none (header_of headers (text "content-type")))))

abbrev grpc_status_of : Option GrpcCall → Option ℕ
grpc_status_of none = none
grpc_status_of (some call) = call.status

abbrev pub is_given {ℓ} : {A : Type ℓ} → Option A → Bool
is_given none = false
is_given (some a) = true

abbrev count_of {ℓ} : {A : Type ℓ} → Option (List A) → Option ℕ
count_of none = none
count_of (some xs) = some (length xs)

abbrev pub status_is : Option ℕ → ℕ → Bool
status_is none n = false
status_is (some status) n = status == n

-- `grpc` is `t.grpc`.
unfoldable pub to_row : Transaction → Option GrpcCall → Row
unfolding media_type_of
to_row t grpc = record {
  note = t.note;
  marked = t.marked;
  id = t.id;
  sequence = t.sequence;
  timestamp = t.timestamp;
  method = t.method;
  host = t.host;
  server_address = t.server_address;
  path = t.path;
  url = t.url;
  scheme = t.scheme;
  http_version = t.http_version;
  state = t.state;
  status = t.status;
  duration = t.duration;
  request_bytes = t.request_bytes;
  response_bytes = t.response_bytes;
  tls = t.tls;
  failed_with = t.failed_with;
  replay_of = t.replay_of;
  paused = t.paused;
  answered_locally = t.answered_locally;
  content_type = media_type_of t.response_headers;
  websocket =
      ltb 0 (length t.frames) || (status_is t.status 101 || starts_with (text "ws") t.scheme);
  events = count_of t.events;
  grpc = is_given grpc;
  grpc_status = grpc_status_of grpc;
  rules = length t.rules;
}

pub data Quick : Type 0 where
  all_rows quick_2xx quick_3xx quick_4xx quick_5xx quick_pending quick_error quick_json quick_js
        quick_html quick_ws :
      Quick

pub record Filters : Type 0 where
  pub words : Text
  pub quick : Quick
  pub host : Option Text
  pub hide_tunnels : Bool

-- `inherited` is what `aliases.constructor` gives: a function of Object.prototype, and no key.
pub data Key : Type 0 where
  status method host server path url type proto size dur rule body header req res words inherited :
      Key

pub data Op : Type 0 where
  equal above below : Op

pub record Term : Type 0 where
  pub key : Key
  pub op : Op
  pub value : Text
  pub negate : Bool

-- `remoteKeys.includes(key)`.
abbrev pub is_remote : Key → Bool
is_remote body = true
is_remote header = true
is_remote req = true
is_remote res = true
is_remote k = false
