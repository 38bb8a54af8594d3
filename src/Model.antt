-- ===== src/Model.antt =====
-- src/shared/model.ts: the records that the agent keeps and sends.
-- A transaction is here without its decoded gRPC calls. Times are in milliseconds, a duration in
-- tenths of one, and an optional flag that is missing is false.
use tapline.Base.{ℕ, Bool, Option, List, Text}
use tapline.Headers.{Headers}
use tapline.Sse.{ParsedEvent}

pub data Direction : Type 0 where
  outgoing incoming : Direction

pub record Frame : Type 0 where
  pub id : Text
  pub time : ℕ
  pub direction : Direction
  pub binary : Bool
  pub payload : Text
  pub size : ℕ
  pub truncated : Bool
  pub replay_of : Option Text

pub data TransactionState : Type 0 where
  pending completed error : TransactionState

pub data Phase : Type 0 where
  request response : Phase

pub record Transaction : Type 0 where
  pub note : Option Text
  pub marked : Bool
  pub id : Text
  pub sequence : ℕ
  pub timestamp : ℕ
  pub method : Text
  pub url : Text
  pub host : Text
  pub path : Text
  pub scheme : Text
  pub http_version : Option Text
  pub client : Text
  pub state : TransactionState
  pub status : Option ℕ
  pub status_message : Option Text
  pub request_headers : Headers
  pub response_headers : Headers
  pub response_trailers : Option Headers
  pub request_body : Text
  pub response_body : Text
  pub request_binary : Bool
  pub response_binary : Bool
  pub request_bytes : ℕ
  pub response_bytes : ℕ
  pub truncated : Bool
  pub duration : ℕ
  pub tls : Bool
  pub failed_with : Option Text
  pub frames : List Frame
  pub frames_truncated : Bool
  pub events : Option (List ParsedEvent)
  pub events_truncated : Bool
  pub replay_of : Option Text
  pub paused : Option Phase
  pub rules : List Text
  pub answered_locally : Bool
  pub upstream_url : Option Text
  pub response_encoding : Option Text
  pub server_address : Option Text

pub record Substitution : Type 0 where
  pub pattern : Text
  pub replacement : Text

pub record Edit : Type 0 where
  pub method : Option Text
  pub url : Option Substitution
  pub status : Option ℕ
  pub headers : List (Text × Option Text)
  pub body : Option Text
  pub body_replace : Option Substitution

pub record LocalAnswer : Type 0 where
  pub file : Option Text
  pub body : Option Text
  pub status : Option ℕ
  pub content_type : Option Text

pub data RuleKind : Type 0 where
  breakpoint : Bool → Bool → RuleKind
  rewrite : Option Edit → Option Edit → RuleKind
  map_local : LocalAnswer → RuleKind
  map_remote : Text → RuleKind
  block : Option ℕ → RuleKind
  throttle : Option ℕ → Option ℕ → RuleKind

pub record Rule : Type 0 where
  pub id : Text
  pub enabled : Bool
  pub name : Option Text
  pub url : Option Text
  pub method : Option Text
  pub kind : RuleKind

pub record BreakpointEdit : Type 0 where
  pub method : Option Text
  pub url : Option Text
  pub status : Option ℕ
  pub headers : Option Headers
  pub body : Option Text

pub record Settings : Type 0 where
  pub port : ℕ
  pub ssl_hosts : List Text
  pub ssl_no_hosts : List Text
  pub insecure_upstream : Bool
  pub max_entries : ℕ
  pub max_body_bytes : ℕ
  pub rules : List Rule

pub data LogLevel : Type 0 where
  info warn failure : LogLevel

pub record LogEntry : Type 0 where
  pub time : ℕ
  pub level : LogLevel
  pub message : Text

pub data Event : Type 0 where
  transaction : Transaction → Event
  removed : List Text → Event
  reset : Event
  log : LogEntry → Event
