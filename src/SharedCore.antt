-- ===== src/SharedCore.antt =====
-- src/agent/sharedCore.ts: one core for the engines of several capture sessions.
-- An engine is named by a text; what is called on one is listed in `told`. An operation that the
-- queue runs is cut where it awaits the core, and the parts are functions of their own.
pub mod Routing
mod Tests
use tapline.Base.{
  ℕ, Bool, true, false, not, ◌&&◌, Option, none, some, List, [], ◌∷◌, ◌++◌, Text, text, text_eq,
  Assoc, get, put, remove, if◌then◌else◌,
}

-- The handlers that the proxy tells apart.
pub data Method : Type 0 where
  request closed failure other : Method

pub data Told : Type 0 where
  handled : Text → Method → Text → Told
  failed : Text → Text → Told
  reset : Text → Told

pub record SharedCore : Type 0 where
  -- Whether `inspector` is set.
  pub attached : Bool
  pub targets : Assoc Text
  pub requests : Assoc Text
  pub tags : Assoc Text
  pub told : List Told

unfoldable pub register : SharedCore → Text → Text → SharedCore
register s engine tag = record s { tags = put engine tag s.tags }

-- What the proxy answers: what the engine does, or that there is none.
pub data Reply : Type 0 where
  routed : Text → Reply
  session_closed : Reply
  unknown : Reply

pub record Dispatched : Type 0 where
  pub core : SharedCore
  pub reply : Reply

abbrev ends_session : Method → Bool
ends_session request = false
ends_session closed = true
ends_session failure = true
ends_session other = false

abbrev unrouted : Method → Reply
unrouted request = session_closed
unrouted closed = unknown
unrouted failure = unknown
unrouted other = unknown

unfoldable pub dispatch : SharedCore → Method → Text → Dispatched
dispatch s method id = elim (get id s.requests) [
  | none ↦ record { core = s; reply = unrouted method }
  | some target ↦ record {
    core = record s {
      told = s.told ++ handled target method id ∷ [];
      requests = if ends_session method then remove id s.requests else s.requests;
    };
    reply = routed target;
  }
]

-- `bindSession`: `none` is an error.
unfoldable pub bind : SharedCore → Text → Text → Option SharedCore
bind s id inbound = elim (get inbound s.targets) [
  | none ↦ none
  | some target ↦ elim (get id s.requests) [
    | none ↦ some (record s { requests = put id target s.requests })
    | some previous ↦
        if text_eq previous target
        then some (record s { requests = put id target s.requests })
        else none
  ]
]

abbrev resets : Assoc Text → List Told
resets [] = []
resets ((tag, target) ∷ m) = reset target ∷ resets m

abbrev failures : Assoc Text → List Told
failures [] = []
failures ((id, target) ∷ m) = failed target id ∷ failures m

-- The attached core exited.
unfoldable pub exited : SharedCore → SharedCore
exited s = record s {
  attached = false;
  targets = [];
  requests = [];
  told = s.told ++ (resets s.targets ++ failures s.requests);
}

-- `start` up to the inlet, and what follows when the inlet could not be opened.
unfoldable pub begin_start : SharedCore → Text → Text → SharedCore
begin_start s engine tag = record s { attached = true; targets = put tag engine s.targets }

abbrev has_targets : Assoc Text → Bool
has_targets [] = false
has_targets (t ∷ m) = true

abbrev detach : SharedCore → SharedCore
detach s = record s { attached = s.attached && has_targets s.targets }

unfoldable pub drop_bound : Text → Assoc Text → Assoc Text
drop_bound engine [] = []
drop_bound engine ((id, target) ∷ m) =
    if text_eq target engine then drop_bound engine m else (id, target) ∷ drop_bound engine m

unfoldable pub fail_start : SharedCore → Text → SharedCore
fail_start s tag = detach (record s { targets = remove tag s.targets })

-- `stop` behind the removal of the inlet.
unfoldable pub finish_stop : SharedCore → Text → Text → SharedCore
unfolding drop_bound
finish_stop s engine tag =
    detach (record s { targets = remove tag s.targets; requests = drop_bound engine s.requests })

unfoldable pub forget : SharedCore → Text → SharedCore
forget s engine = record s { tags = remove engine s.tags }

unfoldable pub close : SharedCore → SharedCore
close s = record s { attached = false; targets = []; requests = []; tags = [] }
