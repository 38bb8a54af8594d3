-- ===== src/Inspector/Tests.antt =====
-- Runs of the inspector.
use tapline.Base.{
  ◌+◌, ◌≡◌, refl, true, false, none, List, [], ◌∷◌, text, text_eq, get, put, remove, arith,
}
use tapline.Streams.{Streams}
use tapline.Inspector.{Options, abort, Inspector, fail, begin_session, end_session}
use tapline.Inspector.Messages.{
  requests, closes, fails, responds, Socket, Request, Response, message, on_message, or_fail,
  inlet_error, on_request, on_closed, on_response,
}
use tapline.Inspector.Control.{Happening, comes, step, run, stop}
use tapline.Inspector.Sessions.{IsMatched, ends}
use tapline.Inspector.Ends.{run-IsMatched}
use tapline.Inspector.Settling.{settles, waiting, stop-settles}

abbrev options : Options
options = record {
  parse_url = λ u. none;
  is_ipv6 = λ s. false;
  dynamic_inbounds = false;
  bind_session = λ id inbound. none;
  intercept = λ host inbound. true;
  connects = λ id host port client. true;
  upstream_ca = none;
  insecure_upstream = λ id. false;
}

abbrev idle : Streams
idle = record {
  readers = [];
  credits = [];
  buffered = [];
  acknowledgements = [];
  sending = [];
  sent = [];
  released = [];
  delivered = [];
}

abbrev fresh : Inspector
fresh = record {
  port = 0;
  child = true;
  wire = true;
  stopping = false;
  streams = idle;
  tunnels = [];
  sessions = [];
  websocket_send = true;
  dynamic_inbounds = true;
  controls = (text "c", true) ∷ [];
  pending_sends = (text "s", true) ∷ [];
  sent = [];
  told = [];
  settled = [];
}

abbrev no_socket : Socket
no_socket = record { remote_address = none; remote_port = none; inbound = none }

abbrev asked : Request
asked = record { method = none; url = text "http://a.dev/"; http_version = none; headers = [] }

abbrev got : Response
got = record { status = 200; status_message = none; headers = []; raw_headers = [] }

-- A session that fails, is closed by the core, and whose response comes too late.
abbrev happenings : List Happening
happenings =
    comes (requests (text "a") asked no_socket)
    ∷ comes (fails (text "a") (text "reset"))
    ∷ comes (closes (text "a") true)
    ∷ comes (responds (text "a") got none)
    ∷ []

ends_once : ends (text "a") (run options fresh happenings).told ≡ 1
unfolding run step on_message message or_fail inlet_error on_request on_closed on_response fail
    begin_session end_session get put remove text text_eq
ends_once = refl

too_late : (run options fresh happenings).sent ≡ abort (text "a") ∷ abort (text "a") ∷ []
unfolding run step on_message message or_fail inlet_error on_request on_closed on_response fail
    begin_session end_session get put remove text text_eq
too_late = refl

fresh-IsMatched : IsMatched (text "a") fresh
unfolding get text text_eq
fresh-IsMatched = omega arith

run-IsMatched_example : IsMatched (text "a") (run options fresh happenings)
run-IsMatched_example = run-IsMatched (text "a") options fresh happenings fresh-IsMatched

stop-settles_example :
    (get (text "s") (stop fresh).controls ≡ none)
    × (get (text "s") (stop fresh).pending_sends ≡ none)
    × (settles (text "s") (stop fresh).settled
        ≡ settles (text "s") fresh.settled
          + (waiting (text "s") fresh.controls + waiting (text "s") fresh.pending_sends))
stop-settles_example = stop-settles fresh (text "s") refl
