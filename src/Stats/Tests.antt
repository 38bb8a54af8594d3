-- ===== src/Stats/Tests.antt =====
-- A run of the statistics.
use tapline.Base.{◌≡◌, refl, true, false, none, some, List, [], ◌∷◌, map, text, text_eq, get, put}
use tapline.Model.{completed}
use tapline.Filter.{Row}
use tapline.Stats.{aggregate, sum, by_host, add_row, counted, sort_down, insert_down}
use tapline.Stats.Sums.{aggregate-sum}

abbrev page : Row
page = record {
  note = none;
  marked = false;
  id = text "a";
  sequence = 1;
  timestamp = 0;
  method = text "GET";
  host = text "a.dev";
  server_address = none;
  path = text "/";
  url = text "https://a.dev/";
  scheme = text "https";
  http_version = none;
  state = completed;
  status = some 404;
  duration = 30;
  request_bytes = 5;
  response_bytes = 70;
  tls = true;
  failed_with = none;
  replay_of = none;
  paused = none;
  answered_locally = false;
  content_type = [];
  websocket = false;
  events = none;
  grpc = false;
  grpc_status = none;
  rules = 0;
}

abbrev other : Row
other = record page { host = text "b.dev"; status = some 200; duration = 40 }

abbrev rows : List Row
rows = other ∷ page ∷ page ∷ []

busiest_first : map (λ h. h.requests) (aggregate rows).hosts ≡ 2 ∷ 1 ∷ []
unfolding aggregate by_host add_row counted sort_down insert_down get put text text_eq
busiest_first = refl

slowest_first : map (λ r. r.duration) (aggregate rows).slowest ≡ 40 ∷ 30 ∷ 30 ∷ []
unfolding aggregate by_host add_row counted sort_down insert_down get put text text_eq
slowest_first = refl

aggregate-sum_example :
    (sum (λ h. h.requests) (aggregate rows).hosts ≡ (aggregate rows).requests)
    × (sum (λ h. h.errors) (aggregate rows).hosts ≡ (aggregate rows).errors)
    × (sum (λ h. h.sent) (aggregate rows).hosts ≡ (aggregate rows).sent)
    × (sum (λ h. h.received) (aggregate rows).hosts ≡ (aggregate rows).received)
aggregate-sum_example = aggregate-sum rows
