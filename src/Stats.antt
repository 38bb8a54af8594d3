-- ===== src/Stats.antt =====
-- src/webview/lib/stats.ts: the figures of the statistics pane. Durations are in tenths of a
-- millisecond, and the stable sort of the language is insertion from the end.
pub mod Sums
mod Tests
use tapline.Base.{
  ℕ, suc, ◌+◌, Bool, true, false, not, ◌&&◌, Option, none, some, List, [], ◌∷◌, Text, text, text_eq,
  Assoc, get, put, length, take, select, leb, if◌then◌else◌,
}
use tapline.Model.{TransactionState, pending, completed, error}
use tapline.Filter.{Row}
use tapline.Filter.Rows.{failed}

pub record HostStats : Type 0 where
  pub host : Text
  pub requests : ℕ
  pub errors : ℕ
  pub pending : ℕ
  pub total : ℕ
  pub max : ℕ
  pub sent : ℕ
  pub received : ℕ

abbrev no_stats : Text → HostStats
no_stats host = record {
  host = host;
  requests = 0;
  errors = 0;
  pending = 0;
  total = 0;
  max = 0;
  sent = 0;
  received = 0;
}

abbrev pub is_pending : TransactionState → Bool
is_pending TransactionState.pending = true
is_pending completed = false
is_pending error = false

abbrev larger : ℕ → ℕ → ℕ
larger a b = if leb a b then b else a

abbrev timed : Row → HostStats → HostStats
timed row h =
    if is_pending row.state
    then record h { pending = suc h.pending }
    else record h { total = h.total + row.duration; max = larger h.max row.duration }

abbrev pub one_if : Bool → ℕ
one_if true = 1
one_if false = 0

-- A row is counted for its host.
unfoldable pub counted : Row → HostStats → HostStats
counted row h =
    let h' = timed row (record h { requests = suc h.requests }) in
    record h' {
      errors = h'.errors + one_if (failed row);
      sent = h'.sent + row.request_bytes;
      received = h'.received + row.response_bytes;
    }

abbrev pub stats_or_none : Text → Option HostStats → HostStats
stats_or_none host none = no_stats host
stats_or_none host (some h) = h

unfoldable pub add_row : Row → Assoc HostStats → Assoc HostStats
unfolding counted
add_row row hosts = put row.host (counted row (stats_or_none row.host (get row.host hosts))) hosts

unfoldable pub by_host : List Row → Assoc HostStats → Assoc HostStats
unfolding add_row
by_host [] hosts = hosts
by_host (row ∷ rows) hosts = by_host rows (add_row row hosts)

abbrev pub values {ℓ} : {A : Type ℓ} → Assoc A → List A
values [] = []
values ((k, a) ∷ m) = a ∷ values m

-- `sort((a, b) => b.f - a.f)`.
unfoldable pub insert_down {ℓ} : {A : Type ℓ} → (A → ℕ) → A → List A → List A
insert_down f a [] = a ∷ []
insert_down f a (b ∷ xs) =
    let rest = insert_down f a xs in if leb (f b) (f a) then a ∷ b ∷ xs else b ∷ rest

unfoldable pub sort_down {ℓ} : {A : Type ℓ} → (A → ℕ) → List A → List A
unfolding insert_down
sort_down f [] = []
sort_down f (a ∷ xs) = insert_down f a (sort_down f xs)

abbrev pub sum {ℓ} : {A : Type ℓ} → (A → ℕ) → List A → ℕ
sum f [] = 0
sum f (a ∷ xs) = f a + sum f xs

pub record Aggregate : Type 0 where
  pub hosts : List HostStats
  pub slowest : List Row
  pub largest : List Row
  pub requests : ℕ
  pub errors : ℕ
  pub sent : ℕ
  pub received : ℕ
  pub total_time : ℕ

unfoldable pub aggregate : List Row → Aggregate
unfolding by_host sort_down
aggregate rows =
    let done =
      select (λ r. not (is_pending r.state) && not (text_eq r.scheme (text "connect"))) rows in
    record {
      hosts = sort_down (λ h. h.requests) (values (by_host rows []));
      slowest = take 10 (sort_down (λ r. r.duration) done);
      largest = take 10 (sort_down (λ r. r.response_bytes) done);
      requests = length rows;
      errors = length (select (λ r. failed r) rows);
      sent = sum (λ r. r.request_bytes) rows;
      received = sum (λ r. r.response_bytes) rows;
      total_time = sum (λ r. r.duration) done;
    }
