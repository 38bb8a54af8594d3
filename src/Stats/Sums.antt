-- ===== src/Stats/Sums.antt =====
-- src/webview/lib/stats.ts: the table of hosts against the totals.
use tapline.Base.{
  ℕ, ◌+◌, ◌≡◌, refl, sym, Bool, Option, none, some, List, [], ◌∷◌, Text, Assoc, get, put, length,
  select, arith,
}
use tapline.Filter.{Row}
use tapline.Filter.Rows.{failed}
use tapline.Stats.{
  HostStats, one_if, counted, stats_or_none, add_row, by_host, values, insert_down, sort_down, sum,
  aggregate,
}

module _ {ℓ} {A : Type ℓ} (f : A → ℕ) where
  insert_down-sum : (g : A → ℕ) (a : A) (xs : List A) → sum f (insert_down g a xs) ≡ f a + sum f xs
  unfolding insert_down
  insert_down-sum g a [] = refl
  insert_down-sum g a (b ∷ xs) = ground (arith, insert_down-sum g a xs)

  sort_down-sum : (g : A → ℕ) (xs : List A) → sum f (sort_down g xs) ≡ sum f xs
  unfolding sort_down
  sort_down-sum g [] = refl
  sort_down-sum g (a ∷ xs) = omega (arith, insert_down-sum g a (sort_down g xs), sort_down-sum g xs)

  of_option : Option A → ℕ
  of_option none = 0
  of_option (some a) = f a

  -- A new value counts in the place of the old one.
  put-sum :
      (k : Text) (v : A) (m : Assoc A)
      → sum f (values (put k v m)) + of_option (get k m) ≡ sum f (values m) + f v
  unfolding put get of_option
  put-sum k v [] = omega arith
  put-sum k v ((j, w) ∷ m) = ground (arith, put-sum k v m)

-- A figure of a host grows by what a row adds to it.
module _ (f : HostStats → ℕ) (added : Row → ℕ)
    (grows : (row : Row) (h : HostStats) → f (counted row h) ≡ f h + added row)
    (empty : (host : Text) → f (stats_or_none host none) ≡ 0) where
  add_row-sum :
      (row : Row) (hosts : Assoc HostStats)
      → sum f (values (add_row row hosts)) ≡ sum f (values hosts) + added row
  unfolding add_row of_option
  add_row-sum row hosts =
      let old = get row.host hosts in
      let new = counted row (stats_or_none row.host old) in
      let same : of_option f old ≡ f (stats_or_none row.host old) = by_old old in
      omega (arith, put-sum f row.host new hosts, grows row (stats_or_none row.host old), same)
    where
      by_old : (o : Option HostStats) → of_option f o ≡ f (stats_or_none row.host o)
      by_old none = sym (empty row.host)
      by_old (some h) = refl

  by_host-sum :
      (rows : List Row) (hosts : Assoc HostStats)
      → sum f (values (by_host rows hosts)) ≡ sum f (values hosts) + sum added rows
  unfolding by_host
  by_host-sum [] hosts = omega arith
  by_host-sum (row ∷ rows) hosts =
      omega (arith, by_host-sum rows (add_row row hosts), add_row-sum row hosts)

requests_grow : (row : Row) (h : HostStats) → (counted row h).requests ≡ h.requests + 1
unfolding counted
requests_grow row h = ground arith

errors_grow : (row : Row) (h : HostStats) → (counted row h).errors ≡ h.errors + one_if (failed row)
unfolding counted
errors_grow row h = ground arith

sent_grow : (row : Row) (h : HostStats) → (counted row h).sent ≡ h.sent + row.request_bytes
unfolding counted
sent_grow row h = ground arith

received_grow :
    (row : Row) (h : HostStats) → (counted row h).received ≡ h.received + row.response_bytes
unfolding counted
received_grow row h = ground arith

sum-one : (rows : List Row) → sum (λ (r : Row). 1) rows ≡ length rows
sum-one [] = refl
sum-one (r ∷ rows) = omega (arith, sum-one rows)

sum-one_if :
    (p : Row → Bool) (rows : List Row) → sum (λ r. one_if (p r)) rows ≡ length (select p rows)
sum-one_if p [] = refl
sum-one_if p (r ∷ rows) = ground (arith, sum-one_if p rows)

-- The figures of the hosts add up to those of all rows: the requests, the errors, and the bytes that
-- were sent and received.
pub aggregate-sum :
    (rows : List Row)
    → (sum (λ h. h.requests) (aggregate rows).hosts ≡ (aggregate rows).requests)
      × (sum (λ h. h.errors) (aggregate rows).hosts ≡ (aggregate rows).errors)
      × (sum (λ h. h.sent) (aggregate rows).hosts ≡ (aggregate rows).sent)
      × (sum (λ h. h.received) (aggregate rows).hosts ≡ (aggregate rows).received)
unfolding aggregate
aggregate-sum rows =
    let sorted =
      λ (f : HostStats → ℕ). sort_down-sum f (λ h. h.requests) (values (by_host rows [])) in
    (
      omega (
        arith,
        sorted (λ h. h.requests),
        by_host-sum (λ h. h.requests) (λ r. 1) requests_grow (λ host. refl) rows [],
        sum-one rows,
      ),
      omega (
        arith,
        sorted (λ h. h.errors),
        by_host-sum (λ h. h.errors) (λ r. one_if (failed r)) errors_grow (λ host. refl) rows [],
        sum-one_if (λ r. failed r) rows,
      ),
      omega (
        arith,
        sorted (λ h. h.sent),
        by_host-sum (λ h. h.sent) (λ r. r.request_bytes) sent_grow (λ host. refl) rows [],
      ),
      omega (
        arith,
        sorted (λ h. h.received),
        by_host-sum (λ h. h.received) (λ r. r.response_bytes) received_grow (λ host. refl) rows [],
      ),
    )
