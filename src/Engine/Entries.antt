-- ===== src/Engine/Entries.antt =====
-- src/core/engine.ts: how many transactions are kept.
use tapline.Base.{
  ℕ, suc, ◌≤◌, ◌≡◌, refl, ap, Bool-cases, inl, inr, List, [], ◌∷◌, Text, Assoc, put, length,
  length-put_hit, length-remove-le, Entries, ltb, arith,
}
use tapline.Model.{Transaction, Settings}
use tapline.Engine.{Engine, Platform, Clock, evict}
use tapline.Engine.Lifecycle.{Call, run, connects, requests, websockets}
use tapline.Engine.Keeping.{Keeper}
use tapline.Engine.Keeping.Calls.{Opens, OpensAll, run-keeps}

length-evict : (most : ℕ) (m : Assoc Transaction) → length (evict most m).0 ≤ most
unfolding evict
length-evict most [] = omega arith
length-evict most ((k, t) ∷ m) = ground (arith, length-evict most m)

-- What holds of every entry holds of those that stay.
pub Entries-evict :
    (P : Text → Transaction → Type 0) (most : ℕ) (m : Assoc Transaction)
    → Entries P m
    → Entries P (evict most m).0
unfolding evict
Entries-evict P most [] all = all
Entries-evict P most ((k, t) ∷ m) (here, all) = elim (Bool-cases (ltb most (suc (length m)))) [
  | inl more ↦ rw more (Entries-evict P most m all)
  | inr fits ↦ rw fits (here, all)
]

abbrev IsAny : Text → Type 0
IsAny k = Unit {0}

Opens-IsAny : (c : Call) → Opens IsAny c
Opens-IsAny (connects id host port client) = tt
Opens-IsAny (requests id asked) = tt
Opens-IsAny (websockets id url headers client) = tt
Opens-IsAny c = tt

opens-IsAny_all : (calls : List (Clock × Call)) → OpensAll IsAny calls
opens-IsAny_all [] = tt
opens-IsAny_all ((now, c) ∷ calls) = (Opens-IsAny c, opens-IsAny_all calls)

abbrev IsBounded : Settings → Settings → Assoc Transaction → Type 0
IsBounded s s' m = (s' ≡ s) × (length m ≤ s.max_entries)

IsBounded-keeper : (s : Settings) → Keeper (IsBounded s) IsAny
IsBounded-keeper s = record {
  write = λ s' m id t t' found w b. (b.0, omega (arith, length-put_hit id t' t m found, b.1));
  insert = λ s' m id t new named b. (
    b.0,
    omega
        (arith, length-evict s'.max_entries (put id t m), ap (λ (x : Settings). x.max_entries) b.0),
  );
  drop = λ s' m id b. (b.0, omega (arith, length-remove-le id m, b.1));
  empty = λ s' m b. (b.0, omega arith);
}

-- Whatever calls reach an engine with at most `max_entries` transactions, it has at most that many
-- after them.
pub run-entries-le :
    (p : Platform) (e : Engine) (calls : List (Clock × Call))
    → length e.transactions ≤ e.settings.max_entries
    → length (run p e calls).transactions ≤ e.settings.max_entries
run-entries-le p e calls fits =
    (run-keeps (IsBounded-keeper e.settings) p e calls (opens-IsAny_all calls) (refl, fits)).1
