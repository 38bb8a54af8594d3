-- ===== src/Engine/Finished.antt =====
-- src/core/engine.ts: a transaction that is finished stays as it finished.
use tapline.Base.{
  ◌≡◌, refl, sym, ◌∙◌, some, List, Text, get, put, Entries, Entries-put, Entries-remove,
  Entries-get,
}
use tapline.Model.{Transaction, pending}
use tapline.Engine.{Engine, Platform, Clock}
use tapline.Engine.Lifecycle.{Call, run}
use tapline.Engine.Entries.{Entries-evict}
use tapline.Engine.Keeping.{Keeper, IsWrite, Same}
use tapline.Engine.Keeping.Calls.{OpensAll, run-keeps}

-- What is found under `id` has the outcome of `u`.
abbrev pub Shows : Text → Transaction → Text → Transaction → Type 0
Shows id u k t = k ≡ id → Same u t

-- A call opens another id.
abbrev pub IsOther : Text → Text → Type 0
IsOther id k = ¬ (k ≡ id)

Same-trans : (t t' t'' : Transaction) → Same t t' → Same t' t'' → Same t t''
Same-trans t t' t'' a b = record {
  state = b.state ∙ a.state;
  failed_with = b.failed_with ∙ a.failed_with;
  duration = b.duration ∙ a.duration;
}

module _ (id : Text) (u : Transaction) (finished : ¬ (u.state ≡ pending)) where
  Shows-write : (k : Text) (t t' : Transaction) → Shows id u k t → IsWrite t t' → Shows id u k t'
  Shows-write k t t' shows w here =
      let same = shows here in
      Same-trans u t t' same (w.finished (λ still. finished (sym same.state ∙ still)))

  Shows-keeper : Keeper (λ s m. Entries (Shows id u) m) (IsOther id)
  Shows-keeper = record {
    write = λ s m k t t' found w b.
        Entries-put (Shows id u) k t' m
          (Shows-write k t t' (Entries-get (Shows id u) k t m b found) w) b;
    insert = λ s m k t new named b.
        Entries-evict (Shows id u) s.max_entries (put k t m)
          (Entries-put (Shows id u) k t m (λ here. elim (new here) [ ]) b);
    drop = λ s m k b. Entries-remove (Shows id u) k m b;
    empty = λ s m b. tt;
  }

  -- Of a transaction `u` that is finished, whatever calls follow, as long as none opens its id
  -- again, what is found under its id has the state, the error and the duration of `u`.
  pub run-finished :
      (p : Platform) (e : Engine) (calls : List (Clock × Call)) (t : Transaction)
      → Entries (Shows id u) e.transactions
      → OpensAll (IsOther id) calls
      → get id (run p e calls).transactions ≡ some t
      → Same u t
  run-finished p e calls t shows others found =
      Entries-get (Shows id u) id t (run p e calls).transactions
        (run-keeps Shows-keeper p e calls others shows) found refl
