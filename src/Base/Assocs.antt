-- ===== src/Base/Assocs.antt =====
-- A JavaScript `Map` with text keys: entries in insertion order.
use Prim.Native.Nat.{suc, ◌≤◌}
use mathlib.Core.Path.{subst, subst₂, sym, ◌≡◌, refl}
use mathlib.Core.List.{List, [], ◌∷◌}
use mathlib.Core.Option.{some-injective, Option, none, some}
use native.Mathlib.Omega.{arith}
use mathlib.Core.Logic.{inl, inr}
use tapline.Base.Tests.{Bool-cases, if◌then◌else◌}
use tapline.Base.Lists.{length}
use tapline.Base.Texts.{Text, text_eq, text_eq_iff, text_eq_refl}

abbrev pub Assoc {ℓ} : Type ℓ → Type ℓ
Assoc V = List (Text × V)

module _ {ℓ} {V : Type ℓ} where
  unfoldable pub get : Text → Assoc V → Option V
  get k [] = none
  get k ((j, v) ∷ m) = if text_eq j k then some v else get k m

  -- A key that is there keeps its place; a new one goes to the end.
  unfoldable pub put : Text → V → Assoc V → Assoc V
  put k v [] = (k, v) ∷ []
  put k v ((j, w) ∷ m) = if text_eq j k then (j, v) ∷ m else (j, w) ∷ put k v m

  unfoldable pub remove : Text → Assoc V → Assoc V
  remove k [] = []
  remove k ((j, w) ∷ m) = if text_eq j k then remove k m else (j, w) ∷ remove k m

  pub get-put :
      (k j : Text) (v : V) (m : Assoc V)
      → get j (put k v m) ≡ (if text_eq k j then some v else get j m)
  unfolding get put
  get-put k j v [] = refl
  get-put k j v ((i, w) ∷ m) =
      ground (arith, text_eq_iff k j, text_eq_iff i k, text_eq_iff i j, get-put k j v m)

  pub get-put_self : (k : Text) (v : V) (m : Assoc V) → get k (put k v m) ≡ some v
  get-put_self k v m = simp (get-put, text_eq_refl)

  pub get-remove :
      (k j : Text) (m : Assoc V) → get j (remove k m) ≡ (if text_eq k j then none else get j m)
  unfolding get remove
  get-remove k j [] = ground arith
  get-remove k j ((i, w) ∷ m) =
      ground (arith, text_eq_iff k j, text_eq_iff i k, text_eq_iff i j, get-remove k j m)

  pub get-remove_self : (k : Text) (m : Assoc V) → get k (remove k m) ≡ none
  get-remove_self k m = simp (get-remove, text_eq_refl)

  pub length-put-le : (k : Text) (v : V) (m : Assoc V) → length (put k v m) ≤ suc (length m)
  unfolding put
  length-put-le k v [] = omega arith
  length-put-le k v ((j, w) ∷ m) = ground (arith, length-put-le k v m)

  pub length-put_hit :
      (k : Text) (v w : V) (m : Assoc V) → get k m ≡ some w → length (put k v m) ≡ length m
  unfolding get put
  length-put_hit k v w [] h = cc
  length-put_hit k v w ((j, u) ∷ m) h = ground (arith, length-put_hit k v w m)

  pub length-remove-le : (k : Text) (m : Assoc V) → length (remove k m) ≤ length m
  unfolding remove
  length-remove-le k [] = omega arith
  length-remove-le k ((j, w) ∷ m) = ground (arith, length-remove-le k m)

module _ {ℓ κ} {V : Type ℓ} (P : Text → V → Type κ) where
  abbrev pub Entries : Assoc V → Type κ
  Entries [] = Unit
  Entries ((k, v) ∷ m) = P k v × Entries m

  -- A key is replaced by an equal one, so `P` of the new value at `k` is enough.
  pub Entries-put : (k : Text) (v : V) (m : Assoc V) → P k v → Entries m → Entries (put k v m)
  unfolding put
  Entries-put k v [] h all = (h, tt)
  Entries-put k v ((j, w) ∷ m) h (old, all) = elim (Bool-cases (text_eq j k)) [
    | inl same ↦ rw same (subst (λ i. P i v) (sym ((text_eq_iff j k).0 same)) h, all)
    | inr other ↦ rw other (old, Entries-put k v m h all)
  ]

  pub Entries-remove : (k : Text) (m : Assoc V) → Entries m → Entries (remove k m)
  unfolding remove
  Entries-remove k [] all = tt
  Entries-remove k ((j, w) ∷ m) (old, all) = elim (Bool-cases (text_eq j k)) [
    | inl same ↦ rw same (Entries-remove k m all)
    | inr other ↦ rw other (old, Entries-remove k m all)
  ]

  pub Entries-get : (k : Text) (v : V) (m : Assoc V) → Entries m → get k m ≡ some v → P k v
  unfolding get
  Entries-get k v [] all e = cc
  Entries-get k v ((j, w) ∷ m) (old, all) e = elim (Bool-cases (text_eq j k)) [
    | inl same ↦ subst₂ P ((text_eq_iff j k).0 same) (some-injective w v (rw same at e)) old
    | inr other ↦ Entries-get k v m all (rw other at e)
  ]
