-- ===== src/Streams/Cancelling.antt =====
-- src/core/streams.ts: what `cancel` and `close` let go.
use tapline.Base.{
  ℕ, ◌+◌, ◌≡◌, refl, sym, subst, ◌&&◌, ◌∙◌, ap, inl, inr, ◌⊎◌, Bool-cases, Bool, true, false, none,
  some, [], ◌∷◌, ◌++◌, Text, text_eq, text_eq_iff, starts_with, Assoc, get, remove, get-put,
  get-remove, List, if◌then◌else◌, arith,
}
use tapline.Streams.{
  Streams, Waiter, piping, writing, noted, write, write_next, writes_of, release, cancel,
  cancel_sending, cancel_credits, cancel_readers, without,
}

abbrev pub one_if : Bool → ℕ
one_if true = 1
one_if false = 0

-- The entries under a key.
unfoldable pub count {ℓ} : {V : Type ℓ} → Text → Assoc V → ℕ
count id [] = 0
count id ((k, v) ∷ m) = one_if (text_eq k id) + count id m

same_prefix :
    (prefix k id : Text) → text_eq k id ≡ true → starts_with prefix k ≡ starts_with prefix id
same_prefix prefix k id same = ap (λ r. starts_with prefix r) ((text_eq_iff k id).0 same)

module _ {ℓ} {V : Type ℓ} where
  pub count-append : (id : Text) (m n : Assoc V) → count id (m ++ n) ≡ count id m + count id n
  unfolding count
  count-append id [] n = omega arith
  count-append id ((k, v) ∷ m) n = omega (arith, count-append id m n)

  get-without :
      (prefix id : Text) (m : Assoc V)
      → get id (without prefix m) ≡ (if starts_with prefix id then none else get id m)
  unfolding get without
  get-without prefix id [] = ground arith
  get-without prefix id ((k, v) ∷ m) =
      ground (arith, same_prefix prefix k id, get-without prefix id m)

  without-none :
      (prefix id : Text) (m : Assoc V)
      → starts_with prefix id ≡ true
      → get id (without prefix m) ≡ none
  without-none prefix id m h = ground (arith, get-without prefix id m, h)

  without-get :
      (prefix id : Text) (m : Assoc V)
      → starts_with prefix id ≡ false
      → get id (without prefix m) ≡ get id m
  without-get prefix id m h = ground (arith, get-without prefix id m, h)

  -- The entries under a key, if a cancel of the prefix reaches it.
  count_if : Text → Text → Assoc V → ℕ
  count_if prefix id m = if starts_with prefix id then count id m else 0

get-cancel_sending :
    (prefix id : Text) (m : Assoc Bool)
    → starts_with prefix id ≡ true
    → (get id (cancel_sending prefix m) ≡ none) ⊎ (get id (cancel_sending prefix m) ≡ some true)
unfolding get cancel_sending
get-cancel_sending prefix id [] h = inl refl
get-cancel_sending prefix id ((k, c) ∷ m) h = elim (Bool-cases (text_eq k id)) [
  | inl same ↦
      let there : starts_with prefix k ≡ true = same_prefix prefix k id same ∙ h in
      rw (same, there) (inr refl)
  | inr other ↦ rw other (get-cancel_sending prefix id m h)
]

-- What letting one waiter go leaves as it was.
record IsKept (s s' : Streams) : Type 0 where
  sending : s'.sending ≡ s.sending
  readers : s'.readers ≡ s.readers
  acknowledgements : s'.acknowledgements ≡ s.acknowledgements

write_next-IsKept :
    (s : Streams) (id : Text) (writes : List (List ℕ)) → IsKept s (write_next s id writes)
unfolding write_next write
write_next-IsKept s id [] = record { sending = refl; readers = refl; acknowledgements = refl }
write_next-IsKept s id (bytes ∷ writes) = record {
  sending = refl;
  readers = refl;
  acknowledgements = refl;
}

release-IsKept : (s : Streams) (id : Text) (waiter : Waiter) → IsKept s (release s id waiter)
unfolding release
release-IsKept s id (piping left) = record {
  sending = refl;
  readers = refl;
  acknowledgements = refl;
}
release-IsKept s id writing =
    let k = write_next-IsKept (noted s id writing) id (writes_of (get id s.buffered)) in
    record { sending = k.sending; readers = k.readers; acknowledgements = k.acknowledgements }

write_next-released :
    (s : Streams) (id : Text) (writes : List (List ℕ))
    → (write_next s id writes).released ≡ s.released
unfolding write_next write
write_next-released s id [] = refl
write_next-released s id (bytes ∷ writes) = refl

release-released :
    (s : Streams) (id : Text) (waiter : Waiter)
    → (release s id waiter).released ≡ s.released ++ (id, waiter) ∷ []
unfolding release
release-released s id (piping left) = refl
release-released s id writing =
    write_next-released (noted s id writing) id (writes_of (get id s.buffered))

write_next-other :
    (s : Streams) (k id : Text) (writes : List (List ℕ))
    → text_eq k id ≡ false
    → get id (write_next s k writes).credits ≡ get id s.credits
unfolding write_next write
write_next-other s k id [] differs = refl
write_next-other s k id (bytes ∷ writes) differs =
    ground (arith, get-put k id writing s.credits, differs)

release-other :
    (s : Streams) (k id : Text) (waiter : Waiter)
    → text_eq k id ≡ false
    → get id (release s k waiter).credits ≡ get id s.credits
unfolding release
release-other s k id (piping left) differs = refl
release-other s k id writing differs =
    write_next-other (noted s k writing) k id (writes_of (get k s.buffered)) differs

-- One waiter is let go, and then deleted.
released_one : Streams → Text → Waiter → Streams
released_one s id waiter =
    let s' = release s id waiter in record s' { credits = remove id s'.credits }

released_one-get :
    (s : Streams) (k id : Text) (waiter : Waiter)
    → get id (released_one s k waiter).credits ≡ (if text_eq k id then none else get id s.credits)
unfolding released_one
released_one-get s k id waiter = elim (Bool-cases (text_eq k id)) [
  | inl same ↦ ground (arith, get-remove k id (release s k waiter).credits, same)
  | inr other ↦ ground (
    arith,
    get-remove k id (release s k waiter).credits,
    release-other s k id waiter other,
    other,
  )
]

-- The loop over the waiters.
module _ (prefix id : Text) where
  step_released : Text → Waiter → Streams → Streams
  step_released k waiter s = if starts_with prefix k then released_one s k waiter else s

  step-IsKept : (s : Streams) (k : Text) (waiter : Waiter) → IsKept s (step_released k waiter s)
  unfolding step_released released_one
  step-IsKept s k waiter = elim (Bool-cases (starts_with prefix k)) [
    | inl there ↦
        let kept = release-IsKept s k waiter in
        rw there (record {
          sending = kept.sending;
          readers = kept.readers;
          acknowledgements = kept.acknowledgements;
        })
    | inr other ↦ rw other (record { sending = refl; readers = refl; acknowledgements = refl })
  ]

  loop-IsKept : (s : Streams) (m : Assoc Waiter) → IsKept s (cancel_credits prefix m s)
  unfolding cancel_credits step_released released_one
  loop-IsKept s [] = record { sending = refl; readers = refl; acknowledgements = refl }
  loop-IsKept s ((k, waiter) ∷ m) =
      let once = step-IsKept s k waiter in
      let rest = loop-IsKept (step_released k waiter s) m in
      record {
        sending = rest.sending ∙ once.sending;
        readers = rest.readers ∙ once.readers;
        acknowledgements = rest.acknowledgements ∙ once.acknowledgements;
      }

  step-released :
      (s : Streams) (k : Text) (waiter : Waiter)
      → count id (step_released k waiter s).released
        ≡ count id s.released + (if starts_with prefix k then one_if (text_eq k id) else 0)
  unfolding step_released released_one count
  step-released s k waiter =
      ground (arith, release-released s k waiter, count-append id s.released ((k, waiter) ∷ []))

  loop-released :
      (s : Streams) (m : Assoc Waiter)
      → count id (cancel_credits prefix m s).released ≡ count id s.released + count_if prefix id m
  unfolding cancel_credits count count_if step_released released_one
  loop-released s [] = ground arith
  loop-released s ((k, waiter) ∷ m) = ground (
    arith,
    loop-released (step_released k waiter s) m,
    step-released s k waiter,
    same_prefix prefix k id,
  )

  step-get :
      (s : Streams) (k : Text) (waiter : Waiter)
      → get id (step_released k waiter s).credits
        ≡ (if starts_with prefix k && text_eq k id then none else get id s.credits)
  unfolding step_released
  step-get s k waiter = ground (arith, released_one-get s k id waiter)

  loop-other :
      (s : Streams) (m : Assoc Waiter)
      → starts_with prefix id ≡ false
      → get id (cancel_credits prefix m s).credits ≡ get id s.credits
  unfolding cancel_credits step_released released_one
  loop-other s [] h = refl
  loop-other s ((k, waiter) ∷ m) h = ground (
    arith,
    loop-other (step_released k waiter s) m h,
    step-get s k waiter,
    same_prefix prefix k id,
  )

  loop-gone :
      (s : Streams) (m : Assoc Waiter)
      → get id s.credits ≡ none
      → get id (cancel_credits prefix m s).credits ≡ none
  unfolding cancel_credits step_released released_one
  loop-gone s [] h = h
  loop-gone s ((k, waiter) ∷ m) h =
      loop-gone (step_released k waiter s) m (ground (arith, step-get s k waiter, h))

  -- Where the loop goes through all that waits, nobody waits behind it under an id that it meets.
  loop-none :
      (s : Streams) (m : Assoc Waiter)
      → starts_with prefix id ≡ true
      → get id m ≡ get id s.credits
      → get id (cancel_credits prefix m s).credits ≡ none
  unfolding cancel_credits step_released released_one get
  loop-none s [] p e = sym e
  loop-none s ((k, waiter) ∷ m) p e = elim (Bool-cases (text_eq k id)) [
    | inl same ↦
        loop-gone (step_released k waiter s) m
          (ground (arith, step-get s k waiter, same_prefix prefix k id same, same, p))
    | inr other ↦
        loop-none (step_released k waiter s) m p
          (ground (arith, step-get s k waiter, other, rw other at e))
  ]

-- After a cancel of an id's prefix the id has no reader, nobody waits for its credit and none is
-- owed, its `pipe` is gone or knows that it is cancelled, and each that waited before was let go
-- once. The last does not count a write that a Writable begins when it is let go.
pub cancel-under :
    (s : Streams) (prefix id : Text)
    → starts_with prefix id ≡ true
    → (get id (cancel s prefix).readers ≡ none)
      × (get id (cancel s prefix).credits ≡ none)
      × (get id (cancel s prefix).acknowledgements ≡ none)
      × ((get id (cancel s prefix).sending ≡ none) ⊎ (get id (cancel s prefix).sending ≡ some true))
      × (count id (cancel s prefix).released ≡ count id s.released + count id s.credits)
unfolding cancel count_if
cancel-under s prefix id h =
    let s' = cancel_readers prefix s in
    let kept = loop-IsKept prefix id s' s.credits in
    (
      ap (get id) kept.readers ∙ without-none prefix id s.readers h,
      loop-none prefix id s' s.credits h refl,
      ap (λ a. get id (without prefix a)) kept.acknowledgements
          ∙ without-none prefix id s.acknowledgements h,
      subst (λ m. (get id m ≡ none) ⊎ (get id m ≡ some true)) (sym kept.sending)
          (get-cancel_sending prefix id s.sending h),
      ground (arith, loop-released prefix id s' s.credits, h),
    )

-- A cancel of another prefix leaves an id's reader, its waiter, its acknowledgement and what was
-- let go under it.
pub cancel-other :
    (s : Streams) (prefix id : Text)
    → starts_with prefix id ≡ false
    → (get id (cancel s prefix).readers ≡ get id s.readers)
      × (get id (cancel s prefix).credits ≡ get id s.credits)
      × (get id (cancel s prefix).acknowledgements ≡ get id s.acknowledgements)
      × (count id (cancel s prefix).released ≡ count id s.released)
unfolding cancel count_if
cancel-other s prefix id h =
    let s' = cancel_readers prefix s in
    let kept = loop-IsKept prefix id s' s.credits in
    (
      ap (get id) kept.readers ∙ without-get prefix id s.readers h,
      loop-other prefix id s' s.credits h,
      ap (λ a. get id (without prefix a)) kept.acknowledgements
          ∙ without-get prefix id s.acknowledgements h,
      ground (arith, loop-released prefix id s' s.credits, h),
    )
