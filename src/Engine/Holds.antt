-- ===== src/Engine/Holds.antt =====
-- src/core/engine.ts: the requests and responses that wait at a breakpoint.
use tapline.Base.{
  ℕ, ◌+◌, Bool, true, false, subst, any, ◌≡◌, refl, ◌∙◌, ap, inl, inr, Bool-cases, Option-cases,
  Option, none, some, List, [], ◌∷◌, ◌++◌, Text, text, text_eq, text_eq_iff, Assoc, get, remove,
  get-remove, get-remove_self, if◌then◌else◌, arith,
}
use tapline.Model.{Phase, BreakpointEdit}
use tapline.Engine.{
  Engine, release, release_all, keys, clear, Answer, aborted, edited, refused, emit_event,
}
use tapline.Engine.Lifecycle.{resume, abort, begin_stop, after}

-- Nobody waits under an id.
abbrev pub IsFree : Engine → Text → Type 0
IsFree e id = get id e.holds ≡ none

missing :
    (id j : Text) (m : Assoc Phase)
    → get id m ≡ none
    → get j m ≡ (if text_eq id j then none else get j m)
missing id j m free = elim (Bool-cases (text_eq id j)) [
  | inl same ↦ rw same (subst (λ k. get k m ≡ none) ((text_eq_iff id j).0 same) free)
  | inr other ↦ rw other refl
]

release-get :
    (e : Engine) (id j : Text)
    → get j (release e id).holds ≡ (if text_eq id j then none else get j e.holds)
unfolding release
release-get e id j = elim (Option-cases (get id e.holds)) [
  | inl free ↦ rw (free, release) (missing id j e.holds free)
  | inr (phase, held) ↦ rw (held, release) (get-remove id j e.holds)
]

abbrev held : Option Phase → ℕ
held none = 0
held (some phase) = 1

abbrev one_if : Bool → ℕ
one_if true = 1
one_if false = 0

-- The answers that were given under an id.
unfoldable pub answers : Text → List (Text × Answer) → ℕ
answers id [] = 0
answers id ((k, a) ∷ l) = one_if (text_eq k id) + answers id l

-- Those that were given and those that are due.
unfoldable pub dealt : Engine → Text → ℕ
dealt e id = answers id e.resolved + held (get id e.holds)

answers-append :
    (id k : Text) (a : Answer) (l : List (Text × Answer))
    → answers id (l ++ (k, a) ∷ []) ≡ answers id l + one_if (text_eq k id)
unfolding answers
answers-append id k a [] = omega arith
answers-append id k a ((j, b) ∷ l) = omega (arith, answers-append id k a l)

taken :
    (id j : Text) (phase : Phase) (m : Assoc Phase)
    → get id m ≡ some phase
    → one_if (text_eq id j) + held (get j (remove id m)) ≡ held (get j m)
taken id j phase m waits = elim (Bool-cases (text_eq id j)) [
  | inl same ↦
      let there : get j m ≡ some phase =
        subst (λ k. get k m ≡ some phase) ((text_eq_iff id j).0 same) waits in
      let gone : get j (remove id m) ≡ none =
        subst (λ k. get k (remove id m) ≡ none) ((text_eq_iff id j).0 same)
          (get-remove_self id m) in
      rw (same, there, gone) refl
  | inr other ↦
      let kept : get j (remove id m) ≡ get j m = ground (arith, get-remove id j m, other) in
      rw (other, kept) (omega arith)
]

release-dealt : (e : Engine) (id j : Text) → dealt (release e id) j ≡ dealt e j
unfolding release dealt
release-dealt e id j = elim (Option-cases (get id e.holds)) [
  | inl free ↦ rw (free, release) refl
  | inr (phase, waits) ↦
      rw (waits, release)
        (omega (arith, answers-append j id aborted e.resolved, taken id j phase e.holds waits))
]

release_all-dealt :
    (ids : List Text) (e : Engine) (j : Text) → dealt (release_all ids e) j ≡ dealt e j
unfolding release_all
release_all-dealt [] e j = refl
release_all-dealt (id ∷ ids) e j = release_all-dealt ids (release e id) j ∙ release-dealt e id j

release_all-IsFree_kept :
    (ids : List Text) (e : Engine) (j : Text) → IsFree e j → IsFree (release_all ids e) j
unfolding release_all
release_all-IsFree_kept [] e j free = free
release_all-IsFree_kept (id ∷ ids) e j free =
    release_all-IsFree_kept ids (release e id) j (ground (arith, release-get e id j, free))

release_all-IsFree :
    (ids : List Text) (e : Engine) (j : Text)
    → any (λ k. text_eq k j) ids ≡ true
    → IsFree (release_all ids e) j
unfolding release_all
release_all-IsFree [] e j h = cc
release_all-IsFree (id ∷ ids) e j h = elim (Bool-cases (text_eq id j)) [
  | inl same ↦
      release_all-IsFree_kept ids (release e id) j (ground (arith, release-get e id j, same))
  | inr other ↦ release_all-IsFree ids (release e id) j (rw other at h)
]

keys-missing :
    (m : Assoc Phase) (j : Text) → any (λ k. text_eq k j) (keys m) ≡ false → get j m ≡ none
unfolding get
keys-missing [] j h = refl
keys-missing ((k, v) ∷ m) j h = ground (arith, keys-missing m j)

release_keys-IsFree : (e : Engine) (j : Text) → IsFree (release_all (keys e.holds) e) j
release_keys-IsFree e j = elim (Bool-cases (any (λ k. text_eq k j) (keys e.holds))) [
  | inl there ↦ release_all-IsFree (keys e.holds) e j there
  | inr gone ↦ release_all-IsFree_kept (keys e.holds) e j (keys-missing e.holds j gone)
]

release_keys-answers :
    (e : Engine) (id : Text) → answers id (release_all (keys e.holds) e).resolved ≡ dealt e id
unfolding dealt
release_keys-answers e id =
    omega (arith, release_all-dealt (keys e.holds) e id, ap held (release_keys-IsFree e id))

-- After a stop nobody waits under any id, and under every id there are as many answers as there
-- were answers and waiting handlers before: each that waited got one.
pub begin_stop-answers :
    (e : Engine) (id : Text)
    → IsFree (begin_stop e) id × (answers id (begin_stop e).resolved ≡ dealt e id)
unfolding begin_stop dealt
begin_stop-answers e id =
    let e' = record e { attached = false; running = false } in
    (release_keys-IsFree e' id, release_keys-answers e' id)

-- After a clear nobody waits under any id, and each that waited got one answer.
pub clear-answers :
    (e : Engine) (id : Text) → IsFree (clear e) id × (answers id (clear e).resolved ≡ dealt e id)
unfolding clear emit_event
clear-answers e id = (release_keys-IsFree e id, release_keys-answers e id)

resume-refused :
    (e : Engine) (id : Text) (edit : BreakpointEdit)
    → IsFree e id
    → resume e id edit ≡ refused (text "This request is not paused")
unfolding resume
resume-refused e id edit free = rw (free, resume) refl

abort-refused :
    (e : Engine) (id : Text)
    → IsFree e id
    → abort e id ≡ refused (text "This request is not paused")
unfolding abort
abort-refused e id free = rw (free, abort) refl

resume-IsFree :
    (e : Engine) (id : Text) (edit : BreakpointEdit) → IsFree (after e (resume e id edit)) id
unfolding resume
resume-IsFree e id edit = elim (Option-cases (get id e.holds)) [
  | inl free ↦ rw (resume-refused e id edit free) free
  | inr (phase, waits) ↦ rw (waits, resume) (get-remove_self id e.holds)
]

resume-dealt :
    (e : Engine) (id : Text) (edit : BreakpointEdit) (j : Text)
    → dealt (after e (resume e id edit)) j ≡ dealt e j
unfolding resume dealt
resume-dealt e id edit j = elim (Option-cases (get id e.holds)) [
  | inl free ↦ rw (resume-refused e id edit free) refl
  | inr (phase, waits) ↦
      rw (waits, resume)
        (omega
          (arith, answers-append j id (edited edit) e.resolved, taken id j phase e.holds waits))
]

-- A hold takes one answer: after `resume` nobody waits under the id, the answers given and due
-- under every id are as many as before, and a second `resume` or an `abort` is refused.
pub resume-once :
    (e : Engine) (id : Text) (edit edit' : BreakpointEdit) (j : Text)
    → IsFree (after e (resume e id edit)) id
      × (dealt (after e (resume e id edit)) j ≡ dealt e j)
      × (resume (after e (resume e id edit)) id edit' ≡ refused (text "This request is not paused"))
      × (abort (after e (resume e id edit)) id ≡ refused (text "This request is not paused"))
resume-once e id edit edit' j =
    let free = resume-IsFree e id edit in
    (free, resume-dealt e id edit j, resume-refused _ id edit' free, abort-refused _ id free)
