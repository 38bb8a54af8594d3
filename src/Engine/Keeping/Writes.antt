-- ===== src/Engine/Keeping/Writes.antt =====
-- src/core/engine.ts: the assignments of the handlers are writes.
use tapline.Base.{
  ℕ, refl, inl, inr, Bool, true, false, Option, none, some, [], ◌∷◌, ◌++◌, Text, length, ltb,
  Bool-cases,
}
use tapline.Headers.{Headers}
use tapline.Model.{Frame, Transaction}
use tapline.Engine.{EventStream, annotated}
use tapline.Engine.Bodies.{push_events}
use tapline.Engine.Handlers.{add_frame, counted_frame, with_trailers, max_frames}
use tapline.Engine.Keeping.{IsWrite, untouched}

pub annotated-IsWrite :
    (t : Transaction) (note : Option Text) (marked : Option Bool)
    → IsWrite t (annotated t note marked)
unfolding annotated
annotated-IsWrite t none none = untouched t _ refl refl refl refl
annotated-IsWrite t none (some b) = untouched t _ refl refl refl refl
annotated-IsWrite t (some n) none = untouched t _ refl refl refl refl
annotated-IsWrite t (some n) (some b) = untouched t _ refl refl refl refl

pub push_events-IsWrite :
    (stream : EventStream) (chars : Text) (t : Transaction)
    → IsWrite t (push_events stream chars t).1
unfolding push_events
push_events-IsWrite stream chars t = untouched t _ refl refl refl refl

pub shown-IsWrite :
    (old t : Transaction) (body : Text)
    → IsWrite old t
    → IsWrite old (record t { response_body = body })
shown-IsWrite old t body w = record {
  id = w.id;
  finished = λ done.
      let same = w.finished done in
      record { state = same.state; failed_with = same.failed_with; duration = same.duration };
}

pub with_trailers-IsWrite : (h : Headers) (t : Transaction) → IsWrite t (with_trailers h t)
with_trailers-IsWrite [] t = untouched t _ refl refl refl refl
with_trailers-IsWrite (_ ∷ _) t = untouched t _ refl refl refl refl

pub add_frame-IsWrite :
    (f : Frame) (old t : Transaction) → IsWrite old t → IsWrite old (add_frame f t)
unfolding add_frame
add_frame-IsWrite f old t w = elim (Bool-cases (ltb max_frames (length (t.frames ++ f ∷ [])))) [
  | inl more ↦ rw more (record {
    id = w.id;
    finished = λ done.
        let same = w.finished done in
        record { state = same.state; failed_with = same.failed_with; duration = same.duration };
  })
  | inr fits ↦ rw fits (record {
    id = w.id;
    finished = λ done.
        let same = w.finished done in
        record { state = same.state; failed_with = same.failed_with; duration = same.duration };
  })
]

pub frame-IsWrite :
    (f : Frame) (from_server : Bool) (n : ℕ) (t : Transaction)
    → IsWrite t (add_frame f (counted_frame from_server n t))
frame-IsWrite f true n t = add_frame-IsWrite f t _ (untouched t _ refl refl refl refl)
frame-IsWrite f false n t = add_frame-IsWrite f t _ (untouched t _ refl refl refl refl)
