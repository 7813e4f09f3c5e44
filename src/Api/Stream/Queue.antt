-- ===== src/Api/Stream/Queue.antt =====
-- What the frame queue of src/compat/sdrplay_api_compat.c keeps when the application is too slow: the
-- newest samples, and every mark.
use mathlib.Core.Logic.{◌≢◌}
use mathlib.Core.List.{map-append}
use openrsp.Base.{
  append-nil, ℕ, ℤ, suc, ◌-◌, ◌≤◌, Bool, true, false, ◌||◌, ◌==◌, if◌then◌else◌, ◌≡◌, ◌∙◌, refl,
  sym, ap, Bool-cases, inl, inr, List, [], ◌∷◌, ◌++◌, map, length, length-append, drop,
  append_assoc, Ring, InBounds, contents, front, trimmed, put_newest-InBounds, contents-put_newest,
  length-contents, contents-drop_head, arith,
}
use openrsp.Api.{Tuner}
use openrsp.Api.Stream.{Frame, Stream, capacity, carried, marked, queue_stream_callback}

-- What is queued, the oldest first.
abbrev pub queued : Stream → List Frame
queued s = contents capacity s.ring

-- Calls with these frames, one after the other.
unfoldable pub queue_all : List Frame → Stream → Stream
queue_all [] s = s
queue_all (f ∷ fs) s = queue_all fs (queue_stream_callback f s)

abbrev any : (Frame → Bool) → List Frame → Bool
any mark [] = false
any mark (f ∷ fs) = mark f || any mark fs

-- Does the list have a frame with each of the marks?
abbrev pub marks : List Frame → Bool × Bool × Bool × Bool
marks fs = (
  any (λ f. f.reset) fs,
  any (λ f. f.gr_changed) fs,
  any (λ f. f.rf_changed) fs,
  any (λ f. f.fs_changed) fs,
)

-- A frame without its marks.
abbrev pub block : Frame → List (ℤ × ℤ) × Tuner × ℕ
block f = (f.iq, f.tuner, f.first_sample)

-- The last `capacity` of a list.
abbrev pub newest {ℓ} : {A : Type ℓ} → List A → List A
newest xs = drop (length xs - capacity) xs

-- The queue takes frames.
pub record Open (s : Stream) : Type 0 where
  pub ring : InBounds capacity s.ring
  pub paused : s.paused ≡ false
  pub stop : s.stop ≡ false

any-append :
    (mark : Frame → Bool) (xs ys : List Frame) → any mark (xs ++ ys) ≡ (any mark xs || any mark ys)
any-append mark [] ys = refl
any-append mark (x ∷ xs) ys = ground (arith, any-append mark xs ys)

queued-queue_stream_callback :
    (f : Frame) (s : Stream)
    → Open s
    → queued (queue_stream_callback f s) ≡ trimmed capacity (queued s) ++ (marked s.ring f ∷ [])
unfolding queue_stream_callback
queued-queue_stream_callback f s o =
    rw (o.paused, o.stop) (contents-put_newest capacity (marked s.ring f) s.ring o.ring)

queue-Open : (f : Frame) (s : Stream) → Open s → Open (queue_stream_callback f s)
unfolding queue_stream_callback
queue-Open f s o = record {
  ring = rw (o.paused, o.stop) (put_newest-InBounds capacity (marked s.ring f) s.ring o.ring);
  paused = ground (arith, o.paused);
  stop = ground (arith, o.stop);
}

-- The mark of the frame that a full queue drops.
abbrev lost : (Frame → Bool) → List Frame → Bool
lost mark [] = false
lost mark (x ∷ xs) = if length (x ∷ xs) == capacity then mark x else false

lost_short :
    (mark : Frame → Bool) (xs : List Frame) → (length xs == capacity) ≡ false → lost mark xs ≡ false
lost_short mark [] h = refl
lost_short mark (x ∷ xs) h = rw h refl

carried-eq-lost :
    (mark : Frame → Bool) (ring : Ring Frame)
    → InBounds capacity ring
    → carried mark ring ≡ lost mark (contents capacity ring)
carried-eq-lost mark ring b = elim (Bool-cases (ring.count == capacity)) [
  | inl full ↦
      rw (contents-drop_head capacity ring b (ground arith))
        (ground (arith, length-contents capacity ring, contents-drop_head capacity ring b))
  | inr room ↦ rw room (
      sym (
        lost_short mark (contents capacity ring)
          (ap (λ n. n == capacity) (length-contents capacity ring) ∙ room)))
]

any-trimmed :
    (mark : Frame → Bool) (xs : List Frame)
    → (any mark (trimmed capacity xs) || lost mark xs) ≡ any mark xs
any-trimmed mark [] = refl
any-trimmed mark (x ∷ xs) = ground arith

any-queue :
    (mark : Frame → Bool) (f : Frame) (s : Stream)
    → Open s
    → mark (marked s.ring f) ≡ (mark f || carried mark s.ring)
    → any mark (queued (queue_stream_callback f s)) ≡ (any mark (queued s) || mark f)
any-queue mark f s o e =
    rw
      (
        queued-queue_stream_callback f s o,
        any-append mark (trimmed capacity (queued s)) (marked s.ring f ∷ []),
      )
      (ground (arith, e, carried-eq-lost mark s.ring o.ring, any-trimmed mark (queued s)))

any-queue_all :
    (mark : Frame → Bool)
    → ((ring : Ring Frame) (f : Frame) → mark (marked ring f) ≡ (mark f || carried mark ring))
    → (fs : List Frame) (s : Stream) → Open s
    → any mark (queued (queue_all fs s)) ≡ (any mark (queued s) || any mark fs)
unfolding queue_all
any-queue_all mark e [] s o = ground arith
any-queue_all mark e (f ∷ fs) s o = ground (
  arith,
  any-queue_all mark e fs (queue_stream_callback f s) (queue-Open f s o),
  any-queue mark f s o (e s.ring f),
)

newest_short {ℓ} : {A : Type ℓ} (xs : List A) → length xs ≤ capacity → newest xs ≡ xs
newest_short xs h = (let none_over : length xs - capacity ≡ 0 = omega arith in rw none_over refl)

newest_long {ℓ} :
    {A : Type ℓ} (x : A) (xs : List A) → capacity ≤ length xs → newest (x ∷ xs) ≡ newest xs
newest_long x xs h =
    (let one_more : suc (length xs) - capacity ≡ suc (length xs - capacity) = omega arith in
      rw one_more refl)

newest-trimmed {ℓ} :
    {A : Type ℓ} (xs : List A) (y : A) (ys : List A)
    → length xs ≤ capacity
    → newest (xs ++ (y ∷ ys)) ≡ newest ((trimmed capacity xs ++ (y ∷ [])) ++ ys)
newest-trimmed [] y ys h = refl
newest-trimmed (x ∷ xs) y ys h = elim (Bool-cases (length (x ∷ xs) == capacity)) [
  | inl full ↦ rw full (
      newest_long x (xs ++ (y ∷ ys)) (ground (arith, length-append xs (y ∷ ys)))
      ∙ ap newest (sym (append_assoc xs (y ∷ []) ys)))
  | inr room ↦ rw room (ap newest (sym (append_assoc (x ∷ xs) (y ∷ []) ys)))
]

length-map {ℓ κ} :
    {A : Type ℓ} {B : Type κ} (g : A → B) (xs : List A) → length (map g xs) ≡ length xs
length-map g [] = refl
length-map g (x ∷ xs) = ap suc (length-map g xs)

map-trimmed {ℓ κ} :
    {A : Type ℓ} {B : Type κ} (g : A → B) (xs : List A)
    → map g (trimmed capacity xs) ≡ trimmed capacity (map g xs)
map-trimmed g [] = refl
map-trimmed g (x ∷ xs) = ground (arith, length-map g xs)

blocks-queue :
    (f : Frame) (s : Stream)
    → Open s
    → map block (queued (queue_stream_callback f s))
      ≡ trimmed capacity (map block (queued s)) ++ (block f ∷ [])
blocks-queue f s o =
    ap (map block) (queued-queue_stream_callback f s o)
    ∙ map-append block (trimmed capacity (queued s)) (marked s.ring f ∷ [])
    ∙ ap (λ l. l ++ (block f ∷ [])) (map-trimmed block (queued s))

blocks-queue_all :
    (fs : List Frame) (s : Stream)
    → Open s
    → map block (queued (queue_all fs s)) ≡ newest (map block (queued s) ++ map block fs)
unfolding queue_all
blocks-queue_all [] s o =
    (let held = length-map block (queued s) in
      let counted = length-contents capacity s.ring in
      rw (append-nil (map block (queued s)))
        (sym (newest_short (map block (queued s)) (omega (arith, o.ring.count)))))
blocks-queue_all (f ∷ fs) s o =
    (let held = length-map block (queued s) in
      let counted = length-contents capacity s.ring in
      blocks-queue_all fs (queue_stream_callback f s) (queue-Open f s o)
      ∙ ap (λ l. newest (l ++ map block fs)) (blocks-queue f s o)
      ∙ sym (
          newest-trimmed (map block (queued s)) (block f) (map block fs)
            (omega (arith, o.ring.count))))

-- While the queue is open, any frames that the application does not fetch in time leave the newest
-- eight blocks of samples, in order, and each of the four marks is on some queued frame exactly if it was
-- on one of all these frames before; marks of one kind may have merged, and a mark may have moved to
-- another frame.
pub queue_all_lem :
    (fs : List Frame) (s : Stream)
    → Open s
    → (map block (queued (queue_all fs s)) ≡ newest (map block (queued s ++ fs)))
      × (marks (queued (queue_all fs s)) ≡ marks (queued s ++ fs))
queue_all_lem fs s o = (
  blocks-queue_all fs s o ∙ ap newest (sym (map-append block (queued s) fs)),
  ground (
    arith,
    any-append (λ (f : Frame). f.reset) (queued s) fs,
    any-append (λ (f : Frame). f.gr_changed) (queued s) fs,
    any-append (λ (f : Frame). f.rf_changed) (queued s) fs,
    any-append (λ (f : Frame). f.fs_changed) (queued s) fs,
    any-queue_all (λ (f : Frame). f.reset) (λ ring f. refl) fs s o,
    any-queue_all (λ (f : Frame). f.gr_changed) (λ ring f. refl) fs s o,
    any-queue_all (λ (f : Frame). f.rf_changed) (λ ring f. refl) fs s o,
    any-queue_all (λ (f : Frame). f.fs_changed) (λ ring f. refl) fs s o,
  ),
)

-- When a full queue drops a frame of one tuner for a frame of the other, a gain change that the dropped
-- frame told of is told with the other tuner's frame, also if the gain of that tuner did not change.
pub queue_mixes_tuners :
    (f : Frame) (s : Stream)
    → Open s
    → s.ring.count ≡ capacity
    → (front s.ring).tuner ≢ f.tuner
    → (front s.ring).gr_changed ≡ true
    → f.gr_changed ≡ false
    → (before : List Frame) × (last : Frame) × (queued (queue_stream_callback f s)
        ≡ before ++ (last ∷ []))
      × (last.tuner ≡ f.tuner)
      × (last.tuner ≢ (front s.ring).tuner)
      × (last.gr_changed ≡ true)
queue_mixes_tuners f s o full other told quiet = (
  trimmed capacity (queued s),
  marked s.ring f,
  queued-queue_stream_callback f s o,
  refl,
  λ e. other (sym e),
  ground arith,
)
