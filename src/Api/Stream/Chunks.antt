-- ===== src/Api/Stream/Chunks.antt =====
-- The calls that `stream_callback_thread_main` of src/compat/sdrplay_api_compat.c makes for one frame.
use openrsp.Base.{
  ℕ, ℤ, zero, suc, ◌+◌, ◌≤◌, ◌<◌, ◌^◌, Bool, true, ◌&&◌, ◌==◌, ◌≡◌, ◌∙◌, refl, sym, subst, ap,
  Bool-cases, inl, inr, List, [], ◌∷◌, ◌++◌, some, length, take, drop, length-take, length-drop,
  take-append-drop, add_u32, arith,
}
use openrsp.Api.{is_b}
use openrsp.Api.Stream.{Frame, Callback, chunk_of, chunk_size, deliver_chunks, deliver_frame}

-- All samples of some calls, in order.
abbrev pub joined : List Callback → List (ℤ × ℤ)
joined [] = []
joined (c ∷ cs) = c.iq ++ joined cs

-- The calls go on with a frame from `offset` on: each numbers its first sample, stays within the size
-- read for it, has samples unless the frame has none, goes to the function of the frame's tuner, and
-- tells what changed exactly if it is the frame's first.
abbrev pub Continues : Frame → Bool → (ℕ → ℕ) → ℕ → ℕ → List Callback → Type 0
Continues frame dual sizes round offset [] = Unit {0}
Continues frame dual sizes round offset (c ∷ cs) =
    (c.first_sample ≡ add_u32 frame.first_sample offset)
    × (length c.iq ≤ sizes round)
    × (0 < length frame.iq → 0 < length c.iq)
    × (c.to_b ≡ (is_b frame.tuner && dual))
    × (c.reset ≡ (offset == 0 && frame.reset))
    × (c.gr_changed ≡ (offset == 0 && frame.gr_changed))
    × (c.rf_changed ≡ (offset == 0 && frame.rf_changed))
    × (c.fs_changed ≡ (offset == 0 && frame.fs_changed))
    × Continues frame dual sizes (suc round) (offset + length c.iq) cs

and_callback-eq :
    (fuel : ℕ) (sizes : ℕ → ℕ) (dual : Bool) (frame : Frame) (round offset : ℕ) (x : ℤ × ℤ)
    (xs : List (ℤ × ℤ)) (cs : List Callback)
    → let chunk = chunk_size (suc (length xs)) (sizes round) in
      deliver_chunks fuel sizes dual frame (suc round) (offset + chunk) (drop chunk (x ∷ xs))
        ≡ some cs
      → deliver_chunks (suc fuel) sizes dual frame round offset (x ∷ xs)
        ≡ some (chunk_of dual frame chunk offset (x ∷ xs) ∷ cs)
unfolding deliver_chunks
and_callback-eq fuel sizes dual frame round offset x xs cs e = rw e refl

chunk_size_lem :
    (left n : ℕ)
    → 0 < left
    → 0 < n
    → (0 < chunk_size left n) × (chunk_size left n ≤ left) × (chunk_size left n ≤ n)
chunk_size_lem left n h k = ground arith

chunks :
    (fuel : ℕ) (sizes : ℕ → ℕ) (dual : Bool) (frame : Frame) (round offset : ℕ)
    (rest : List (ℤ × ℤ))
    → length rest < fuel
    → ((n : ℕ) → 0 < sizes n)
    → (cs : List Callback) × (deliver_chunks fuel sizes dual frame round offset rest ≡ some cs)
      × (joined cs ≡ rest)
      × Continues frame dual sizes round offset cs
      × (0 < length rest → 0 < length cs)
unfolding deliver_chunks
chunks zero sizes dual frame round offset rest h p = absurd (omega arith)
chunks (suc fuel) sizes dual frame round offset [] h p = ([], refl, refl, tt, λ k. k)
chunks (suc fuel) sizes dual frame round offset (x ∷ xs) h p =
    (let chunk : ℕ = chunk_size (suc (length xs)) (sizes round) in
      let size = chunk_size_lem (suc (length xs)) (sizes round) (omega arith) (p round) in
      let filled = length-take chunk (x ∷ xs) size.1 in
      let later =
        chunks fuel sizes dual frame (suc round) (offset + chunk) (drop chunk (x ∷ xs))
          (omega (arith, length-drop chunk (x ∷ xs))) p in
      (
        chunk_of dual frame chunk offset (x ∷ xs) ∷ later.0,
        and_callback-eq fuel sizes dual frame round offset x xs later.0 later.1,
        ap (λ l. take chunk (x ∷ xs) ++ l) later.2 ∙ take-append-drop chunk (x ∷ xs),
        (
          refl,
          omega (arith, filled, size.2),
          λ k. omega (arith, filled, size.0),
          refl,
          refl,
          refl,
          refl,
          refl,
          subst (λ n. Continues frame dual sizes (suc round) (offset + n) later.0) (sym filled)
              later.3,
        ),
        λ k. omega arith,
      ))

no_samples : (iq : List (ℤ × ℤ)) → (length iq == 0) ≡ true → iq ≡ []
no_samples [] h = refl
no_samples (x ∷ xs) h = absurd (ground arith)

abbrev silent : Frame → Bool → Callback
silent frame dual = record {
  iq = [];
  first_sample = frame.first_sample;
  reset = frame.reset;
  gr_changed = frame.gr_changed;
  rf_changed = frame.rf_changed;
  fs_changed = frame.fs_changed;
  to_b = is_b frame.tuner && dual;
}

-- While the size of a call is never zero, a frame is delivered after at most one call a sample, and by
-- at least one: the samples of the calls are those of the frame in order, with their numbers (which
-- wrap), in calls of at most the size that was read, and what changed is told once, by the first.
pub deliver_frame_lem :
    (sizes : ℕ → ℕ) (dual : Bool) (frame : Frame)
    → frame.first_sample < 2 ^ 32
    → ((n : ℕ) → 0 < sizes n)
    → (cs : List Callback) × (deliver_frame (suc (length frame.iq)) sizes dual frame ≡ some cs)
      × (joined cs ≡ frame.iq)
      × Continues frame dual sizes 0 0 cs
      × (0 < length cs)
unfolding deliver_frame
deliver_frame_lem sizes dual frame w p = elim (Bool-cases (length frame.iq == 0)) [
  | inl empty ↦ (
    silent frame dual ∷ [],
    rw empty refl,
    sym (no_samples frame.iq empty),
    (omega arith, omega arith, λ k. absurd (ground arith), refl, refl, refl, refl, refl, tt),
    omega arith,
  )
  | inr filled ↦
      (let cs = chunks (suc (length frame.iq)) sizes dual frame 0 0 frame.iq (omega arith) p in
        (cs.0, rw filled cs.1, cs.2, cs.3, cs.4 (ground arith)))
]
