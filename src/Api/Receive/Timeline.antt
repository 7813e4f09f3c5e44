-- ===== src/Api/Receive/Timeline.antt =====
-- The count of samples that `daemon_stream_callback` of src/compat/sdrplay_api_compat.c keeps over frames.
use openrsp.Base.{
  ℕ, Bool-cases, inl, inr, if◌then◌else◌, ◌+◌, ◌*◌, ◌^◌, ◌%◌, ◌<◌, ◌≤◌, Bool, true, false, not,
  ◌||◌, ltb, ◌≡◌, ◌∙◌, refl, ap, List, [], ◌∷◌, length, add_u32, sub_u32, mul_u32, arith,
}
use openrsp.Api.{Tuner, is_b}
use openrsp.Api.Params.{Doubles}
use openrsp.Api.Steps.{emit_overload_event, differs}
use openrsp.Api.Events.{queue_api_event, power_overload_change}
use openrsp.Api.Context.{Lane, Context, lane, on_lane, overload_params}
use openrsp.Api.Receive.{
  is_overload, Received, tuner_of, gap_before, note_sequence, watch_overload, deliver,
  daemon_stream_callback, max_iq_samples, peak_of,
}

-- A frame, and how many frames were lost before it.
abbrev pub Arrival : Type 0
Arrival = ℕ × Received

-- The samples of the frames, where a lost frame has as many as the next one that came.
unfoldable pub sum_samples : List Arrival → ℕ
sum_samples [] = 0
sum_samples ((lost, r) ∷ rest) = (lost + 1) * length r.filtered + sum_samples rest

distance-lost :
    (expected lost : ℕ)
    → expected < 2 ^ 32
    → lost < 2 ^ 31
    → sub_u32 (add_u32 expected lost) expected ≡ lost
distance-lost expected lost h small = omega arith

sum_wrapped : (s p n : ℕ) → add_u32 (add_u32 s (p % 2 ^ 32)) n ≡ (s + (p + n)) % 2 ^ 32
sum_wrapped s p n = omega arith

advance : (s lost n : ℕ) → add_u32 (add_u32 s (mul_u32 lost n)) n ≡ (s + (lost + 1) * n) % 2 ^ 32
advance s lost n = sum_wrapped s (lost * n) n ∙ ap (λ k. (s + k) % 2 ^ 32) (omega arith)

wrapped-small : {a : ℕ} → a < 2 ^ 32 → a ≡ (a + 0) % 2 ^ 32
wrapped-small h = omega arith

sum_twice : (s a b : ℕ) → ((s + a) % 2 ^ 32 + b) % 2 ^ 32 ≡ (s + (a + b)) % 2 ^ 32
sum_twice s a b = omega arith

below : {a : ℕ} (b : ℕ) → a ≡ b % 2 ^ 32 → a < 2 ^ 32
below b e = omega arith

module _ {D : Doubles} where
  -- Frames of one tuner arrive, with the sequence numbers that follow `last`.
  unfoldable pub run : ℕ → List Arrival → Context D → Context D
  run last [] x = x
  run last ((lost, r) ∷ rest) x =
      (let sequence = add_u32 (add_u32 last 1) lost in
        run sequence rest (daemon_stream_callback (record r { sequence = sequence }) x))

  -- A stream of one tuner that receives.
  pub record Follows (last : ℕ) (tuner : Tuner) (x : Context D) : Type 0 where
    pub buffers : x.buffers ≡ true
    pub seen : (lane tuner x).iq_sequence_seen ≡ true
    pub sequence : (lane tuner x).last_iq_sequence ≡ last
    pub small : (lane tuner x).sample_number < 2 ^ 32

  gap-lost :
      (last lost : ℕ) (l : Lane D)
      → l.iq_sequence_seen ≡ true
      → l.last_iq_sequence ≡ last
      → lost < 2 ^ 31
      → (gap_before (add_u32 (add_u32 last 1) lost) l).1 ≡ lost
  unfolding gap_before
  gap-lost last lost l seen e small =
      ground (arith, e, distance-lost ((last + 1) % 2 ^ 32) lost (omega arith) small)

  -- What a step of a frame changes of the count, and what it keeps.
  record Counts (tuner : Tuner) (samples : ℕ) (x y : Context D) : Type 0 where
    sample_number : (lane tuner y).sample_number ≡ samples
    seen : (lane tuner y).iq_sequence_seen ≡ (lane tuner x).iq_sequence_seen
    sequence : (lane tuner y).last_iq_sequence ≡ (lane tuner x).last_iq_sequence
    buffers : y.buffers ≡ x.buffers
    mode : y.mode ≡ x.mode
    active : y.tuner ≡ x.tuner

  on_lane-Counts :
      (tuner : Tuner) (f : Lane D → Lane D) (x : Context D)
      → ((l : Lane D)
          → ((f l).sample_number ≡ l.sample_number)
            × ((f l).iq_sequence_seen ≡ l.iq_sequence_seen)
            × ((f l).last_iq_sequence ≡ l.last_iq_sequence))
      → Counts tuner (lane tuner x).sample_number x (on_lane tuner f x)
  on_lane-Counts tuner f x keeps = elim (Bool-cases (is_b tuner)) [
    | inl b ↦ record {
      sample_number = rw b (keeps x.lane_b).0;
      seen = rw b (keeps x.lane_b).1;
      sequence = rw b (keeps x.lane_b).2;
      buffers = rw b refl;
      mode = rw b refl;
      active = rw b refl;
    }
    | inr a ↦ record {
      sample_number = rw a (keeps x.lane_a).0;
      seen = rw a (keeps x.lane_a).1;
      sequence = rw a (keeps x.lane_a).2;
      buffers = rw a refl;
      mode = rw a refl;
      active = rw a refl;
    }
  ]

  emit-Counts :
      (tuner : Tuner) (overloaded : Bool) (x : Context D)
      → Counts tuner (lane tuner x).sample_number x (emit_overload_event tuner overloaded x).1
  emit-Counts tuner overloaded x =
      (let (queued, events) =
          queue_api_event power_overload_change tuner (overload_params overloaded) x.events in
        let c =
          on_lane-Counts tuner
            (λ l. record l {
              overload_reported_state = if queued then overloaded else l.overload_reported_state;
              overload_event_pending = queued;
            })
            (record x { events = events }) (λ l. (refl, refl, refl)) in
        record {
          sample_number = c.sample_number;
          seen = c.seen;
          sequence = c.sequence;
          buffers = c.buffers;
          mode = c.mode;
          active = c.active;
        })

  watch-Counts :
      (tuner : Tuner) (peak : ℕ) (x : Context D)
      → Counts tuner (lane tuner x).sample_number x (watch_overload tuner peak x)
  unfolding watch_overload
  watch-Counts tuner peak x =
      (let now = is_overload peak (lane tuner x).overload_state in
        let c =
          on_lane-Counts tuner (λ l. record l { overload_state = now }) x
            (λ l. (refl, refl, refl)) in
        let told =
          λ (l : Lane D). record l { overload_state = now; overload_event_pending = true } in
        let d = on_lane-Counts tuner told x (λ l. (refl, refl, refl)) in
        let e = emit-Counts tuner now (on_lane tuner told x) in
        elim (Bool-cases (differs now (lane tuner x).overload_state)) [
          | inr same ↦ rw same (record {
            sample_number = refl;
            seen = refl;
            sequence = refl;
            buffers = refl;
            mode = refl;
            active = refl;
          })
          | inl changed ↦ elim (Bool-cases (lane tuner x).overload_event_pending) [
            | inl pending ↦ rw (changed, pending) c
            | inr free ↦
                rw (changed, free)
                  (record {
                    sample_number = e.sample_number ∙ d.sample_number;
                    seen = e.seen ∙ d.seen;
                    sequence = e.sequence ∙ d.sequence;
                    buffers = e.buffers ∙ d.buffers;
                    mode = e.mode ∙ d.mode;
                    active = e.active ∙ d.active;
                  })
          ]
        ])

  deliver-Counts :
      (tuner : Tuner) (gap : Bool) (lost : ℕ) (r : Received) (x : Context D)
      → Counts tuner
          (add_u32
            (add_u32 (lane tuner x).sample_number (mul_u32 lost (length r.filtered)))
            (length r.filtered))
          x
          (deliver tuner gap lost r x)
  unfolding deliver
  deliver-Counts tuner gap lost r x = elim (Bool-cases (is_b tuner)) [
    | inl b ↦ record {
      sample_number = rw b refl;
      seen = rw b refl;
      sequence = rw b refl;
      buffers = rw b refl;
      mode = rw b refl;
      active = rw b refl;
    }
    | inr a ↦ record {
      sample_number = rw a refl;
      seen = rw a refl;
      sequence = rw a refl;
      buffers = rw a refl;
      mode = rw a refl;
      active = rw a refl;
    }
  ]

  tuner_of_same :
      (protocol_tuner : ℕ) (x y : Context D)
      → y.mode ≡ x.mode
      → y.tuner ≡ x.tuner
      → tuner_of protocol_tuner y ≡ tuner_of protocol_tuner x
  unfolding tuner_of
  tuner_of_same protocol_tuner x y m t = rw (m, t) refl

  -- Frames of one tuner that are not too long, before each of which fewer than 2^31 were lost.
  abbrev pub Fits : Tuner → Context D → List Arrival → Type 0
  Fits tuner x [] = Unit {0}
  Fits tuner x ((lost, r) ∷ rest) =
      (tuner_of r.protocol_tuner x ≡ tuner)
      × (lost < 2 ^ 31)
      × (length r.iq ≤ max_iq_samples)
      × Fits tuner x rest

  Fits-same :
      (tuner : Tuner) (x y : Context D) (frames : List Arrival)
      → y.mode ≡ x.mode
      → y.tuner ≡ x.tuner
      → Fits tuner x frames
      → Fits tuner y frames
  Fits-same tuner x y [] m t f = tt
  Fits-same tuner x y ((lost, r) ∷ rest) m t (same, few, short, others) = (
    tuner_of_same r.protocol_tuner x y m t ∙ same,
    few,
    short,
    Fits-same tuner x y rest m t others,
  )

  record Noted (tuner : Tuner) (sequence : ℕ) (x y : Context D) : Type 0 where
    sample_number : (lane tuner y).sample_number ≡ (lane tuner x).sample_number
    seen : (lane tuner y).iq_sequence_seen ≡ true
    last : (lane tuner y).last_iq_sequence ≡ sequence
    buffers : y.buffers ≡ x.buffers
    mode : y.mode ≡ x.mode
    active : y.tuner ≡ x.tuner

  note-Noted :
      (tuner : Tuner) (sequence : ℕ) (x : Context D)
      → Noted tuner sequence x (note_sequence tuner sequence x)
  unfolding note_sequence
  note-Noted tuner sequence x = elim (Bool-cases (is_b tuner)) [
    | inl b ↦ record {
      sample_number = rw b refl;
      seen = rw b refl;
      last = rw b refl;
      buffers = rw b refl;
      mode = rw b refl;
      active = rw b refl;
    }
    | inr a ↦ record {
      sample_number = rw a refl;
      seen = rw a refl;
      last = rw a refl;
      buffers = rw a refl;
      mode = rw a refl;
      active = rw a refl;
    }
  ]

  received :
      (last lost : ℕ) (tuner : Tuner) (r : Received) (x : Context D)
      → Follows last tuner x
      → tuner_of r.protocol_tuner x ≡ tuner
      → lost < 2 ^ 31
      → length r.iq ≤ max_iq_samples
      → let sequence = add_u32 (add_u32 last 1) lost in
        let y = daemon_stream_callback (record r { sequence = sequence }) x in
        Follows sequence tuner y
        × ((lane tuner y).sample_number
            ≡ ((lane tuner x).sample_number + (lost + 1) * length r.filtered) % 2 ^ 32)
        × (y.mode ≡ x.mode)
        × (y.tuner ≡ x.tuner)
  unfolding daemon_stream_callback
  received last lost tuner r x f same few short =
      (let sequence = add_u32 (add_u32 last 1) lost in
        let y = note_sequence tuner sequence x in
        let n = note-Noted tuner sequence x in
        let w = watch-Counts tuner (peak_of r.iq) y in
        let z = watch_overload tuner (peak_of r.iq) y in
        let gap = gap_before sequence (lane tuner x) in
        let d = deliver-Counts tuner gap.0 gap.1 (record r { sequence = sequence }) z in
        let fine : ltb max_iq_samples (length r.iq) || not y.buffers ≡ false =
          ground (arith, short, n.buffers ∙ f.buffers) in
        let counted : (lane tuner z).sample_number ≡ (lane tuner x).sample_number =
          w.sample_number ∙ n.sample_number in
        let samples = length r.filtered in
        let total =
          d.sample_number
          ∙ ap (λ k. add_u32 (add_u32 k (mul_u32 gap.1 samples)) samples) counted
          ∙ ap (λ g. add_u32 (add_u32 (lane tuner x).sample_number (mul_u32 g samples)) samples)
              (gap-lost last lost (lane tuner x) f.seen f.sequence few)
          ∙ advance (lane tuner x).sample_number lost samples in
        rw (same, fine)
          (
            record {
              buffers = d.buffers ∙ w.buffers ∙ n.buffers ∙ f.buffers;
              seen = d.seen ∙ w.seen ∙ n.seen;
              sequence = d.sequence ∙ w.sequence ∙ n.last;
              small = below _ total;
            },
            total,
            d.mode ∙ w.mode ∙ n.mode,
            d.active ∙ w.active ∙ n.active,
          ))

  -- Over the frames of one tuner, in the order of their sequence numbers, with gaps of fewer than 2^31
  -- frames, the library's sample number advances, modulo 2^32, by the samples of every frame, where a
  -- lost frame counts as many samples as the next one that came.
  pub run-sum_samples :
      (last : ℕ) (tuner : Tuner) (frames : List Arrival) (x : Context D)
      → Follows last tuner x
      → Fits tuner x frames
      → (lane tuner (run last frames x)).sample_number
        ≡ ((lane tuner x).sample_number + sum_samples frames) % 2 ^ 32
  unfolding run sum_samples
  run-sum_samples last tuner [] x f fits = wrapped-small f.small
  run-sum_samples last tuner ((lost, r) ∷ rest) x f (same, few, short, others) =
      (let sequence = add_u32 (add_u32 last 1) lost in
        let y = daemon_stream_callback (record r { sequence = sequence }) x in
        let step = received last lost tuner r x f same few short in
        run-sum_samples sequence tuner rest y step.0 (Fits-same tuner x y rest step.2 step.3 others)
        ∙ ap (λ k. (k + sum_samples rest) % 2 ^ 32) step.1
        ∙ sum_twice (lane tuner x).sample_number ((lost + 1) * length r.filtered)
            (sum_samples rest))
