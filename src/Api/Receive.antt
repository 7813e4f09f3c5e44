-- ===== src/Api/Receive.antt =====
-- What the library does with a frame of IQ that the daemon sends: `daemon_stream_callback` of
-- src/compat/sdrplay_api_compat.c, and the callbacks beside it. What the filters make of the samples, and
-- the root of their mean power, are arguments; the log lines are left out.
pub mod Timeline
mod Tests
use openrsp.Base.{
  ℕ, ℤ, pos, negsuc, suc, ◌+◌, ◌-◌, ◌*◌, ◌^◌, Bool, true, false, not, ◌&&◌, ◌||◌, ◌==◌, ltb, leb,
  if◌then◌else◌, List, [], ◌∷◌, length, add_u32, sub_u32, mul_u32,
}
use openrsp.Api.{Tuner, tuner_a, tuner_b, both, is_b, mode_dual}
use openrsp.Api.Params.{Doubles}
use openrsp.Api.Events.{queue_api_event, device_removed, device_failure, rspduo_mode_change}
use openrsp.Api.Stream.{queue_stream_callback}
use openrsp.Api.Context.{Lane, Context, lane, on_lane, no_params, mode_params}
use openrsp.Api.Steps.{emit_overload_event, differs}

-- OPENRSP_MAX_IQ_SAMPLES
abbrev pub max_iq_samples : ℕ
max_iq_samples = 65536

-- A frame as it comes, with what the filters leave of it and its power afterwards.
pub record Received : Type 0 where
  pub iq : List (ℤ × ℤ)
  pub sequence : ℕ
  pub protocol_tuner : ℕ
  pub filtered : List (ℤ × ℤ)
  pub rms : ℕ

abbrev magnitude : ℤ → ℕ
magnitude (pos n) = n
magnitude (negsuc n) = suc n

abbrev pub max : ℕ → ℕ → ℕ
max a b = if ltb a b then b else a

unfoldable pub peak_of : List (ℤ × ℤ) → ℕ
peak_of [] = 0
peak_of ((i, q) ∷ rest) = max (max (magnitude i) (magnitude q)) (peak_of rest)

-- `consume_one`
abbrev pub one_less : ℕ → ℕ
one_less n = n - 1

-- The OPENRSP_TUNER_* of an event.
abbrev sent_tuner : ℕ → Tuner
sent_tuner protocol_tuner =
    if protocol_tuner == 2 then tuner_b else if protocol_tuner == 3 then both else tuner_a

-- A signal overloads from 32700 on, until it is 30000 or less.
abbrev pub is_overload : ℕ → Bool → Bool
is_overload peak overloaded = if overloaded then ltb 30000 peak else leb 32700 peak

module _ {D : Doubles} where
  unfoldable pub tuner_of : ℕ → Context D → Tuner
  tuner_of protocol_tuner x =
      if x.mode == mode_dual then if protocol_tuner == 2 then tuner_b else tuner_a else x.tuner

  -- Is there a gap before this frame, and of how many frames?
  unfoldable pub gap_before : ℕ → Lane D → Bool × ℕ
  gap_before sequence l =
      (let expected = add_u32 l.last_iq_sequence 1 in
        let distance = sub_u32 sequence expected in
        if l.iq_sequence_seen && not (sequence == expected)
        then (true, if ltb distance (2 ^ 31) then distance else 0)
        else (false, 0))

  unfoldable pub note_sequence : Tuner → ℕ → Context D → Context D
  note_sequence tuner sequence x =
      on_lane tuner (λ l. record l { last_iq_sequence = sequence; iq_sequence_seen = true })
        (record x { stream_state = pos 1 })

  -- An event tells of a change, unless the application has not acknowledged the last one.
  unfoldable pub watch_overload : Tuner → ℕ → Context D → Context D
  watch_overload tuner peak x =
      (let before = lane tuner x in
        let now = is_overload peak before.overload_state in
        if differs now before.overload_state
        then if before.overload_event_pending
          then on_lane tuner (λ l. record l { overload_state = now }) x
          else (emit_overload_event tuner now (
              on_lane tuner (λ l. record l { overload_state = now; overload_event_pending = true })
                x)).1
        else x)

  -- The frame is queued for the application, and its samples are counted, with the missing ones.
  unfoldable pub deliver : Tuner → Bool → ℕ → Received → Context D → Context D
  deliver tuner gap missing r x =
      (let l = lane tuner x in
        let first = add_u32 l.sample_number (mul_u32 missing (length r.filtered)) in
        on_lane tuner
          (λ l. record l {
            sample_number = add_u32 first (length r.filtered);
            agc_peak = max l.agc_peak r.rms;
            pending_gr_changed = one_less l.pending_gr_changed;
            pending_rf_changed = one_less l.pending_rf_changed;
            pending_fs_changed = one_less l.pending_fs_changed;
            first_callback = false;
          })
          (record x {
            stream =
                queue_stream_callback
                  (record {
                    iq = r.filtered;
                    tuner = tuner;
                    first_sample = first;
                    reset = l.first_callback || gap;
                    gr_changed = ltb 0 l.pending_gr_changed;
                    rf_changed = ltb 0 l.pending_rf_changed;
                    fs_changed = ltb 0 l.pending_fs_changed;
                  })
                  x.stream;
          }))

  unfoldable pub daemon_stream_callback : Received → Context D → Context D
  daemon_stream_callback r x =
      (let tuner = tuner_of r.protocol_tuner x in
        let gap = gap_before r.sequence (lane tuner x) in
        let y = note_sequence tuner r.sequence x in
        if ltb max_iq_samples (length r.iq) || not y.buffers
        then record y { stream_state = negsuc 0 }
        else deliver tuner gap.0 gap.1 r (watch_overload tuner (peak_of r.iq) y))

  unfoldable pub daemon_failure_callback : Context D → Context D
  daemon_failure_callback x = record x {
    stream_state = negsuc 0;
    events = (queue_api_event device_failure x.tuner no_params x.events).1;
  }

  -- `removed` says that the reason is OPENRSP_DEVICE_STATUS_REMOVED.
  unfoldable pub daemon_status_callback : Bool → ℕ → Context D → Context D
  daemon_status_callback removed protocol_tuner x =
      if not removed
      then x
      else if not (protocol_tuner == 1) && not (protocol_tuner == 2) && not (protocol_tuner == 3)
      then x
      else record x {
        stream_state = negsuc 0;
        events = (queue_api_event device_removed (sent_tuner protocol_tuner) no_params x.events).1;
      }

  unfoldable pub daemon_duo_callback : ℕ → ℕ → Context D → Context D
  daemon_duo_callback kind protocol_tuner x =
      if ltb kind 1 || ltb 7 kind || (not (protocol_tuner == 1) && not (protocol_tuner == 2))
      then x
      else record x {
        events =
            (queue_api_event rspduo_mode_change (sent_tuner protocol_tuner) (mode_params (kind - 1))
              x.events).1;
      }
