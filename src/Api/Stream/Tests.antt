-- ===== src/Api/Stream/Tests.antt =====
-- A full queue whose oldest frame, of tuner A, tells of a gain change; and a frame in chunks.
use mathlib.Core.Logic.{◌≢◌}
use openrsp.Base.{
  ℕ, pos, suc, ◌<◌, ◌≡◌, refl, true, false, List, [], ◌∷◌, ◌++◌, map, some, length, front, arith,
}
use openrsp.Api.{tuner_a, tuner_b}
use openrsp.Api.Stream.{
  deliver_chunks, Frame, Stream, Callback, queue_stream_callback, take_frame, delivers,
  deliver_frame,
}
use openrsp.Api.Stream.Queue.{
  Open, queued, queue_all, newest, block, marks, queue_all_lem, queue_mixes_tuners,
}
use openrsp.Api.Stream.Chunks.{joined, Continues, deliver_frame_lem}

abbrev frame_at : ℕ → Frame
frame_at k = record {
  iq = (pos k, pos 1) ∷ (pos 2, pos 3) ∷ (pos 4, pos 5) ∷ [];
  tuner = tuner_a;
  first_sample = k;
  reset = false;
  gr_changed = true;
  rf_changed = false;
  fs_changed = false;
}

abbrev slow : Stream
slow = record {
  ring = record { slots = frame_at; head = 5; count = 8 };
  stop = false;
  paused = false;
  active = true;
  drop_count = 0;
  next_sample = 0;
  next_sample_b = 0;
  seen = true;
  seen_b = false;
  thread_started = true;
}

abbrev of_b : Frame
of_b = record (frame_at 9) { tuner = tuner_b; gr_changed = false }

slow-Open : Open slow
slow-Open = record { ring = omega arith; paused = refl; stop = refl }

queue_all_lem_example :
    (map block (queued (queue_all (of_b ∷ of_b ∷ []) slow))
      ≡ newest (map block (queued slow ++ (of_b ∷ of_b ∷ []))))
    × (marks (queued (queue_all (of_b ∷ of_b ∷ []) slow))
        ≡ marks (queued slow ++ (of_b ∷ of_b ∷ [])))
queue_all_lem_example = queue_all_lem (of_b ∷ of_b ∷ []) slow slow-Open

queue_mixes_tuners_example :
    (before : List Frame) × (last : Frame) × (queued (queue_stream_callback of_b slow)
      ≡ before ++ (last ∷ []))
    × (last.tuner ≡ of_b.tuner)
    × (last.tuner ≢ (front slow.ring).tuner)
    × (last.gr_changed ≡ true)
queue_mixes_tuners_example = queue_mixes_tuners of_b slow slow-Open refl (cc) refl refl

deliver_frame_lem_example :
    (cs : List Callback) × (deliver_frame (suc (length of_b.iq)) (λ n. 2) true of_b ≡ some cs)
    × (joined cs ≡ of_b.iq)
    × Continues of_b true (λ n. 2) 0 0 cs
    × (0 < length cs)
deliver_frame_lem_example = deliver_frame_lem (λ n. 2) true of_b (omega arith) (λ n. omega arith)

in_two_calls :
    deliver_frame 4 (λ n. 2) true of_b
    ≡ some (
        record {
          iq = (pos 9, pos 1) ∷ (pos 2, pos 3) ∷ [];
          first_sample = 9;
          reset = false;
          gr_changed = false;
          rf_changed = false;
          fs_changed = false;
          to_b = true;
        }
        ∷ record {
          iq = (pos 4, pos 5) ∷ [];
          first_sample = 11;
          reset = false;
          gr_changed = false;
          rf_changed = false;
          fs_changed = false;
          to_b = true;
        }
        ∷ [])
unfolding deliver_frame deliver_chunks
in_two_calls = refl

-- The oldest frame is the one in slot 5; it is a reset because its samples do not follow.
taken_first : (take_frame slow).0 ≡ delivers (record (frame_at 5) { reset = true })
unfolding take_frame
taken_first = refl
