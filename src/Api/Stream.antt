-- ===== src/Api/Stream.antt =====
-- The IQ that the API hands to the application on a thread of its own: `queue_stream_callback`, the
-- turns of `stream_callback_thread_main` and what pauses, resumes and stops it, of
-- src/compat/sdrplay_api_compat.c. Only the lock's holder changes the queue, so a run is a sequence of
-- calls. The capacity is that of the POSIX build.
pub mod Queue
pub mod Chunks
mod Tests
use openrsp.Base.{
  ℕ, ℤ, zero, suc, ◌+◌, ◌-◌, Bool, true, false, not, ◌&&◌, ◌||◌, ◌==◌, ltb, if◌then◌else◌, Option,
  none, some, List, [], ◌∷◌, ◌++◌, Ring, put, drop_head, front, length, take, drop, add_u32,
}
use openrsp.Api.{Tuner, is_b}

-- OPENRSP_STREAM_QUEUE_CAPACITY
abbrev pub capacity : ℕ
capacity = 8

-- compat_stream_frame: the samples of a block of IQ, and what changed before it.
pub record Frame : Type 0 where
  pub iq : List (ℤ × ℤ)
  pub tuner : Tuner
  pub first_sample : ℕ
  pub reset : Bool
  pub gr_changed : Bool
  pub rf_changed : Bool
  pub fs_changed : Bool

-- The fields stream_callback_* of compat_device_context.
pub record Stream : Type 0 where
  pub ring : Ring Frame
  pub stop : Bool
  pub paused : Bool
  pub active : Bool
  pub drop_count : ℕ
  pub next_sample : ℕ
  pub next_sample_b : ℕ
  pub seen : Bool
  pub seen_b : Bool
  pub thread_started : Bool

-- Does a frame go, and had it this mark?
abbrev pub carried : (Frame → Bool) → Ring Frame → Bool
carried mark ring = if ring.count == capacity then mark (front ring) else false

-- `reset || carried_reset`, and the same for the three other marks.
abbrev pub marked : Ring Frame → Frame → Frame
marked ring frame = record frame {
  reset = frame.reset || carried (λ f. f.reset) ring;
  gr_changed = frame.gr_changed || carried (λ f. f.gr_changed) ring;
  rf_changed = frame.rf_changed || carried (λ f. f.rf_changed) ring;
  fs_changed = frame.fs_changed || carried (λ f. f.fs_changed) ring;
}

-- `frame` has the arguments of the call and the samples that it copies.
unfoldable pub queue_stream_callback : Frame → Stream → Stream
queue_stream_callback frame s = if s.paused || s.stop then s else record s {
  ring =
      put capacity (marked s.ring frame)
        (if s.ring.count == capacity then drop_head capacity s.ring else s.ring);
  drop_count = if s.ring.count == capacity then add_u32 s.drop_count 1 else s.drop_count;
}

-- What a turn of the callback thread finds.
pub data Turn : Type 0 where
  waits : Turn
  ends : Turn
  delivers : Frame → Turn

abbrev seen_of : Tuner → Stream → Bool
seen_of tuner s = if is_b tuner then s.seen_b else s.seen

abbrev next_of : Tuner → Stream → ℕ
next_of tuner s = if is_b tuner then s.next_sample_b else s.next_sample

-- The oldest frame, marked as a reset also when its samples do not follow its tuner's last ones.
abbrev pub taken_frame : Stream → Frame
taken_frame s =
    (let frame = front s.ring in
      record frame {
        reset =
            frame.reset
            || not (seen_of frame.tuner s)
            || not (frame.first_sample == next_of frame.tuner s);
      })

-- The thread takes its next frame, and calls the application without the lock.
unfoldable pub take_frame : Stream → Turn × Stream
take_frame s =
    if s.stop
    then (ends, s)
    else if s.ring.count == 0 || s.paused
    then (waits, s)
    else (let frame = front s.ring in
        let after = add_u32 frame.first_sample (length frame.iq) in
        (
          delivers (taken_frame s),
          record s {
            ring = drop_head capacity s.ring;
            active = true;
            seen = if is_b frame.tuner then s.seen else true;
            seen_b = if is_b frame.tuner then true else s.seen_b;
            next_sample = if is_b frame.tuner then s.next_sample else after;
            next_sample_b = if is_b frame.tuner then after else s.next_sample_b;
          },
        ))

-- The application has had the whole frame.
unfoldable pub end_frame : Stream → Stream
end_frame s = record s { active = false }

-- `pause_stream_callbacks` up to its wait, and after it.
unfoldable pub pause : Stream → Stream
pause s = record s { paused = true }

unfoldable pub flush : Stream → Stream
flush s = record s { ring = record s.ring { head = 0; count = 0 } }

unfoldable pub resume_stream_callbacks : Stream → Stream
resume_stream_callbacks s = record s { paused = false }

-- `start_stream_callback_thread`: are the mutex and the condition made, and then the thread?
unfoldable pub start_stream_callback_thread : Bool → Bool → Stream → Bool × Stream
start_stream_callback_thread locks made s =
    if not locks
    then (false, s)
    else (let cleared = record s {
      ring = record s.ring { head = 0; count = 0 };
      stop = false;
      paused = false;
      active = false;
      drop_count = 0;
      seen = false;
      seen_b = false;
    } in
        if made then (true, record cleared { thread_started = true }) else (false, cleared))

-- `stop_stream_callback_thread` up to the join.
unfoldable pub stop_callbacks : Stream → Stream
stop_callbacks s =
    if not s.thread_started then s else record s { stop = true; ring = record s.ring { count = 0 } }

-- One call of the application's function: its samples, and sdrplay_api_StreamCbParamsT.
pub record Callback : Type 0 where
  pub iq : List (ℤ × ℤ)
  pub first_sample : ℕ
  pub reset : Bool
  pub gr_changed : Bool
  pub rf_changed : Bool
  pub fs_changed : Bool
  pub to_b : Bool

-- The samples of `rest` go out from `offset` on. `sizes` are the values of `callback_samples`, which is
-- read for each chunk. Without fuel left there is no result.
abbrev and_callback : Callback → Option (List Callback) → Option (List Callback)
and_callback c none = none
and_callback c (some cs) = some (c ∷ cs)

abbrev pub chunk_of : Bool → Frame → ℕ → ℕ → List (ℤ × ℤ) → Callback
chunk_of dual frame chunk offset rest = record {
  iq = take chunk rest;
  first_sample = add_u32 frame.first_sample offset;
  reset = offset == 0 && frame.reset;
  gr_changed = offset == 0 && frame.gr_changed;
  rf_changed = offset == 0 && frame.rf_changed;
  fs_changed = offset == 0 && frame.fs_changed;
  to_b = is_b frame.tuner && dual;
}

abbrev pub chunk_size : ℕ → ℕ → ℕ
chunk_size left callback_samples = if ltb callback_samples left then callback_samples else left

unfoldable pub deliver_chunks :
    ℕ → (ℕ → ℕ) → Bool → Frame → ℕ → ℕ → List (ℤ × ℤ) → Option (List Callback)
deliver_chunks zero sizes dual frame round offset rest = none
deliver_chunks (suc fuel) sizes dual frame round offset [] = some []
deliver_chunks (suc fuel) sizes dual frame round offset (x ∷ xs) =
    (let chunk = chunk_size (suc (length xs)) (sizes round) in
      and_callback (chunk_of dual frame chunk offset (x ∷ xs))
        (deliver_chunks fuel sizes dual frame (suc round) (offset + chunk) (drop chunk (x ∷ xs))))

-- The calls for one frame: a frame without samples is one call, which tells what changed.
unfoldable pub deliver_frame : ℕ → (ℕ → ℕ) → Bool → Frame → Option (List Callback)
deliver_frame fuel sizes dual frame =
    if length frame.iq == 0
    then some (
        record {
          iq = [];
          first_sample = frame.first_sample;
          reset = frame.reset;
          gr_changed = frame.gr_changed;
          rf_changed = frame.rf_changed;
          fs_changed = frame.fs_changed;
          to_b = is_b frame.tuner && dual;
        }
        ∷ [])
    else deliver_chunks fuel sizes dual frame 0 0 frame.iq
