-- ===== src/Daemon/Stream.antt =====
-- The streaming thread of daemon/openrspd.c, and how it is started, stopped and listened to.
use openrsp.Base.{
  ℕ, ◌+◌, ◌%◌, ◌^◌, Bool, true, false, not, ◌&&◌, ◌||◌, ltb, ◌==◌, if◌then◌else◌, ℤ, pos, negsuc,
  eq_ℤ, is_nonneg, List, length,
}
use openrsp.Duo.{route, write_failure_stops_stream, DuoEvent, event_none, EventKind}
use openrsp.Daemon.Config.{tuner_b}
use openrsp.Daemon.State.{
  Env, Daemon, M, ◌>>=◌, ◌>>◌, return, get, modify, when, discard, is_zero, ebusy, call, Frame,
  duo_event, iq, close_device, streaming_stop, cancel_async, read_async, thread_create, thread_join,
  write,
}

-- OPENRSPD_STREAM_SLOT_BYTES
abbrev pub stream_slot_bytes : ℕ
stream_slot_bytes = 262144

abbrev is_event_none : EventKind → Bool
is_event_none event_none = true
is_event_none _ = false

-- The client that a tuner's IQ goes to.
unfoldable pub stream_target : ℕ → Daemon → ℤ
stream_target tuner d = if d.duo_active then (route d.duo tuner).1 else d.owner

-- `++state->stream_sequence[slot]`, which wraps at 32 bits.
abbrev pub next_sequence : ℕ → Daemon → ℕ
next_sequence tuner d =
    if tuner == tuner_b then (d.sequence_b + 1) % 2 ^ 32 else (d.sequence_a + 1) % 2 ^ 32

abbrev pub bumped : ℕ → Daemon → Daemon
bumped tuner d = record d {
  sequence_a = if tuner == tuner_b then d.sequence_a else (d.sequence_a + 1) % 2 ^ 32;
  sequence_b = if tuner == tuner_b then (d.sequence_b + 1) % 2 ^ 32 else d.sequence_b;
}

abbrev pub bump_sequence : ℕ → M ℕ
bump_sequence tuner d = (next_sequence tuner d, bumped tuner d)

module _ (env : Env) where
  -- The end of `stream_main`: the driver's read has returned.
  unfoldable pub stream_main_end : M (Unit {0})
  stream_main_end = do
    result ← call env read_async
    modify (λ d. record d {
      streaming = false;
      stream_result = result;
      stream_error = not (is_zero result);
      thread_live = false;
    })

  -- pthread_join waits for that end, unless it has come already.
  unfoldable pub join_stream_thread : M ℤ
  join_stream_thread = do
    joined ← call env thread_join
    d ← get
    when (is_zero joined && d.thread_live) stream_main_end
    return joined

  -- pthread_create
  unfoldable pub create_stream_thread : M Bool
  create_stream_thread = do
    created ← call env thread_create
    when (is_zero created) (modify (λ d. record d { thread_live = true }))
    return (is_zero created)

  abbrev stop_bulk_engine : M ℤ
  stop_bulk_engine d =
      if d.radio
      then (do stopped ← call env streaming_stop; discard (call env cancel_async); return stopped) d
      else (pos 0, d)

  unfoldable pub stop_stream : M ℤ
  stop_stream d =
      if not d.stream_thread_started
      then (pos 0, d)
      else (do
        stopped ← stop_bulk_engine
        joined ← join_stream_thread
        after ← get
        modify (λ s. record s { stream_thread_started = false; streaming = false })
        return (
            if not (is_nonneg stopped) || not (is_zero joined) || not (is_zero after.stream_result)
            then negsuc 0
            else pos 0))
          d

  unfoldable pub close_radio : M ℤ
  close_radio d =
      if not d.radio
      then (pos 0, d)
      else (do
        result ← call env close_device
        modify (λ s. record s { radio = false })
        when (eq_ℤ result ebusy) (modify (λ s. record s { running = false }))
        return result)
          d

  -- `write_frame` and `write_control_frame`: 0 once the whole frame is written.
  abbrev pub write_frame : ℤ → Frame → M ℤ
  write_frame fd frame = call env (write fd frame)

  unfoldable pub send_duo_event : DuoEvent → M ℤ
  send_duo_event e =
      if is_event_none e.kind || not (is_nonneg e.target_fd)
      then return (pos 0)
      else write_frame e.target_fd (duo_event e.kind e.tuner)

  unfoldable pub cancel_if_open : M (Unit {0})
  cancel_if_open d = when d.radio (discard (call env cancel_async)) d

  -- A failed write is reported to the main loop once; a slave's leaves the USB stream running.
  unfoldable pub write_failed : ℤ → M (Unit {0})
  write_failed target d =
      (do
        when (not d.client_write_error) (modify (λ s. record s { client_write_error_fd = target }))
        modify (λ s. record s { client_write_error = true })
        when (not d.duo_active || write_failure_stops_stream d.duo target) cancel_if_open)
        d

  unfoldable pub deliver : ℕ → List ℕ → M (Unit {0})
  deliver tuner buffer = do
    sequence ← bump_sequence tuner
    d ← get
    let target = stream_target tuner d
    when (is_nonneg target) (do
      written ← write_frame target (iq tuner sequence buffer)
      if is_zero written
          then modify (λ s. record s { logged_socket_iq = true })
          else write_failed target)

  -- A completed USB transfer of one tuner.
  unfoldable pub send_stream : ℕ → List ℕ → M (Unit {0})
  send_stream tuner buffer = do
    d ← get
    when (not d.logged_usb_iq)
        (modify (λ s. record s { logged_usb_iq = true; first_iq_seen = true }))
    if ltb stream_slot_bytes (length buffer) then cancel_if_open else deliver tuner buffer
