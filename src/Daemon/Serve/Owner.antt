-- ===== src/Daemon/Serve/Owner.antt =====
-- The requests of `serve_request` in daemon/openrspd.c for the one client that owns the receiver.
use openrsp.Base.{
  ℕ, Bool, true, false, not, ◌&&◌, ◌||◌, ◌==◌, if◌then◌else◌, ℤ, pos, eq_ℤ, is_nonneg, List, [],
  ◌∷◌, Option, none, some, has_bit,
}
use openrsp.Protocol.{
  AcquireRequest, DeviceRecord, RadioConfig, DualConfig, UpdateRequest, SwapRequest,
  ModeSwapRequest,
}
use openrsp.Identity.{Resolved, index, not_found, ambiguous, resolve, matches}
use openrsp.Daemon.Config.{config_valid, valid_dual_config, tuner_a, tuner_b, change_sample_rate}
use openrsp.Daemon.State.{
  Env, Daemon, Status, ok, bad_request, busy, io_error, is_ok, M, ◌>>=◌, ◌>>◌, return, get, modify,
  when, discard, is_zero, call, cancel_async,
}
use openrsp.Daemon.Stream.{stop_stream, close_radio}
use openrsp.Daemon.Snapshot.{snapshot_sdrplay_devices}
use openrsp.Daemon.Radio.{configure_radio, configure_dual_radio, apply_update}
use openrsp.Daemon.Release.{release_client}
use openrsp.Daemon.Serve.{Reply, reply}

-- OPENRSP_RESPONSE_RECOVERY_QUEUED
abbrev pub recovery_queued : ℕ
recovery_queued = 2147483648

-- The first listed receiver with the index.
abbrev pub at_index : ℕ → List DeviceRecord → Option DeviceRecord
at_index i [] = none
at_index i (r ∷ rs) = if r.device_index == i then some r else at_index i rs

abbrev pub is_selected : AcquireRequest → Option DeviceRecord → Bool
is_selected identity none = false
is_selected identity (some r) = matches identity r

-- The part that every configuration of the single mode leaves behind.
abbrev pub keep_single : RadioConfig → Daemon → Daemon
keep_single c d = record d {
  config = c;
  bootstrap_config = c;
  bootstrap_configured = true;
  configured = true;
}

module _ (env : Env) where
  -- Another receiver than the one that is still open: that one is closed first.
  unfoldable pub drop_other : Bool → M (Unit {0})
  drop_other other d =
      if d.radio && other
      then (do discard (close_radio env); modify (λ s. record s { configured = false })) d
      else (tt, d)

  unfoldable pub take_receiver : ℤ → AcquireRequest → List DeviceRecord → ℕ → M Reply
  take_receiver fd a devices i d =
      (do
        drop_other (not (is_selected d.acquired_identity (at_index i devices)))
        s ← get
        if s.running
            then (do
              modify
                  (λ s. record s { owner = fd; acquired_identity = record a { device_index = i } })
              return (reply ok))
            else return (reply io_error))
        d

  abbrev pub take_found : ℤ → AcquireRequest → List DeviceRecord → Resolved → M Reply
  take_found fd a devices (index i) = take_receiver fd a devices i
  take_found fd a devices not_found = return (reply bad_request)
  take_found fd a devices ambiguous = return (reply bad_request)

  unfoldable pub serve_acquire : ℤ → AcquireRequest → M Reply
  serve_acquire fd a d =
      if d.duo_active
      then (reply busy, d)
      else if is_nonneg d.owner && not (eq_ℤ d.owner fd)
      then (reply busy, d)
      else if eq_ℤ d.owner fd
      then (reply ok, d)
      else (do devices ← snapshot_sdrplay_devices env; take_found fd a devices (resolve a devices))
          d

  unfoldable pub serve_start : M Reply
  serve_start d = (
    reply ok,
    record d {
      streaming = true;
      stream_error = false;
      stream_result = pos 0;
      sequence_a = 0;
      sequence_b = 0;
    },
  )

  unfoldable pub serve_stop : M Reply
  serve_stop = do
    stopped ← stop_stream env
    return (reply (if is_zero stopped then ok else io_error))

  unfoldable pub serve_release : ℤ → M Reply
  serve_release fd = do release_client env fd; return (reply ok)

  unfoldable pub serve_configure : RadioConfig → M Reply
  serve_configure c = do
    status ← configure_radio env c
    when (is_ok status) (modify (keep_single c))
    return (reply status)

  unfoldable pub serve_configure_dual : DualConfig → M Reply
  serve_configure_dual c = do
    status ← configure_dual_radio env c
    when (is_ok status) (modify (λ s. record s { bootstrap_configured = false }))
    return (reply status)

  -- The old session is stopped and closed before the new one is configured.
  unfoldable pub take_down : M Status
  take_down d =
      (do
        stopped ← (λ s. if d.stream_thread_started then stop_stream env s else (pos 0, s))
        if not (is_zero stopped)
            then return io_error
            else (do closed ← close_radio env; return (if is_zero closed then ok else io_error)))
        d

  abbrev and_configure : Status → M Status → M Status
  and_configure s m = if is_ok s then m else return s

  unfoldable pub serve_swap_tuner : SwapRequest → M Reply
  serve_swap_tuner u d =
      if not (u.tuner == tuner_a) && not (u.tuner == tuner_b)
        || not (config_valid u.config)
        || not (u.config.tuner == u.tuner)
      then (reply bad_request, d)
      else (do
        down ← take_down
        status ← and_configure down (configure_radio env u.config)
        when (is_ok status) (
            modify (λ s. record (keep_single u.config s) {
              mode_swap_paused = d.stream_thread_started;
              sequence_a = 0;
            }))
        return (reply status))
          d

  -- OPENRSP_MODE_SINGLE and OPENRSP_MODE_DUAL
  abbrev pub is_dual : ModeSwapRequest → Bool
  is_dual u = u.mode == 2

  abbrev pub valid_target : ModeSwapRequest → Bool
  valid_target u =
      if u.mode == 1
      then config_valid u.single
      else if u.mode == 2
      then valid_dual_config u.dual
      else false

  abbrev pub keep_target : ModeSwapRequest → Daemon → Daemon
  keep_target u d =
      if is_dual u
      then record d { dual_config = u.dual; bootstrap_configured = false; configured = true }
      else keep_single u.single d

  unfoldable pub roll_back : Daemon → Status → M Reply
  roll_back old status = do
    rollback ←
        (if old.dual_mode
          then configure_dual_radio env old.dual_config
          else configure_radio env old.config)
    if is_ok rollback
        then (do
          modify (λ s. record s {
            dual_mode = old.dual_mode;
            config = old.config;
            dual_config = old.dual_config;
            bootstrap_config = old.bootstrap_config;
            bootstrap_configured = old.bootstrap_configured;
            configured = true;
            mode_swap_paused = false;
          })
          return (record (reply status) { start_stream = true; start_after_error = true }))
        else return (reply status)

  unfoldable pub serve_swap_mode : ModeSwapRequest → M Reply
  serve_swap_mode u d =
      if not (valid_target u)
      then (reply bad_request, d)
      else (do
        down ← take_down
        status ←
            and_configure down
              (if is_dual u then configure_dual_radio env u.dual else configure_radio env u.single)
        if is_ok status
            then (do
              modify (λ s. record (keep_target u s) {
                recovery_config_pending = false;
                mode_swap_paused = d.stream_thread_started;
                sequence_a = 0;
                sequence_b = 0;
              })
              return (reply status))
            else (if d.stream_thread_started then roll_back d status else return (reply status)))
          d

  unfoldable pub serve_resume_mode : M Reply
  serve_resume_mode = do
    modify (λ s. record s { mode_swap_paused = false })
    return (record (reply ok) { start_stream = true })

  abbrev queued : Reply
  queued = record (reply ok) { changed_flags = recovery_queued }

  abbrev pub after_update : UpdateRequest → Bool → Status → M Reply
  after_update u restarts ok = return (record (reply ok) { start_stream = restarts })
  after_update u restarts io_error = do
    modify (λ s. record s { config = u.config; stream_error = true })
    s ← get
    when s.radio (discard (call env cancel_async))
    return queued
  after_update u restarts other = return (reply other)

  -- A failing update is kept for the recovery of the stream and reported as a success.
  unfoldable pub update_open : UpdateRequest → M Reply
  update_open u d =
      let restarts =
        d.stream_thread_started
        && has_bit change_sample_rate u.changed_flags
        && not (u.config.sample_rate_hz == d.config.sample_rate_hz) in
      (do
        stopped ← (λ s. if restarts then stop_stream env s else (pos 0, s))
        status ← (if is_zero stopped then apply_update env u else return io_error)
        after_update u restarts status)
        d

  unfoldable pub serve_update : UpdateRequest → M Reply
  serve_update u d =
      if not (config_valid u.config)
      then (reply bad_request, d)
      else if not d.radio || not d.configured || d.stream_error
      then (queued, record d { config = u.config })
      else update_open u d
