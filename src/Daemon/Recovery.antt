-- ===== src/Daemon/Recovery.antt =====
-- How daemon/openrspd.c brings a failed stream back: the receiver is looked up again, opened with the
-- session's first settings, and set to the newest ones once IQ flows.
use openrsp.Base.{
  ℕ, Bool, true, false, not, ◌&&◌, ◌||◌, ◌==◌, if◌then◌else◌, ℤ, pos, negsuc, eq_ℤ, is_nonneg,
}
use openrsp.Protocol.{RadioConfig}
use openrsp.Identity.{Resolved, index, not_found, ambiguous}
use openrsp.Removal.{present, absent}
use openrsp.Daemon.Config.{tuner_both, all_controls, to_u32}
use openrsp.Daemon.State.{
  Env, Daemon, M, ◌>>=◌, ◌>>◌, return, get, modify, when, discard, is_zero, is_ok, ebusy, call,
  monotonic_milliseconds, removed_event, set_sample_rate, set_center_freq, set_bandwidth,
  set_if_freq, cancel_async,
}
use openrsp.Daemon.Stream.{join_stream_thread, create_stream_thread, close_radio, write_frame}
use openrsp.Daemon.Snapshot.{resolve_acquired_device}
use openrsp.Daemon.Radio.{
  configure_radio, configure_dual_radio, set_gain, set_rspduo_controls, and_then,
}

-- OPENRSPD_DEVICE_REMOVAL_GRACE_MILLISECONDS
abbrev pub removal_grace : ℕ
removal_grace = 5000

-- The settings that a session starts with.
abbrev pub bootstrap : Daemon → RadioConfig
bootstrap d = if d.bootstrap_configured then d.bootstrap_config else d.config

module _ (env : Env) where
  unfoldable pub notify_removed : ℤ → ℕ → M (Unit {0})
  notify_removed fd tuner = if not (is_nonneg fd) then return tt else (do
    written ← write_frame env fd (removed_event tuner)
    when (not (is_zero written))
        (modify (λ s. record s { client_write_error_fd = fd; client_write_error = true })))

  unfoldable pub report_removed_device : M (Unit {0})
  report_removed_device d =
      if d.duo_active
      then (do
        notify_removed d.duo.master_fd d.duo.master_tuner
        notify_removed d.duo.slave_fd d.duo.slave_tuner)
          d
      else notify_removed d.owner (if d.dual_mode then tuner_both else d.config.tuner) d

  -- The stream's thread is gone and the radio closed; `false` stops on -EBUSY.
  unfoldable pub take_apart : M Bool
  take_apart d =
      (do
        when d.stream_thread_started (do
          discard (join_stream_thread env)
          modify (λ s. record s { stream_thread_started = false }))
        closed ← close_radio env
        if eq_ℤ closed ebusy then return false else (do
          modify (λ s. record s { configured = false; recovery_config_pending = false })
          return true))
        d

  -- An ambiguous identity is no removal.
  unfoldable pub missing : M (Unit {0})
  missing d =
      (do
        now ← monotonic_milliseconds env
        let (report, tracker) = absent d.removal_tracker now removal_grace
        modify (λ s. record s { removal_tracker = tracker })
        when report report_removed_device
        modify (λ s. record s { recovery_identity_status = negsuc 0 }))
        d

  unfoldable pub several : M (Unit {0})
  several = modify (λ s. record s {
    removal_tracker = present s.removal_tracker;
    recovery_identity_status = negsuc 1;
  })

  abbrev before_thread : Daemon → Daemon
  before_thread s = record s {
    logged_usb_iq = false;
    logged_socket_iq = false;
    first_iq_seen = false;
    stream_error = false;
    stream_result = pos 0;
    streaming = true;
  }

  abbrev thread_failed : Daemon → Daemon
  thread_failed s = record s { streaming = false; stream_error = true }

  unfoldable pub reopen_dual : M (Unit {0})
  reopen_dual d =
      (do
        status ← configure_dual_radio env d.dual_config
        when (is_ok status) (do
          modify before_thread
          created ← create_stream_thread env
          modify (λ s.
              if created then record s { stream_thread_started = true } else thread_failed s)))
        d

  unfoldable pub reopen_single : M (Unit {0})
  reopen_single d =
      (do
        status ← configure_radio env (bootstrap d)
        if not (is_ok status) then discard (close_radio env) else (do
          modify (λ s. before_thread (record s { configured = true }))
          created ← create_stream_thread env
          if created
              then modify
                  (λ s. record s { stream_thread_started = true; recovery_config_pending = true })
              else (do modify thread_failed; discard (close_radio env))))
        d

  unfoldable pub found_again : M (Unit {0})
  found_again = do
    modify (λ s. record s {
      removal_tracker = present s.removal_tracker;
      recovery_identity_status = pos 0;
    })
    d ← get
    if d.dual_mode then reopen_dual else reopen_single

  abbrev pub after_look : Resolved → M (Unit {0})
  after_look (index i) = found_again
  after_look not_found = missing
  after_look ambiguous = several

  unfoldable pub look_again : M (Unit {0})
  look_again = do
    modify (λ s. record s { device_snapshot_valid = false })
    found ← resolve_acquired_device env
    after_look found

  abbrev is_wanted : Daemon → Bool
  is_wanted d = is_nonneg d.owner || (d.duo_active && d.duo.master_selected)

  unfoldable pub recover_failed_stream : M (Unit {0})
  recover_failed_stream d =
      if not d.stream_error || d.streaming
      then (tt, d)
      else (do apart ← take_apart; s ← get; when (apart && is_wanted s) look_again) d

  unfoldable pub retune : RadioConfig → RadioConfig → M ℤ
  retune old new = do
    a ←
        (if new.sample_rate_hz == old.sample_rate_hz
          then return (pos 0)
          else call env (set_sample_rate new.sample_rate_hz))
    b ← and_then env a (
        if new.center_frequency_hz == old.center_frequency_hz
        then return (pos 0)
        else call env (set_center_freq new.center_frequency_hz))
    c ← and_then env b (
        if new.bandwidth_hz == old.bandwidth_hz
        then return (pos 0)
        else call env (set_bandwidth new.bandwidth_hz))
    e ← and_then env c (
        if eq_ℤ new.if_frequency_hz old.if_frequency_hz
        then return (pos 0)
        else call env (set_if_freq (to_u32 new.if_frequency_hz)))
    f ← and_then env e (set_gain env new)
    and_then env f (set_rspduo_controls env new all_controls)

  unfoldable pub finish_recovery_config : M (Unit {0})
  finish_recovery_config d =
      if d.dual_mode || not d.recovery_config_pending || not d.first_iq_seen || not d.radio
      then (tt, d)
      else (do
        result ← retune (bootstrap d) d.config
        modify (λ s. record s { recovery_config_pending = false })
        when (not (is_zero result))
            (do modify (λ s. record s { stream_error = true }); discard (call env cancel_async)))
          d
