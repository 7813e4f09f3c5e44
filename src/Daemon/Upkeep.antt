-- ===== src/Daemon/Upkeep.antt =====
-- What daemon/openrspd.c does between two requests leaves alone who owns what.
use openrsp.Base.{
  ℕ, Bool, true, false, not, ◌≡◌, refl, ◌∙◌, ◌==◌, ltb, eq_ℤ, if◌then◌else◌, ℤ, pos, arith, List,
  length,
}
use openrsp.Identity.{Resolved, index, not_found, ambiguous}
use openrsp.Protocol.{RadioConfig}
use openrsp.Daemon.Config.{all_controls, to_u32, tuner_both, Controls}
use openrsp.Daemon.State.{
  Env, Daemon, M, Effect, set_sample_rate, set_center_freq, set_bandwidth, set_if_freq, when,
  return, modify, call, monotonic_milliseconds,
}
use openrsp.Daemon.Stream.{
  join_stream_thread, stream_main_end, create_stream_thread, close_radio, send_stream, deliver,
  cancel_if_open, write_failed, stream_slot_bytes,
}
use openrsp.Daemon.Snapshot.{resolve_acquired_device}
use openrsp.Daemon.Radio.{and_then, set_gain, set_rspduo_controls}
use openrsp.Removal.{present, absent}
use openrsp.Daemon.Recovery.{
  removal_grace, bootstrap, notify_removed, report_removed_device, take_apart, missing, several,
  reopen_dual, reopen_single, found_again, after_look, look_again, recover_failed_stream, retune,
  finish_recovery_config,
}
use openrsp.Daemon.Core.{
  core, core-configure_radio, core-configure_dual_radio, core-resolve_acquired_device,
}

-- A step that keeps who owns what.
abbrev pub Keeps {ℓ} : {A : Type ℓ} → M A → Type 0
Keeps m = (d : Daemon) → core (m d).1 ≡ core d

module _ (env : Env) where
  abbrev unless : Bool → Effect → M ℤ
  unless same e = if same then return (pos 0) else call env e

  core-unless : (same : Bool) (e : Effect) → Keeps (unless same e)
  core-unless true e d = refl
  core-unless false e d = refl

  core-and_then : (r : ℤ) (m : M ℤ) → Keeps m → Keeps (and_then env r m)
  core-and_then r m k d = ground (arith, k d)

  core-set_gain : (c : RadioConfig) → Keeps (set_gain env c)
  unfolding set_gain
  core-set_gain c d = refl

  core-set_rspduo_controls : (c : RadioConfig) (f : Controls) → Keeps (set_rspduo_controls env c f)
  unfolding set_rspduo_controls
  core-set_rspduo_controls c f d = ground arith

  core-write_failed : (t : ℤ) → Keeps (write_failed env t)
  unfolding write_failed cancel_if_open
  core-write_failed t d = ground arith

  core-deliver : (t : ℕ) (b : List ℕ) → Keeps (deliver env t b)
  unfolding deliver write_failed cancel_if_open
  core-deliver t b d = ground arith

  core-transfer :
      (large : Bool) (t : ℕ) (b : List ℕ)
      → Keeps (if large then cancel_if_open env else deliver env t b)
  unfolding cancel_if_open
  core-transfer true t b d = ground arith
  core-transfer false t b d = core-deliver t b d

  core-first :
      (seen : Bool) (d : Daemon)
      → core
          (when
            (not seen)
            (modify (λ s. record s { logged_usb_iq = true; first_iq_seen = true }))
            d).1
        ≡ core d
  core-first true d = refl
  core-first false d = refl

  pub core-send_stream : (t : ℕ) (b : List ℕ) → Keeps (send_stream env t b)
  unfolding send_stream
  core-send_stream t b d =
      core-transfer (ltb stream_slot_bytes (length b)) t b
        (when (not d.logged_usb_iq)
          (modify (λ s. record s { logged_usb_iq = true; first_iq_seen = true })) d).1
      ∙ core-first d.logged_usb_iq d

  core-notify_removed : (fd : ℤ) (t : ℕ) → Keeps (notify_removed env fd t)
  unfolding notify_removed
  core-notify_removed fd t d = ground arith

  core-report_removed_device : Keeps (report_removed_device env)
  unfolding report_removed_device
  core-report_removed_device d =
      (let master = (notify_removed env d.duo.master_fd d.duo.master_tuner d).1 in
        ground (
          arith,
          core-notify_removed d.duo.master_fd d.duo.master_tuner d,
          core-notify_removed d.duo.slave_fd d.duo.slave_tuner master,
          core-notify_removed d.owner (if d.dual_mode then tuner_both else d.config.tuner) d,
        ))

  core-report_when : (b : Bool) → Keeps (when b (report_removed_device env))
  core-report_when true d = core-report_removed_device d
  core-report_when false d = refl

  core-missing : Keeps (missing env)
  unfolding missing monotonic_milliseconds
  core-missing d =
      (let now = monotonic_milliseconds env d in
        let look = absent d.removal_tracker now.0 removal_grace in
        core-report_when look.0 (record (now.1) { removal_tracker = look.1 }))

  core-reopen_dual : Keeps (reopen_dual env)
  unfolding reopen_dual create_stream_thread
  core-reopen_dual d = ground (arith, core-configure_dual_radio env d.dual_config d)

  core-reopen_single : Keeps (reopen_single env)
  unfolding reopen_single create_stream_thread close_radio
  core-reopen_single d = ground (arith, core-configure_radio env (bootstrap d) d)

  core-take_apart : Keeps (take_apart env)
  unfolding take_apart join_stream_thread stream_main_end close_radio
  core-take_apart d = ground arith

  core-found_again : Keeps (found_again env)
  unfolding found_again
  core-found_again d =
      (let back = record d {
        removal_tracker = present d.removal_tracker;
        recovery_identity_status = pos 0;
      } in
        ground (arith, core-reopen_dual back, core-reopen_single back))

  core-after_look : (r : Resolved) → Keeps (after_look env r)
  unfolding several
  core-after_look (index i) d = core-found_again d
  core-after_look not_found d = core-missing d
  core-after_look ambiguous d = refl

  core-look_again : Keeps (look_again env)
  unfolding look_again
  core-look_again d =
      (let found = resolve_acquired_device env (record d { device_snapshot_valid = false }) in
        core-after_look found.0 found.1
        ∙ core-resolve_acquired_device env (record d { device_snapshot_valid = false }))

  pub core-recover_failed_stream : Keeps (recover_failed_stream env)
  unfolding recover_failed_stream
  core-recover_failed_stream d =
      (let apart = take_apart env d in ground (arith, core-take_apart d, core-look_again apart.1))

  core-retune : (old new : RadioConfig) → Keeps (retune env old new)
  unfolding retune
  core-retune old new d =
      (let m1 =
          unless (new.sample_rate_hz == old.sample_rate_hz) (set_sample_rate new.sample_rate_hz) in
        let m2 =
          unless (new.center_frequency_hz == old.center_frequency_hz)
            (set_center_freq new.center_frequency_hz) in
        let m3 = unless (new.bandwidth_hz == old.bandwidth_hz) (set_bandwidth new.bandwidth_hz) in
        let m4 =
          unless (eq_ℤ new.if_frequency_hz old.if_frequency_hz)
            (set_if_freq (to_u32 new.if_frequency_hz)) in
        let m6 = set_rspduo_controls env new all_controls in
        let s1 = m1 d in
        let s2 = and_then env s1.0 m2 s1.1 in
        let s3 = and_then env s2.0 m3 s2.1 in
        let s4 = and_then env s3.0 m4 s3.1 in
        let s5 = and_then env s4.0 (set_gain env new) s4.1 in
        core-and_then s5.0 m6 (core-set_rspduo_controls new all_controls) s5.1
        ∙ core-and_then s4.0 (set_gain env new) (core-set_gain new) s4.1
        ∙ core-and_then s3.0 m4
            (core-unless (eq_ℤ new.if_frequency_hz old.if_frequency_hz)
              (set_if_freq (to_u32 new.if_frequency_hz)))
            s3.1
        ∙ core-and_then s2.0 m3
            (core-unless (new.bandwidth_hz == old.bandwidth_hz) (set_bandwidth new.bandwidth_hz))
            s2.1
        ∙ core-and_then s1.0 m2
            (core-unless (new.center_frequency_hz == old.center_frequency_hz)
              (set_center_freq new.center_frequency_hz))
            s1.1
        ∙ core-unless (new.sample_rate_hz == old.sample_rate_hz)
            (set_sample_rate new.sample_rate_hz) d)

  pub core-finish_recovery_config : Keeps (finish_recovery_config env)
  unfolding finish_recovery_config
  core-finish_recovery_config d = ground (arith, core-retune (bootstrap d) d.config d)
