-- ===== src/Daemon/Core.antt =====
-- Who owns what: the part of the daemon's state that the handling of the hardware leaves alone.
use openrsp.Base.{
  ℕ, zero, suc, Bool, true, false, not, ◌≡◌, refl, ap, ◌∙◌, ◌==◌, eq_ℤ, if◌then◌else◌, ℤ, arith,
  has_bit, ◌&&◌, ◌||◌,
}
use openrsp.Protocol.{RadioConfig, DualConfig, UpdateRequest}
use openrsp.Identity.{Resolved, index, not_found, ambiguous}
use openrsp.Duo.{DuoSession, DuoEvent}
use openrsp.Daemon.Config.{
  config_valid, Controls, control_flags, to_u32, change_sample_rate, change_rf, change_bandwidth,
  change_if, change_gain,
}
use openrsp.Daemon.State.{
  Env, Daemon, Status, ok, bad_request, io_error, is_ok, ebusy, M, when, discard, call, sleep,
  return, ◌>>◌, modify, set_sample_rate, set_center_freq, set_bandwidth, set_if_freq,
}
use openrsp.Daemon.Stream.{
  stream_main_end, join_stream_thread, create_stream_thread, stop_stream, close_radio,
  send_duo_event,
}
use openrsp.Daemon.Snapshot.{resolve_acquired_device, snapshot_sdrplay_devices}
use openrsp.Daemon.Radio.{
  open_radio, open_found, open_found_both, ensure_open, apply_if_open, apply_config,
  configure_attempts, leave_mode, configure_radio, set_rspduo_controls, open_both, apply_dual,
  configure_dual_radio, set_gain, apply_update, update_dual, update_single, or_failed,
}
use openrsp.Daemon.Inventory.{Held, held-resolve_acquired_device, held-snapshot_sdrplay_devices}

pub record Core : Type 0 where
  pub owner : ℤ
  pub api_lock_owner : ℤ
  pub duo : DuoSession
  pub duo_active : Bool

abbrev pub core : Daemon → Core
core d = record {
  owner = d.owner;
  api_lock_owner = d.api_lock_owner;
  duo = d.duo;
  duo_active = d.duo_active;
}

abbrev core_of : Held → Core
core_of h = record {
  owner = h.owner;
  api_lock_owner = h.api_lock_owner;
  duo = h.duo;
  duo_active = h.duo_active;
}

pub if-core {ℓ} :
    {A : Type ℓ} (k : Core) (b : Bool) (x y : A × Daemon)
    → core x.1 ≡ k
    → core y.1 ≡ k
    → core (if b then x else y).1 ≡ k
if-core k true x y p q = p
if-core k false x y p q = q

module _ (env : Env) where
  pub core-create_stream_thread : (d : Daemon) → core (create_stream_thread env d).1 ≡ core d
  unfolding create_stream_thread
  core-create_stream_thread d = ground arith

  pub core-stop_stream : (d : Daemon) → core (stop_stream env d).1 ≡ core d
  unfolding stop_stream join_stream_thread stream_main_end
  core-stop_stream d = ground arith

  pub core-close_radio : (d : Daemon) → core (close_radio env d).1 ≡ core d
  unfolding close_radio
  core-close_radio d = ground arith

  pub core-send_duo_event : (e : DuoEvent) (d : Daemon) → core (send_duo_event env e d).1 ≡ core d
  unfolding send_duo_event
  core-send_duo_event e d = ground arith

  pub core-snapshot_sdrplay_devices :
      (d : Daemon) → core (snapshot_sdrplay_devices env d).1 ≡ core d
  core-snapshot_sdrplay_devices d = ap core_of (held-snapshot_sdrplay_devices env d)

  pub core-resolve_acquired_device : (d : Daemon) → core (resolve_acquired_device env d).1 ≡ core d
  core-resolve_acquired_device d = ap core_of (held-resolve_acquired_device env d)

  core-open_found : (t : ℕ) (r : Resolved) (d : Daemon) → core (open_found env t r d).1 ≡ core d
  unfolding open_radio
  core-open_found t (index i) d = ground arith
  core-open_found t not_found d = refl
  core-open_found t ambiguous d = refl

  core-open_found_both : (r : Resolved) (d : Daemon) → core (open_found_both env r d).1 ≡ core d
  unfolding open_radio
  core-open_found_both (index i) d = ground arith
  core-open_found_both not_found d = refl
  core-open_found_both ambiguous d = refl

  core-ensure_open : (t : ℕ) (d : Daemon) → core (ensure_open env t d).1 ≡ core d
  unfolding ensure_open
  core-ensure_open t d =
      (let found = resolve_acquired_device env d in
        if-core (core d) d.radio (true, d) (open_found env t found.0 found.1) refl
          (core-open_found t found.0 found.1 ∙ core-resolve_acquired_device d))

  core-open_both : (d : Daemon) → core (open_both env d).1 ≡ core d
  unfolding open_both
  core-open_both d =
      (let found = resolve_acquired_device env d in
        if-core (core d) d.radio (true, d) (open_found_both env found.0 found.1) refl
          (core-open_found_both found.0 found.1 ∙ core-resolve_acquired_device d))

  core-apply_if_open : (c : RadioConfig) (d : Daemon) → core (apply_if_open env c d).1 ≡ core d
  unfolding apply_config
  core-apply_if_open c d = ground arith

  core-leave_mode : (b : Bool) (d : Daemon) → core (leave_mode env b d).1 ≡ core d
  unfolding leave_mode
  core-leave_mode b d = ground (arith, core-close_radio d)

  abbrev rest_of : ℕ → Daemon → Daemon
  rest_of left d = (when (not (left == 0)) (discard (call env (sleep 250))) d).1

  core-rest_of : (left : ℕ) (d : Daemon) → core (rest_of left d) ≡ core d
  core-rest_of left d = ground arith

  core-configure_attempts :
      (n : ℕ) (c : RadioConfig) (d : Daemon) → core (configure_attempts env n c d).1 ≡ core d
  unfolding configure_attempts
  core-configure_attempts zero c d = refl
  core-configure_attempts (suc n) c d =
      (let opened = ensure_open env c.tuner d in
        let applied = apply_if_open env c opened.1 in
        let closed = close_radio env applied.1 in
        let rested = rest_of n closed.1 in
        let was_opened = core-ensure_open c.tuner d in
        let was_applied = core-apply_if_open c opened.1 ∙ was_opened in
        let was_closed = core-close_radio applied.1 ∙ was_applied in
        if-core (core d) (not opened.0) (bad_request, opened.1) _ was_opened
          (if-core (core d) (is_ok applied.0) (ok, record (applied.1) { dual_mode = false }) _
            was_applied
            (if-core (core d) (eq_ℤ closed.0 ebusy) (io_error, closed.1) _ was_closed
              (core-configure_attempts n c rested ∙ core-rest_of n closed.1 ∙ was_closed))))

  pub core-configure_radio :
      (c : RadioConfig) (d : Daemon) → core (configure_radio env c d).1 ≡ core d
  unfolding configure_radio
  core-configure_radio c d =
      (let left = leave_mode env d.dual_mode d in
        ground (arith, core-leave_mode d.dual_mode d, core-configure_attempts 3 c left.1))

  core-apply_dual : (c : DualConfig) (d : Daemon) → core (apply_dual env c d).1 ≡ core d
  unfolding apply_dual close_radio set_rspduo_controls
  core-apply_dual c d = ground arith

  core-attempt_dual :
      (b : Bool) (c : DualConfig) (d : Daemon)
      → core ((if b then apply_dual env c else return io_error) d).1 ≡ core d
  core-attempt_dual true c d = core-apply_dual c d
  core-attempt_dual false c d = refl

  pub core-configure_dual_radio :
      (c : DualConfig) (d : Daemon) → core (configure_dual_radio env c d).1 ≡ core d
  unfolding configure_dual_radio
  core-configure_dual_radio c d =
      (let left = leave_mode env (not d.dual_mode) d in
        let opened = open_both env left.1 in
        ground (
          arith,
          core-leave_mode (not d.dual_mode) d,
          core-open_both left.1,
          core-attempt_dual opened.0 c opened.1,
        ))

  core-set_rspduo_controls :
      (c : RadioConfig) (f : Controls) (d : Daemon)
      → core (set_rspduo_controls env c f d).1 ≡ core d
  unfolding set_rspduo_controls
  core-set_rspduo_controls c f d = ground arith

  core-set_gain : (c : RadioConfig) (d : Daemon) → core (set_gain env c d).1 ≡ core d
  unfolding set_gain
  core-set_gain c d = refl

  abbrev keep_if : RadioConfig → Bool → M Status
  keep_if c failed =
      if failed then return io_error else (do modify (λ s. record s { config = c }); return ok)

  core-kept : (c : RadioConfig) (failed : Bool) (d : Daemon) → core (keep_if c failed d).1 ≡ core d
  core-kept c true d = refl
  core-kept c false d = refl

  core-update_dual :
      (flags : ℕ) (c : RadioConfig) (d : Daemon) → core (update_dual env flags c d).1 ≡ core d
  unfolding update_dual set_rspduo_controls or_failed
  core-update_dual flags c d = ground arith

  core-or_failed :
      (failed wanted : Bool) (m : M ℤ) (d : Daemon)
      → core (m d).1 ≡ core d
      → core (or_failed env failed wanted m d).1 ≡ core d
  unfolding or_failed
  core-or_failed failed true m d p = p
  core-or_failed failed false m d p = refl

  core-update_single :
      (flags : ℕ) (c : RadioConfig) (d : Daemon) → core (update_single env flags c d).1 ≡ core d
  unfolding update_single
  core-update_single flags c d =
      (let old = d.config in
        let w1 = has_bit change_sample_rate flags && not (c.sample_rate_hz == old.sample_rate_hz) in
        let w2 =
          has_bit change_rf flags && not (c.center_frequency_hz == old.center_frequency_hz) in
        let w3 = has_bit change_bandwidth flags && not (c.bandwidth_hz == old.bandwidth_hz) in
        let w4 = has_bit change_if flags && not (eq_ℤ c.if_frequency_hz old.if_frequency_hz) in
        let w5 = has_bit change_gain flags || has_bit change_rf flags in
        let m1 = call env (set_sample_rate c.sample_rate_hz) in
        let m2 = call env (set_center_freq c.center_frequency_hz) in
        let m3 = call env (set_bandwidth c.bandwidth_hz) in
        let m4 = call env (set_if_freq (to_u32 c.if_frequency_hz)) in
        let m6 = set_rspduo_controls env c (control_flags flags) in
        let s1 = or_failed env false w1 m1 d in
        let s2 = or_failed env s1.0 w2 m2 s1.1 in
        let s3 = or_failed env s2.0 w3 m3 s2.1 in
        let s4 = or_failed env s3.0 w4 m4 s3.1 in
        let s5 = or_failed env s4.0 w5 (set_gain env c) s4.1 in
        let s6 = or_failed env s5.0 true m6 s5.1 in
        let kept =
          core-or_failed s5.0 true m6 s5.1 (core-set_rspduo_controls c (control_flags flags) s5.1)
          ∙ core-or_failed s4.0 w5 (set_gain env c) s4.1 (core-set_gain c s4.1)
          ∙ core-or_failed s3.0 w4 m4 s3.1 refl
          ∙ core-or_failed s2.0 w3 m3 s2.1 refl
          ∙ core-or_failed s1.0 w2 m2 s1.1 refl
          ∙ core-or_failed false w1 m1 d refl in
        if-core (core d) (not (c.tuner == old.tuner) || not (config_valid c)) (bad_request, d) _
          refl (core-kept c s6.0 s6.1 ∙ kept))

  pub core-apply_update : (u : UpdateRequest) (d : Daemon) → core (apply_update env u d).1 ≡ core d
  unfolding apply_update
  core-apply_update u d = ground (
    arith,
    core-update_dual u.changed_flags u.config d,
    core-update_single u.changed_flags u.config d,
  )
