-- ===== src/Daemon/Radio.antt =====
-- How daemon/openrspd.c sets the receiver up and changes its settings. The driver is in
-- third_party/libmirisdr; its calls are effects.
use openrsp.Base.{
  ℕ, zero, suc, Bool, true, false, not, ◌&&◌, ◌||◌, ◌==◌, if◌then◌else◌, ℤ, pos, eq_ℤ, is_nonneg,
  has_bit,
}
use openrsp.Protocol.{RadioConfig, DualConfig, UpdateRequest}
use openrsp.Identity.{Resolved, index, not_found, ambiguous}
use openrsp.Daemon.Config.{
  config_valid, valid_dual_config, tuner_a, tuner_b, tuner_both, change_sample_rate, change_rf,
  change_bandwidth, change_if, change_gain, Controls, control_flags, all_controls, controls_for,
  no_controls, to_u32,
}
use openrsp.Daemon.State.{
  Env, Status, ok, bad_request, io_error, is_ok, M, ◌>>=◌, ◌>>◌, return, get, modify, when, discard,
  is_zero, ebusy, call, open_tuner, configure_rspduo, configure_rspduo_dual, update_rspduo_dual,
  set_controls, set_gain_lna, set_sample_rate, set_center_freq, set_bandwidth, set_if_freq, sleep,
}
use openrsp.Daemon.Stream.{close_radio}
use openrsp.Daemon.Snapshot.{resolve_acquired_device}

abbrev pub is_negative : ℤ → Bool
is_negative r = not (is_nonneg r)

-- `channel_b` for tuner B, and `channel_a` for any other.
abbrev pub channel : DualConfig → ℕ → RadioConfig
channel c tuner = if tuner == tuner_b then c.channel_b else c.channel_a

abbrev pub set_channel : DualConfig → RadioConfig → DualConfig
set_channel c next =
    if next.tuner == tuner_b then record c { channel_b = next } else record c { channel_a = next }

module _ (env : Env) where
  unfoldable pub set_gain : RadioConfig → M ℤ
  set_gain c = call env (set_gain_lna c.gain_reduction_db c.lna_state)

  unfoldable pub set_rspduo_controls : RadioConfig → Controls → M ℤ
  set_rspduo_controls c flags =
      let left = controls_for c.tuner flags in
      if no_controls left
      then return (pos 0)
      else call env (
          set_controls c.tuner c.bias_tee_enabled c.rf_notch_enabled c.dab_notch_enabled
            c.external_reference_enabled (if c.am_port_select == 0 then 2 else 1) c.am_notch_enabled
            left)

  abbrev configure_effect : RadioConfig → M ℤ
  configure_effect c = call env (
      configure_rspduo c.sample_rate_hz c.center_frequency_hz (to_u32 c.if_frequency_hz)
        c.bandwidth_hz c.gain_reduction_db c.lna_state)

  unfoldable pub apply_config : RadioConfig → M Status
  apply_config c =
      if not (config_valid c)
      then return bad_request
      else (do result ← configure_effect c; return (if is_zero result then ok else io_error))

  -- mirisdr_open_tuner leaves a handle exactly when it returns 0.
  unfoldable pub open_radio : ℕ → ℕ → M ℤ
  open_radio i tuner = do
    result ← call env (open_tuner i tuner)
    when (is_zero result) (modify (λ d. record d { radio = true }))
    return result

  abbrev pub open_found : ℕ → Resolved → M Bool
  open_found tuner (index i) = do discard (open_radio i tuner); return true
  open_found tuner not_found = return false
  open_found tuner ambiguous = return false

  -- The first half of an attempt; `false` if the acquired receiver is not there.
  unfoldable pub ensure_open : ℕ → M Bool
  ensure_open tuner d =
      if d.radio
      then (true, d)
      else (do found ← resolve_acquired_device env; open_found tuner found) d

  abbrev pub apply_if_open : RadioConfig → M Status
  apply_if_open c d = if d.radio then apply_config c d else (io_error, d)

  -- The attempts that are left; the daemon pauses in front of each further one.
  unfoldable pub configure_attempts : ℕ → RadioConfig → M Status
  configure_attempts zero c d = (io_error, d)
  configure_attempts (suc left) c d =
      let opened = ensure_open c.tuner d in
      let applied = apply_if_open c opened.1 in
      let closed = close_radio env applied.1 in
      let rested = (when (not (left == 0)) (discard (call env (sleep 250))) closed.1).1 in
      let rest = configure_attempts left c rested in
      if not opened.0
      then (bad_request, opened.1)
      else if is_ok applied.0
      then (ok, record (applied.1) { dual_mode = false })
      else if eq_ℤ closed.0 ebusy
      then (io_error, closed.1)
      else rest

  -- A radio in dual mode is closed before a single configuration; `false` stops on -EBUSY.
  unfoldable pub leave_mode : Bool → M Bool
  leave_mode leaving d =
      if leaving && d.radio
      then (do
        closed ← close_radio env
        if eq_ℤ closed ebusy
            then return false
            else (do modify (λ s. record s { configured = false }); return true))
          d
      else (true, d)

  -- Every caller gives three attempts.
  unfoldable pub configure_radio : RadioConfig → M Status
  configure_radio c = if not (config_valid c) then return bad_request else (do
    d ← get
    left ← leave_mode d.dual_mode
    if left then configure_attempts 3 c else return io_error)

  abbrev pub configure_dual_effect : DualConfig → M ℤ
  configure_dual_effect c = call env (
      configure_rspduo_dual c.sample_rate_hz c.channel_a.center_frequency_hz
        c.channel_b.center_frequency_hz (to_u32 c.channel_a.if_frequency_hz)
        c.channel_a.bandwidth_hz c.channel_a.gain_reduction_db c.channel_a.lna_state
        c.channel_b.gain_reduction_db c.channel_b.lna_state)

  -- The next call only while all went well: `if (result == 0) result |= …`.
  abbrev pub and_then : ℤ → M ℤ → M ℤ
  and_then result m = if is_zero result then m else return result

  unfoldable pub apply_dual : DualConfig → M Status
  apply_dual c = do
    first ← configure_dual_effect c
    second ← and_then first (set_rspduo_controls c.channel_a all_controls)
    result ← and_then second (set_rspduo_controls c.channel_b all_controls)
    if is_negative result then (do discard (close_radio env); return io_error) else (do
      modify (λ d. record d { dual_mode = true; dual_config = c; configured = true })
      return ok)

  abbrev pub open_found_both : Resolved → M Bool
  open_found_both (index i) = do opened ← open_radio i tuner_both; return (is_zero opened)
  open_found_both not_found = return false
  open_found_both ambiguous = return false

  unfoldable pub open_both : M Bool
  open_both d =
      if d.radio
      then (true, d)
      else (do found ← resolve_acquired_device env; open_found_both found) d

  unfoldable pub configure_dual_radio : DualConfig → M Status
  configure_dual_radio c = if not (valid_dual_config c) then return bad_request else (do
    d ← get
    left ← leave_mode (not d.dual_mode)
    if not left
        then return io_error
        else (do opened ← open_both; if opened then apply_dual c else return io_error))

  -- A change of one setting: the driver is called if the flag and a new value ask for it, and what
  -- counts of its answer is a negative sign, here and in what was answered before.
  unfoldable pub or_failed : Bool → Bool → M ℤ → M Bool
  or_failed failed wanted m =
      if wanted then (do r ← m; return (failed || is_negative r)) else return failed

  -- `result |= set_rspduo_controls(…)`
  abbrev pub or_controls : Bool → RadioConfig → Controls → M Bool
  or_controls failed c flags = or_failed failed true (set_rspduo_controls c flags)

  unfoldable pub update_dual : ℕ → RadioConfig → M Status
  update_dual flags next d =
      let old = channel d.dual_config next.tuner in
      if not (next.tuner == tuner_a) && not (next.tuner == tuner_b)
      then (bad_request, d)
      else if not (next.sample_rate_hz == d.dual_config.sample_rate_hz)
          || not (eq_ℤ next.if_frequency_hz old.if_frequency_hz)
          || not (next.bandwidth_hz == old.bandwidth_hz)
      then (bad_request, d)
      else if not (config_valid next)
      then (bad_request, d)
      else (do
        tuned ← or_failed false (has_bit change_rf flags || has_bit change_gain flags) (
            call env (
              update_rspduo_dual next.tuner next.center_frequency_hz next.gain_reduction_db
                next.lna_state))
        failed ← or_controls tuned next (control_flags flags)
        if failed then return io_error else (do
          modify (λ s. record s { dual_config = set_channel s.dual_config next })
          return ok))
          d

  unfoldable pub update_single : ℕ → RadioConfig → M Status
  update_single flags next d =
      let old = d.config in
      if not (next.tuner == old.tuner) || not (config_valid next)
      then (bad_request, d)
      else (do
        a ←
            or_failed false
              (has_bit change_sample_rate flags && not (next.sample_rate_hz == old.sample_rate_hz))
              (call env (set_sample_rate next.sample_rate_hz))
        b ←
            or_failed a
              (has_bit change_rf flags && not (next.center_frequency_hz == old.center_frequency_hz))
              (call env (set_center_freq next.center_frequency_hz))
        c ←
            or_failed b
              (has_bit change_bandwidth flags && not (next.bandwidth_hz == old.bandwidth_hz))
              (call env (set_bandwidth next.bandwidth_hz))
        e ←
            or_failed c
              (has_bit change_if flags && not (eq_ℤ next.if_frequency_hz old.if_frequency_hz))
              (call env (set_if_freq (to_u32 next.if_frequency_hz)))
        f ← or_failed e (has_bit change_gain flags || has_bit change_rf flags) (set_gain next)
        failed ← or_controls f next (control_flags flags)
        if failed
            then return io_error
            else (do modify (λ s. record s { config = next }); return ok))
          d

  unfoldable pub apply_update : UpdateRequest → M Status
  apply_update u d =
      if u.config.tuner == tuner_b && (has_bit 10 u.changed_flags || has_bit 11 u.changed_flags)
      then (bad_request, d)
      else if d.dual_mode
      then update_dual u.changed_flags u.config d
      else update_single u.changed_flags u.config d
