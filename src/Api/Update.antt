-- ===== src/Api/Update.antt =====
-- `sdrplay_api_Update` of src/compat/sdrplay_api_compat.c for one tuner, from its validation on. The
-- application's handle, which is compared before, is the device's; log lines and the last-error texts are
-- left out. The wait for a sample boundary is a call that the environment answers.
pub mod Changes
pub mod Rollback
pub mod Retune
mod Tests
use openrsp.Base.{
  ℕ, ℤ, pos, negsuc, ◌+◌, Bool, true, false, not, ◌&&◌, ◌||◌, ◌==◌, if◌then◌else◌, eq_ℤ, is_nonneg,
  has_bit, clear_bit, add_u32, List, [], ◌∷◌,
}
use openrsp.Sync
use openrsp.Api.{
  Tuner, is_a, ErrT, success, service_not_responding, gain_update_error, rf_update_error,
  fs_update_error, hw_error, is_success,
}
use openrsp.Api.Params.{Doubles, DevParams, Channel}
use openrsp.Api.Dsp.{is_set, factor_of}
use openrsp.Api.Gain.{gain_has_values}
use openrsp.Api.Reason
use openrsp.Api.Reason.{any_of}
use openrsp.Api.Settings.{fill_radio_config_tuner, protocol_change_flags, when_set}
use openrsp.Api.Validate.{bad_agc, validate_update}
use openrsp.Api.Stream.{Frame, queue_stream_callback}
use openrsp.Api.Events.{queue_api_event, power_overload_change}
use openrsp.Api.Context.{
  overload_params, Lane, Context, M, ◌>>=◌, ◌>>◌, return, get, modify, when, discard, Env, call,
  update, await_boundary, read_clock, lane, on_lane, channel_for_tuner, set_channel,
}
use openrsp.Api.Processing.{
  configure_iq_correction, configure_adsb, configure_decimator, configure_low_if,
}
use openrsp.Api.Steps.{
  update_failure_code, dsp_changes, nat_of, schedule_sync, reset_sync, reset_slave_latch,
  synchronous_categories, set_callback_samples, acknowledge_overload, after_accept, restore, also,
}

-- The reasons that are left when the flags are scheduled and reset.
abbrev pub left_reason : ℕ → ℕ
left_reason reason = clear_bit Reason.dev_reset_flags (clear_bit Reason.dev_sync_update reason)

module _ {D : Doubles} (env : Env) where
  unfoldable pub set_agc : Tuner → ℕ → M D Bool
  set_agc tuner reason x =
      (let c = channel_for_tuner tuner x in
        if not (has_bit Reason.ctrl_agc reason)
        then (true, x)
        else if bad_agc D x.dev_params c
        then (false, x)
        else (do
          now ← call env read_clock
          modify (
              on_lane tuner (λ l. record l {
                agc_peak = 0;
                agc_mode = c.agc_enable;
                agc_setpoint = c.set_point_dbfs;
                agc_last_adjust_ms = nat_of now;
                agc_decay_since_ms = 0;
              }))
          return true)
            x)

  unfoldable pub set_processing : Tuner → ℕ → M D Bool
  set_processing tuner reason = do
    agc ← set_agc tuner reason
    iq ←
        also agc
          (any_of (Reason.ctrl_dc_offset_iq_imbalance ∷ Reason.tuner_lo_mode ∷ Reason.dev_fs ∷ [])
            reason)
          (configure_iq_correction D tuner)
    adsb ←
        also iq (any_of (Reason.ctrl_adsb_mode ∷ Reason.dev_fs ∷ []) reason)
          (configure_adsb D tuner)
    acknowledge_overload tuner reason
    x ← get
    decimated ←
        also adsb (has_bit Reason.ctrl_decimation reason)
          (configure_decimator D tuner (factor_of D (channel_for_tuner tuner x)))
    also decimated (any_of (Reason.dev_fs ∷ Reason.tuner_if_type ∷ []) reason)
        (configure_low_if D tuner)

  -- The request to the daemon.
  unfoldable pub send_update : Tuner → ℕ → M D ℤ
  send_update tuner reason = do
    x ← get
    call env (
        update x.duo_role
          (fill_radio_config_tuner D x.dev_params (channel_for_tuner tuner x) x.duo_role tuner)
          (protocol_change_flags reason))

  unfoldable pub try_update : Tuner → ℕ → M D ℤ
  try_update tuner reason = do
    set_callback_samples reason
    ready ← set_processing tuner reason
    result ← (if ready then send_update tuner reason else return (negsuc 0))
    (if is_nonneg result then after_accept tuner reason result else return result)

  unfoldable pub apply_update : Tuner → ℕ → ℕ → M D ErrT
  apply_update tuner reason categories = do
    saved ← get
    result ← try_update tuner reason
    (if is_nonneg result
        then (do
          when (not (categories == 0)) (
              modify (
                on_lane tuner (λ l. record l {
                  sync_update = Sync.consume l.sync_update categories l.sample_number;
                })))
          return success)
        else (do restore tuner reason saved; return (update_failure_code reason)))

  -- `sync_waiting` holds the AGC back meanwhile.
  unfoldable pub wait_boundary : Tuner → ℕ → M D Bool
  wait_boundary tuner categories = if categories == 0 then return true else (do
    modify (on_lane tuner (λ l. record l { sync_waiting = true }))
    waited ← call env (await_boundary (is_a tuner) categories)
    modify (on_lane tuner (λ l. record l { sync_waiting = false }))
    return (eq_ℤ waited (pos 0)))

  unfoldable pub update_tuner : Tuner → ℕ → ℕ → M D ErrT
  unfolding clear_bit has_bit
  update_tuner tuner reason extension x =
      (let checked =
          validate_update D x.mode x.duo_role x.dev_params (channel_for_tuner tuner x) tuner reason
            extension in
        if not (is_success checked)
        then (checked, x)
        else (do
          schedule_sync tuner reason
          reset_sync tuner reason
          reset_slave_latch tuner extension
          y ← get
          let categories = synchronous_categories tuner (left_reason reason) y
          waited ← wait_boundary tuner categories
          (if not waited
              then return service_not_responding
              else if left_reason reason == 0
              then return success
              else apply_update tuner (left_reason reason) categories))
            x)
