-- ===== src/Api/Update/Tests.antt =====
-- A retune to 30 MHz with an LNA state that only higher bands have, and an update that the daemon refuses.
use openrsp.Base.{ℕ, pos, negsuc, ◌≡◌, ◌≢◌, refl, [], ◌∷◌, has_bit}
use openrsp.Api.{tuner_a, rf_update_error, success}
use openrsp.Api.Whole.{whole, running, initial_channel}
use openrsp.Api.Context.{Context, Env}
use openrsp.Api.Gain.{gain_has_values, gain_values, knots_at}
use openrsp.Api.Validate.{validate_update, agc_minimum_setpoint, agc_maximum_setpoint}
use openrsp.Api.Dsp.{validate_dsp_configuration, adsb_filter_configure}
use openrsp.Api.Processing.{
  configure_iq_correction, configure_adsb, configure_decimator, configure_low_if, iq_settings,
  adsb_settings,
}
use openrsp.Api.Steps.{
  schedule_sync, reset_sync, reset_slave_latch, synchronous_categories, set_callback_samples,
  acknowledge_overload, update_failure_code,
}
use openrsp.Api.Update.{
  set_agc, set_processing, send_update, try_update, apply_update, wait_boundary, update_tuner,
}
use openrsp.Api.Update.Retune.{retune, retune_call, update_tuner-retune}
use openrsp.Api.Update.Rollback.{Unchanged, update_tuner_failed}

abbrev accepting : Env
accepting asked c = pos 0

abbrev refusing : Env
refusing asked c = negsuc 0

abbrev low_band : Context whole
low_band = record running {
  channel_a = record initial_channel { rf_hz = pos 30000000; lna_state = 8 };
}

update_tuner-retune_example :
    ((update_tuner accepting tuner_a retune 0 low_band).0 ≡ rf_update_error)
    × ((update_tuner accepting tuner_a retune 0 low_band).1.trace
        ≡ retune_call tuner_a low_band ∷ [])
unfolding validate_update gain_has_values gain_values knots_at has_bit
update_tuner-retune_example = update_tuner-retune accepting tuner_a low_band refl refl refl refl

-- Sample rate, ADS-B mode and AGC.
abbrev three_reasons : ℕ
three_reasons = 0x3000001

is_refused : (update_tuner refusing tuner_a three_reasons 0 running).0 ≢ success
unfolding validate_update agc_minimum_setpoint agc_maximum_setpoint validate_dsp_configuration
    adsb_filter_configure schedule_sync reset_sync reset_slave_latch synchronous_categories
    set_callback_samples acknowledge_overload update_failure_code configure_iq_correction
    configure_adsb configure_decimator configure_low_if iq_settings adsb_settings set_agc
    set_processing send_update try_update apply_update wait_boundary update_tuner
is_refused = cc

update_tuner_failed_example :
    Unchanged three_reasons tuner_a running
      (update_tuner refusing tuner_a three_reasons 0 running).1
update_tuner_failed_example =
    update_tuner_failed refusing tuner_a three_reasons 0 running is_refused
