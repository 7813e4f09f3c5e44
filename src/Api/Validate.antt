-- ===== src/Api/Validate.antt =====
-- The checks of an update: `validate_update` of src/compat/sdrplay_api_compat.c.
use openrsp.Base.{
  ℕ, ℤ, pos, negsuc, Bool, not, ◌&&◌, ◌||◌, ltb, ◌==◌, if◌then◌else◌, eq_ℤ, has_bit, List, [], ◌∷◌,
}
use openrsp.Api.{
  Tuner, is_a, is_b, mode_dual, mode_master, role_master, ErrT, success, hw_ver_error,
  invalid_param, invalid_mode, out_of_range,
}
use openrsp.Api.Params.{Doubles, DevParams, Channel}
use openrsp.Api.Dsp.{
  valid_decimation_factor, factor_of, adsb_filter_configure, validate_dsp_configuration,
}
use openrsp.Api.Gain.{less_ℤ, gain_in_range}
use openrsp.Api.Reason
use openrsp.Api.Reason.{any_of}

unfoldable pub valid_bandwidth : ℕ → Bool
valid_bandwidth bandwidth =
    bandwidth == 200
    || bandwidth == 300
    || bandwidth == 600
    || bandwidth == 1536
    || bandwidth == 5000
    || bandwidth == 6000
    || bandwidth == 7000
    || bandwidth == 8000

unfoldable pub valid_if : ℤ → Bool
valid_if if_type =
    eq_ℤ if_type (pos 0)
    || eq_ℤ if_type (pos 450)
    || eq_ℤ if_type (pos 1620)
    || eq_ℤ if_type (pos 2048)

-- The reasons that belong to other models, and the extension's.
abbrev pub other_models : List ℕ
other_models =
    Reason.rsp1a_bias_t_control ∷ Reason.rsp1a_rf_notch_control ∷ Reason.rsp1a_rf_dab_notch_control
    ∷ Reason.rsp2_bias_t_control ∷ Reason.rsp2_am_port_select ∷ Reason.rsp2_antenna_control
    ∷ Reason.rsp2_rf_notch_control ∷ Reason.rsp2_ext_ref_control ∷ []

abbrev pub other_extensions : List ℕ
other_extensions = 0 ∷ 1 ∷ 2 ∷ 3 ∷ 4 ∷ 5 ∷ []

-- The reasons after which the gain is checked.
abbrev pub gain_reasons : List ℕ
gain_reasons = Reason.tuner_gr ∷ Reason.tuner_gr_limits ∷ Reason.rspduo_am_port_select ∷ []

module _ (D : Doubles) where
  open D use {Double, of_ℕ, is_finite, less, at_most, neg}

  unfoldable pub agc_minimum_setpoint : Double → ℤ
  agc_minimum_setpoint sample_rate_hz =
      if less sample_rate_hz (of_ℕ 8064000)
      then negsuc 71
      else if at_most sample_rate_hz (of_ℕ 9216000)
      then negsuc 59
      else negsuc 47

  unfoldable pub agc_maximum_setpoint : Channel D → ℤ
  agc_maximum_setpoint c = if c.min_gr == 0 then pos 0 else negsuc 19

  -- Not finite, below `low` or above `high`.
  abbrev pub is_outside : Double → Double → Double → Bool
  is_outside x low high = not (is_finite x) || less x low || less high x

  abbrev pub bad_agc : DevParams D → Channel D → Bool
  bad_agc dev c =
      ltb 4 c.agc_enable
      || less_ℤ c.set_point_dbfs (agc_minimum_setpoint dev.fs_hz)
      || less_ℤ (agc_maximum_setpoint c) c.set_point_dbfs

  -- `mode` and `duo_role` are the device's; `c` is the channel of `tuner`.
  unfoldable pub validate_update : ℕ → ℕ → DevParams D → Channel D → Tuner → ℕ → ℕ → ErrT
  unfolding any_of
  validate_update mode duo_role dev c tuner reason extension =
      if not (ltb extension 128)
      then invalid_param
      else if any_of other_extensions extension
      then hw_ver_error
      else if has_bit Reason.reset_slave_flags extension
          && (not (mode == mode_master) || not (duo_role == role_master))
      then invalid_mode
      else if any_of other_models reason
      then hw_ver_error
      else if any_of (Reason.rspduo_am_port_select ∷ Reason.rspduo_tuner1_am_notch_control ∷ [])
            reason
          && not (is_a tuner)
      then out_of_range
      else if has_bit Reason.rspduo_bias_t_control reason && not (is_b tuner)
      then invalid_param
      else if not (c.am_port_sel == 1) && not (c.am_port_sel == 0)
      then invalid_param
      else if mode == mode_dual
          && any_of (Reason.dev_fs ∷ Reason.tuner_bw_type ∷ Reason.tuner_if_type ∷ []) reason
      then invalid_mode
      else if any_of (Reason.master_spare_1 ∷ Reason.master_spare_2 ∷ []) reason
      then invalid_param
      else if has_bit Reason.dev_fs reason && is_outside dev.fs_hz (of_ℕ 2000000) (of_ℕ 10660000)
      then out_of_range
      else if has_bit Reason.dev_fs reason && not (validate_dsp_configuration D c dev.fs_hz)
      then out_of_range
      else if has_bit Reason.dev_ppm reason && is_outside dev.ppm (neg (of_ℕ 300)) (of_ℕ 300)
      then out_of_range
      else if has_bit Reason.tuner_frf reason && is_outside c.rf_hz (of_ℕ 0) (of_ℕ 2000000000)
      then out_of_range
      else if has_bit Reason.tuner_bw_type reason && not (valid_bandwidth c.bw_type)
      then out_of_range
      else if has_bit Reason.tuner_if_type reason && not (valid_if c.if_type)
      then out_of_range
      else if any_of (Reason.tuner_bw_type ∷ Reason.tuner_if_type ∷ []) reason
          && not (eq_ℤ c.if_type (pos 0))
          && ltb 1536 c.bw_type
      then invalid_mode
      else if has_bit Reason.tuner_gr_limits reason && not (c.min_gr == 0) && not (c.min_gr == 20)
      then invalid_param
      else if any_of gain_reasons reason && not (gain_in_range D c tuner)
      then out_of_range
      else if has_bit Reason.tuner_dc_offset reason && not (c.lo_mode == 1)
      then invalid_mode
      else if has_bit Reason.ctrl_decimation reason && not (valid_decimation_factor (factor_of D c))
      then out_of_range
      else if has_bit Reason.tuner_lo_mode reason
          && (not (less_ℤ (pos 0) c.track_time) || not (less_ℤ (pos 0) c.refresh_rate_time))
      then out_of_range
      else if has_bit Reason.ctrl_agc reason && bad_agc dev c
      then out_of_range
      else if has_bit Reason.ctrl_adsb_mode reason
          && (ltb 3 c.adsb_mode || not (adsb_filter_configure D dev.fs_hz c.adsb_mode))
      then out_of_range
      else success
