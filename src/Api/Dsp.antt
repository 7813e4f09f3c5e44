-- ===== src/Api/Dsp.antt =====
-- Which settings the signal processing takes: the checks of src/compat/iq_correction.c,
-- src/compat/adsb_filter.c and src/compat/low_if_dsp.c, and `validate_dsp_configuration` of
-- src/compat/sdrplay_api_compat.c. The filters' coefficients are not modelled.
use openrsp.Base.{ℕ, ℤ, pos, Bool, true, false, not, ◌&&◌, ◌||◌, leb, ◌==◌, if◌then◌else◌, leb_ℤ}
use openrsp.Api.Params.{Doubles, Channel}

-- `x != 0u`
abbrev pub is_set : ℕ → Bool
is_set x = not (x == 0)

unfoldable pub valid_decimation_factor : ℕ → Bool
valid_decimation_factor factor =
    factor == 1 || factor == 2 || factor == 4 || factor == 8 || factor == 16 || factor == 32

-- The enables are 0 or 1, because the callers pass the results of comparisons.
unfoldable pub iq_correction_configure : ℕ → ℕ → Bool
iq_correction_configure dc_enable iq_enable =
    not (not (dc_enable == 0) && not (dc_enable == 1))
    && not (not (iq_enable == 0) && not (iq_enable == 1))

abbrev pub flag : Bool → ℕ
flag b = if b then 1 else 0

module _ (D : Doubles) where
  open D use {Double, of_ℕ, is_finite, less, at_most, add, mul}

  unfoldable pub configure_calibration : Double → ℕ → ℤ → ℤ → Bool
  configure_calibration sample_rate_hz speed_up track_time refresh_rate_time = not (
      not (is_finite sample_rate_hz)
      || at_most sample_rate_hz (of_ℕ 0)
      || not (leb speed_up 1)
      || leb_ℤ track_time (pos 0)
      || leb_ℤ refresh_rate_time (pos 0))

  -- Modes 0 to 3; only the modes without decimation need a band below the Nyquist frequency.
  -- `0.5` and `0.1` are the caller's constants, as quotients.
  unfoldable pub adsb_filter_configure : Double → ℕ → Bool
  adsb_filter_configure sample_rate_hz mode =
      if not (is_finite sample_rate_hz) || at_most sample_rate_hz (of_ℕ 0) || not (leb mode 3)
      then false
      else if mode == 0
      then true
      else (let bandwidth_hz = of_ℕ (if mode == 3 then 3000000 else 2000000) in
          let cutoff_hz = mul bandwidth_hz (D.div (of_ℕ 1) (of_ℕ 2)) in
          let transition_hz = mul bandwidth_hz (D.div (of_ℕ 1) (of_ℕ 10)) in
          not
            (at_most (mul sample_rate_hz (D.div (of_ℕ 1) (of_ℕ 2))) (add cutoff_hz transition_hz)))

  -- The decimation that a channel asks for.
  abbrev pub factor_of : Channel D → ℕ
  factor_of c = if is_set c.decimation_enable then c.decimation_factor else 1

  -- `openrsp_low_if_configure` takes every sample rate and IF.
  unfoldable pub validate_dsp_configuration : Channel D → Double → Bool
  unfolding valid_decimation_factor iq_correction_configure configure_calibration
      adsb_filter_configure
  validate_dsp_configuration c sample_rate_hz =
      if leb_ℤ c.track_time (pos 0) || leb_ℤ c.refresh_rate_time (pos 0)
      then false
      else if not (valid_decimation_factor (factor_of c))
      then false
      else if not (iq_correction_configure (flag (is_set c.dc_enable)) (flag (is_set c.iq_enable)))
          || not (
              configure_calibration sample_rate_hz (flag (is_set c.speed_up)) c.track_time
                c.refresh_rate_time)
      then false
      else adsb_filter_configure sample_rate_hz c.adsb_mode
