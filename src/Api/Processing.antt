-- ===== src/Api/Processing.antt =====
-- How the API sets up a tuner's signal processing: `configure_iq_correction`, `configure_decimator` of
-- src/compat/sdrplay_api_compat.c and the filters that they call. A step answers whether it succeeded.
use openrsp.Base.{ℕ, Bool, true, false, not, ◌||◌, leb, if◌then◌else◌, pos}
use openrsp.Api.{Tuner}
use openrsp.Api.Params.{Doubles, DevParams, Channel}
use openrsp.Api.Dsp.{
  is_set, flag, valid_decimation_factor, iq_correction_configure, configure_calibration,
  adsb_filter_configure,
}
use openrsp.Api.Settings.{thousand}
use openrsp.Api.Context.{Dsp, Context, M, lane, on_lane, channel_for_tuner}

module _ (D : Doubles) where
  open D use {Double, of_ℕ, is_finite, at_most}

  -- `openrsp_iq_correction_configure` clears everything, and the calibration follows if it succeeds.
  abbrev with_enables : ℕ → ℕ → Dsp D → Dsp D
  with_enables dc iq s = record s {
    dc_enabled = dc;
    iq_enabled = iq;
    calibration_rate = of_ℕ 0;
    dc_cal = 3;
    speed_up = 0;
    track_time = pos 1;
    refresh_rate_time = pos 2048;
  }

  abbrev with_calibration : Double → Channel D → Dsp D → Dsp D
  with_calibration rate c s = record s {
    calibration_rate = rate;
    dc_cal = c.dc_cal;
    speed_up = flag (is_set c.speed_up);
    track_time = c.track_time;
    refresh_rate_time = c.refresh_rate_time;
  }

  unfoldable pub iq_settings : DevParams D → Channel D → Dsp D → Bool × Dsp D
  iq_settings dev c s =
      (let dc = flag (is_set c.dc_enable) in
        let iq = flag (is_set c.iq_enable) in
        if not (iq_correction_configure dc iq)
        then (false, s)
        else if not (
            configure_calibration D dev.fs_hz (flag (is_set c.speed_up)) c.track_time
              c.refresh_rate_time)
        then (false, with_enables dc iq s)
        else (true, with_calibration dev.fs_hz c (with_enables dc iq s)))

  -- `openrsp_adsb_filter_configure` has set the mode already when it finds that the band does not fit.
  unfoldable pub adsb_settings : Double → ℕ → Dsp D → Bool × Dsp D
  adsb_settings rate mode s =
      if not (is_finite rate) || at_most rate (of_ℕ 0) || not (leb mode 3)
      then (false, s)
      else (adsb_filter_configure D rate mode, record s { adsb_mode = mode; adsb_rate = rate })

  -- A change of the tuner's settings.
  abbrev on_dsp : Tuner → (Context D → Dsp D → Bool × Dsp D) → M D Bool
  on_dsp tuner f x =
      (let (done, dsp) = f x (lane tuner x).dsp in
        (done, on_lane tuner (λ l. record l { dsp = dsp }) x))

  unfoldable pub configure_iq_correction : Tuner → M D Bool
  configure_iq_correction tuner =
      on_dsp tuner (λ x s. iq_settings x.dev_params (channel_for_tuner tuner x) s)

  unfoldable pub configure_adsb : Tuner → M D Bool
  configure_adsb tuner =
      on_dsp tuner (λ x s. adsb_settings x.dev_params.fs_hz (channel_for_tuner tuner x).adsb_mode s)

  unfoldable pub configure_decimator : Tuner → ℕ → M D Bool
  configure_decimator tuner factor = on_dsp tuner (λ x s.
      if valid_decimation_factor factor then (true, record s { factor = factor }) else (false, s))

  unfoldable pub configure_low_if : Tuner → M D Bool
  configure_low_if tuner = on_dsp tuner (λ x s. (
    true,
    record s {
      low_if_rate = x.dev_params.fs_hz;
      low_if_hz = thousand (channel_for_tuner tuner x).if_type;
    },
  ))
