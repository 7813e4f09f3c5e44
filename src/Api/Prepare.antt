-- ===== src/Api/Prepare.antt =====
-- What `sdrplay_api_Init` of src/compat/sdrplay_api_compat.c checks and sets up before it asks the daemon,
-- and the parts of its cleaning up.
use openrsp.Base.{
  ℕ, ℤ, pos, Bool, true, false, not, ◌&&◌, ◌||◌, ltb, ◌==◌, if◌then◌else◌, eq_ℤ, set_bit,
}
use openrsp.Protocol.{RadioConfig, DualConfig}
use openrsp.Api.{
  Tuner, tuner_a, tuner_b, is_a, is_b, mode_dual, ErrT, success, invalid_param, out_of_range,
  already_initialised, invalid_mode,
}
use openrsp.Api.Params.{Doubles, Channel}
use openrsp.Api.Dsp.{factor_of, validate_dsp_configuration}
use openrsp.Api.Gain.{gain_values}
use openrsp.Api.Settings.{fill_radio_config_tuner, enabled_rspduo_control_flags}
use openrsp.Api.Stream.{Stream, stop_callbacks}
use openrsp.Api.Context.{Context, M, ◌>>=◌, return, get, modify, Lane}
use openrsp.Api.Processing.{
  configure_iq_correction, configure_adsb, configure_decimator, configure_low_if,
}

abbrev pub is_zero : ℤ → Bool
is_zero r = eq_ℤ r (pos 0)

-- OPENRSP_CHANGE_GAIN together with the switches that are on
abbrev pub gain_and_controls : RadioConfig → ℕ
gain_and_controls config = set_bit 4 (enabled_rspduo_control_flags config)

-- `stop_stream_callback_thread`, joined
abbrev pub joined_stream : Stream → Stream
joined_stream s =
    if s.thread_started then record (stop_callbacks s) { thread_started = false } else s

module _ {D : Doubles} where
  abbrev pub is_dual : Context D → Bool
  is_dual x = x.mode == mode_dual

  -- `active_channel`
  abbrev pub active_channel : Context D → Channel D
  active_channel x = if is_b x.tuner then x.channel_b else x.channel_a

  abbrev has_gains : Bool → Channel D → Bool
  has_gains high_impedance c = gain_values D c.rf_hz c.lna_state c.gr_db c.min_gr high_impedance

  -- The checks of Init that no step precedes. `has_a` and `has_b` are the application's functions.
  unfoldable pub init_refusal : Bool → Bool → Context D → ErrT
  init_refusal has_a has_b x =
      if not x.selected
      then invalid_param
      else if not has_a || (is_dual x && not has_b)
      then invalid_param
      else if x.initialized
      then already_initialised
      else if not (validate_dsp_configuration D (active_channel x) x.dev_params.fs_hz)
          || (is_dual x && not (validate_dsp_configuration D x.channel_b x.dev_params.fs_hz))
      then out_of_range
      else if (not (is_b x.tuner) && not (has_gains (x.channel_a.am_port_sel == 1) x.channel_a))
          || (not (is_a x.tuner) && not (has_gains false x.channel_b))
      then out_of_range
      else success

  unfoldable pub free_stream_buffers : M D (Unit {0})
  free_stream_buffers = modify (λ x. record x { buffers = false })

  -- `if (a) b`, for steps that answer whether they succeeded
  abbrev pub and_then : M D Bool → M D Bool → M D Bool
  and_then a b = do done ← a; (if done then b else return false)

  -- The processing of a tuner, and its decimation.
  unfoldable pub prepare : Tuner → Channel D → M D Bool
  prepare tuner c = and_then (configure_iq_correction D tuner) (
      and_then (configure_adsb D tuner)
        (and_then (configure_low_if D tuner) (configure_decimator D tuner (factor_of D c))))

  abbrev rate_is : ℕ → Context D → Bool
  rate_is rate x = D.same x.dev_params.fs_hz (D.of_ℕ rate)

  -- The rates, IF and bandwidths of the dual mode.
  abbrev bad_dual : Context D → Bool
  bad_dual x =
      (not (rate_is 6000000 x) && not (rate_is 8000000 x))
      || not (eq_ℤ x.channel_a.if_type (if rate_is 6000000 x then pos 1620 else pos 2048))
      || not (eq_ℤ x.channel_b.if_type x.channel_a.if_type)
      || ltb 1536 x.channel_a.bw_type
      || ltb 1536 x.channel_b.bw_type

  -- All processing; the receiver in the dual mode has two tuners.
  unfoldable pub prepare_all : M D ErrT
  prepare_all = do
    x ← get
    first ← prepare x.tuner (active_channel x)
    (if not first
        then return out_of_range
        else if not (is_dual x)
        then return success
        else if bad_dual x
        then return invalid_mode
        else (do
          second ← prepare tuner_b x.channel_b
          return (if second then success else out_of_range)))

  -- The configuration of a tuner as it is sent.
  abbrev pub config_of : Tuner → Context D → RadioConfig
  config_of tuner x =
      fill_radio_config_tuner D x.dev_params (if is_b tuner then x.channel_b else x.channel_a)
        x.duo_role tuner

  abbrev pub dual_of : Context D → DualConfig
  dual_of x = record {
    sample_rate_hz = D.to_u32 x.dev_params.fs_hz;
    channel_a = config_of tuner_a x;
    channel_b = config_of tuner_b x;
  }

  -- A stream that has not begun.
  abbrev fresh_lane : ℕ → ℤ → Lane D → Lane D
  fresh_lane mode setpoint l = record l {
    sample_number = 0;
    iq_sequence_seen = false;
    agc_peak = 0;
    agc_mode = mode;
    agc_setpoint = setpoint;
    first_callback = true;
  }

  unfoldable pub begin_stream : M D (Unit {0})
  begin_stream = modify (λ x. record x {
    lane_a =
        record (fresh_lane (active_channel x).agc_enable (active_channel x).set_point_dbfs
          x.lane_a) { last_iq_sequence = 0 };
    lane_b = fresh_lane x.channel_b.agc_enable x.channel_b.set_point_dbfs x.lane_b;
    stream_state = pos 0;
    agc_stop = false;
    callback_samples = if D.less (D.of_ℕ 9216000) x.dev_params.fs_hz then 2016 else 1344;
    initialized = true;
  })

  unfoldable pub stop_stream_callback_thread : M D (Unit {0})
  stop_stream_callback_thread = modify (λ x. record x { stream = joined_stream x.stream })

  -- The end of the AGC thread, which is asked to stop and joined.
  unfoldable pub join_agc : M D (Unit {0})
  join_agc = modify (λ x. record x { agc_stop = true; agc_thread_started = false })
