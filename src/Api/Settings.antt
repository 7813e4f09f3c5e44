-- ===== src/Api/Settings.antt =====
-- The settings that the API sends to the daemon: `fill_radio_config_tuner`, `enabled_rspduo_control_flags`
-- and `protocol_change_flags` of src/compat/sdrplay_api_compat.c.
use openrsp.Base.{
  ℕ, ℤ, pos, negsuc, ◌+◌, ◌*◌, Bool, not, ◌&&◌, ltb, ◌==◌, if◌then◌else◌, eq_ℤ, has_bit, set_bit,
  mul_u32, [], ◌∷◌,
}
use openrsp.Protocol.{RadioConfig}
use openrsp.Api.{Tuner, is_b}
use openrsp.Api.Params.{Doubles, DevParams, Channel}
use openrsp.Api.Dsp.{is_set, flag}
use openrsp.Api.Reason
use openrsp.Api.Reason.{any_of}

-- `x * 1000`, in range of int for the values of sdrplay_api_If_kHzT.
abbrev pub thousand : ℤ → ℤ
thousand (pos n) = pos (n * 1000)
thousand (negsuc n) = negsuc (n * 1000 + 999)

-- OPENRSP_TUNER_A and OPENRSP_TUNER_B
abbrev pub protocol_tuner : Tuner → ℕ
protocol_tuner tuner = if is_b tuner then 2 else 1

module _ (D : Doubles) where
  open D use {of_ℕ, to_u32, add, div}

  unfoldable pub fill_radio_config_tuner : DevParams D → Channel D → ℕ → Tuner → RadioConfig
  fill_radio_config_tuner dev c duo_role tuner =
      (let bandwidth = mul_u32 c.bw_type 1000 in
        record {
          sample_rate_hz = to_u32 dev.fs_hz;
          center_frequency_hz = to_u32 (div c.rf_hz (add (of_ℕ 1) (div dev.ppm (of_ℕ 1000000))));
          bandwidth_hz =
              if not (duo_role == 0) && ltb 1536000 bandwidth then 1536000 else bandwidth;
          if_frequency_hz = thousand c.if_type;
          gain_reduction_db = c.gr_db;
          lna_state = c.lna_state;
          agc_mode = pos c.agc_enable;
          agc_setpoint_dbfs = c.set_point_dbfs;
          tuner = protocol_tuner tuner;
          bias_tee_enabled = flag (is_set c.bias_t_enable);
          rf_notch_enabled = flag (is_set c.rf_notch_enable);
          dab_notch_enabled = flag (is_set c.rf_dab_notch_enable);
          external_reference_enabled = flag (not (eq_ℤ dev.ext_ref_output_en (pos 0)));
          am_port_select = c.am_port_sel;
          am_notch_enabled = flag (is_set c.am_notch_enable);
        })

-- `if (test) flags |= 1 << bit`
abbrev pub when_set : Bool → ℕ → ℕ → ℕ
when_set test bit flags = if test then set_bit bit flags else flags

unfoldable pub enabled_rspduo_control_flags : RadioConfig → ℕ
unfolding set_bit has_bit
enabled_rspduo_control_flags config = when_set (is_set config.am_notch_enabled) 11 (
    when_set (config.am_port_select == 1) 10 (
      when_set (is_set config.external_reference_enabled) 9 (
        when_set (is_set config.dab_notch_enabled) 8 (
          when_set (is_set config.rf_notch_enabled) 7
            (when_set (is_set config.bias_tee_enabled) 6 0)))))

unfoldable pub protocol_change_flags : ℕ → ℕ
unfolding any_of set_bit has_bit
protocol_change_flags reason = when_set (has_bit Reason.rspduo_tuner1_am_notch_control reason) 11 (
    when_set (has_bit Reason.rspduo_am_port_select reason) 10 (
      when_set (has_bit Reason.rspduo_ext_ref_control reason) 9 (
        when_set (has_bit Reason.rspduo_rf_dab_notch_control reason) 8 (
          when_set (has_bit Reason.rspduo_rf_notch_control reason) 7 (
            when_set (has_bit Reason.rspduo_bias_t_control reason) 6 (
              when_set (has_bit Reason.ctrl_agc reason) 5 (
                when_set (has_bit Reason.tuner_gr_limits reason) 4 (
                  when_set (has_bit Reason.tuner_gr reason) 4 (
                    when_set (has_bit Reason.tuner_if_type reason) 3 (
                      when_set (has_bit Reason.tuner_bw_type reason) 2 (
                        when_set (any_of (Reason.tuner_frf ∷ Reason.dev_ppm ∷ []) reason) 1
                          (when_set (has_bit Reason.dev_fs reason) 0 0))))))))))))
