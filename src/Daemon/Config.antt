-- ===== src/Daemon/Config.antt =====
-- daemon/config_validation.c, and the checks and flag words of daemon/openrspd.c: which settings the
-- daemon accepts from a client.
use openrsp.Base.{
  ℕ, ◌-◌, ◌^◌, Bool, true, false, not, ◌&&◌, ◌||◌, leb, ◌==◌, if◌then◌else◌, ℤ, pos, negsuc, eq_ℤ,
  leb_ℤ, has_bit,
}
use openrsp.Protocol.{RadioConfig, DualConfig}
use openrsp.Duo.{valid_rate}

-- OPENRSP_TUNER_A, OPENRSP_TUNER_B, OPENRSP_TUNER_BOTH
abbrev pub tuner_a : ℕ
tuner_a = 1

abbrev pub tuner_b : ℕ
tuner_b = 2

abbrev pub tuner_both : ℕ
tuner_both = 3

unfoldable pub config_valid : RadioConfig → Bool
config_valid c =
    not (c.sample_rate_hz == 0)
    && leb_ℤ (pos 0) c.gain_reduction_db
    && leb_ℤ c.gain_reduction_db (pos 59)
    && leb c.lna_state 9
    && leb_ℤ (pos 0) c.agc_mode
    && leb_ℤ c.agc_mode (pos 4)
    && leb_ℤ (negsuc 71) c.agc_setpoint_dbfs
    && leb_ℤ c.agc_setpoint_dbfs (pos 0)
    && leb c.bias_tee_enabled 1
    && leb c.rf_notch_enabled 1
    && leb c.dab_notch_enabled 1
    && leb c.external_reference_enabled 1
    && leb c.am_port_select 1
    && leb c.am_notch_enabled 1
    && not (c.tuner == tuner_a && not (c.bias_tee_enabled == 0))
    && not (c.tuner == tuner_b && (not (c.am_port_select == 0) || not (c.am_notch_enabled == 0)))
    && (c.tuner == tuner_a || c.tuner == tuner_b)

-- The low IF that goes with a dual rate.
abbrev pub required_if : ℕ → ℤ
required_if rate = if rate == 6000000 then pos 1620000 else pos 2048000

unfoldable pub valid_dual_config : DualConfig → Bool
valid_dual_config c =
    valid_rate c.sample_rate_hz
    && config_valid c.channel_a
    && config_valid c.channel_b
    && c.channel_a.tuner == tuner_a
    && c.channel_b.tuner == tuner_b
    && c.channel_a.sample_rate_hz == c.sample_rate_hz
    && c.channel_b.sample_rate_hz == c.sample_rate_hz
    && eq_ℤ c.channel_a.if_frequency_hz (required_if c.sample_rate_hz)
    && eq_ℤ c.channel_b.if_frequency_hz (required_if c.sample_rate_hz)
    && leb c.channel_a.bandwidth_hz 1536000
    && leb c.channel_b.bandwidth_hz 1536000

-- OPENRSP_CHANGE_*: the bits of `changed_flags`.
abbrev pub change_sample_rate : ℕ
change_sample_rate = 0

abbrev pub change_rf : ℕ
change_rf = 1

abbrev pub change_bandwidth : ℕ
change_bandwidth = 2

abbrev pub change_if : ℕ
change_if = 3

abbrev pub change_gain : ℕ
change_gain = 4

-- The six RSPduo switches of a flag word.
pub record Controls : Type 0 where
  pub bias_tee : Bool
  pub rf_notch : Bool
  pub dab_notch : Bool
  pub ext_ref : Bool
  pub am_port : Bool
  pub am_notch : Bool

-- `rspduo_control_flags`
abbrev pub control_flags : ℕ → Controls
control_flags flags = record {
  bias_tee = has_bit 6 flags;
  rf_notch = has_bit 7 flags;
  dab_notch = has_bit 8 flags;
  ext_ref = has_bit 9 flags;
  am_port = has_bit 10 flags;
  am_notch = has_bit 11 flags;
}

-- OPENRSP_CHANGE_RSPDUO_CONTROLS
abbrev pub all_controls : Controls
all_controls = record {
  bias_tee = true;
  rf_notch = true;
  dab_notch = true;
  ext_ref = true;
  am_port = true;
  am_notch = true;
}

-- `flags &= ~(OPENRSP_CHANGE_AM_PORT | OPENRSP_CHANGE_AM_NOTCH)` for tuner B
abbrev pub controls_for : ℕ → Controls → Controls
controls_for tuner c =
    if tuner == tuner_b then record c { am_port = false; am_notch = false } else c

abbrev pub no_controls : Controls → Bool
no_controls c =
    not (c.bias_tee || c.rf_notch || c.dab_notch || c.ext_ref || c.am_port || c.am_notch)

-- `(uint32_t)value`
abbrev pub to_u32 : ℤ → ℕ
to_u32 (pos n) = n
to_u32 (negsuc n) = 2 ^ 32 - 1 - n
