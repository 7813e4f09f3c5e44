-- ===== src/Api/Params.antt =====
-- The parameters that the application sets: sdrplay_api_DevParamsT and sdrplay_api_RxChannelParamsT of
-- src/compat/sdrplay_api_compat.h, with the fields that the RSPduo uses.
use openrsp.Base.{ℕ, ℤ, Bool}

-- The C type double: its values, the operations that the code uses, and what they are known to do.
pub record Doubles : Type 1 where
  pub Double : Type 0
  -- The double that an unsigned integer converts to, and the uint32_t that a double converts to.
  pub of_ℕ : ℕ → Double
  pub to_u32 : Double → ℕ
  pub is_finite : Double → Bool
  -- `<`, `<=` and `==`
  pub less : Double → Double → Bool
  pub at_most : Double → Double → Bool
  pub same : Double → Double → Bool
  pub add : Double → Double → Double
  pub mul : Double → Double → Double
  pub div : Double → Double → Double
  pub neg : Double → Double
  pub floor : Double → Double

module _ (D : Doubles) where
  open D use {Double}

  pub record DevParams : Type 0 where
    pub ppm : Double
    pub fs_hz : Double
    pub fs_sync_update : ℕ
    pub sync_sample_num : ℕ
    pub sync_period : ℕ
    pub reset_gain_update : ℕ
    pub reset_rf_update : ℕ
    pub reset_fs_update : ℕ
    pub ext_ref_output_en : ℤ

  pub record Channel : Type 0 where
    pub rf_hz : Double
    pub rf_sync_update : ℕ
    pub bw_type : ℕ
    pub if_type : ℤ
    pub lo_mode : ℕ
    pub gr_db : ℤ
    pub lna_state : ℕ
    pub gain_sync_update : ℕ
    pub min_gr : ℕ
    pub dc_cal : ℕ
    pub speed_up : ℕ
    pub track_time : ℤ
    pub refresh_rate_time : ℤ
    pub dc_enable : ℕ
    pub iq_enable : ℕ
    pub decimation_enable : ℕ
    pub decimation_factor : ℕ
    pub agc_enable : ℕ
    pub set_point_dbfs : ℤ
    pub agc_sync_update : ℤ
    pub adsb_mode : ℕ
    pub bias_t_enable : ℕ
    pub rf_notch_enable : ℕ
    pub rf_dab_notch_enable : ℕ
    pub am_port_sel : ℕ
    pub am_notch_enable : ℕ
    pub reset_slave_gain_update : ℕ
    pub reset_slave_rf_update : ℕ
