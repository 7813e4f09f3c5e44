-- ===== src/Protocol.antt =====
-- include/openrsp/protocol.h: what the client library and the daemon exchange. A char array is its
-- list of bytes.
use openrsp.Base.{ℕ, ℤ, List}

pub record AcquireRequest : Type 0 where
  pub device_index : ℕ
  pub vendor_id : ℕ
  pub product_id : ℕ
  pub serial : List ℕ

pub record DeviceRecord : Type 0 where
  pub device_index : ℕ
  pub vendor_id : ℕ
  pub product_id : ℕ
  pub serial : List ℕ
  pub model : List ℕ
  pub rspduo_mode_mask : ℕ
  pub rspduo_sample_rate_hz : ℕ

pub record RadioConfig : Type 0 where
  pub sample_rate_hz : ℕ
  pub center_frequency_hz : ℕ
  pub bandwidth_hz : ℕ
  pub if_frequency_hz : ℤ
  pub gain_reduction_db : ℤ
  pub lna_state : ℕ
  pub agc_mode : ℤ
  pub agc_setpoint_dbfs : ℤ
  pub tuner : ℕ
  pub bias_tee_enabled : ℕ
  pub rf_notch_enabled : ℕ
  pub dab_notch_enabled : ℕ
  pub external_reference_enabled : ℕ
  pub am_port_select : ℕ
  pub am_notch_enabled : ℕ

pub record DualConfig : Type 0 where
  pub sample_rate_hz : ℕ
  pub channel_a : RadioConfig
  pub channel_b : RadioConfig

pub record UpdateRequest : Type 0 where
  pub changed_flags : ℕ
  pub config : RadioConfig

pub record SwapRequest : Type 0 where
  pub tuner : ℕ
  pub config : RadioConfig

pub record ModeSwapRequest : Type 0 where
  pub mode : ℕ
  pub single : RadioConfig
  pub dual : DualConfig

pub record DuoAcquireRequest : Type 0 where
  pub identity : AcquireRequest
  pub role : ℕ
  pub tuner : ℕ
  pub sample_rate_hz : ℕ
