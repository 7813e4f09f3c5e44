-- ===== src/Api/Whole.antt =====
-- Whole numbers in place of doubles, for tests: one value of the record `Doubles`.
use openrsp.Base.{
  ℕ, ◌+◌, ◌-◌, ◌*◌, ◌/◌, ◌%◌, ◌^◌, suc, true, false, [], leb, not, if◌then◌else◌, ℤ, pos, negsuc,
  eq_ℤ, leb_ℤ,
}
use openrsp.Sync
use openrsp.Api.{tuner_a, neither}
use openrsp.Api.Events.{gain_change}
use openrsp.Api.Params.{Doubles, DevParams, Channel}
use openrsp.Api.Context.{Dsp, Lane, Context, no_params}

abbrev pos_part : ℤ → ℕ
pos_part (pos n) = n
pos_part (negsuc n) = 0

abbrev neg_part : ℤ → ℕ
neg_part (pos n) = 0
neg_part (negsuc n) = suc n

abbrev sub_ℕ : ℕ → ℕ → ℤ
sub_ℕ a b = if leb b a then pos (a - b) else negsuc (b - a - 1)

-- The quotient of numbers that are not negative.
abbrev pub whole : Doubles
whole = record {
  Double = ℤ;
  of_ℕ = pos;
  to_u32 = λ x. pos_part x % 2 ^ 32;
  is_finite = λ x. true;
  less = λ x y. not (leb_ℤ y x);
  at_most = leb_ℤ;
  same = eq_ℤ;
  add = λ x y. sub_ℕ (pos_part x + pos_part y) (neg_part x + neg_part y);
  mul = λ x y.
      sub_ℕ (pos_part x * pos_part y + neg_part x * neg_part y)
        (pos_part x * neg_part y + neg_part x * pos_part y);
  div = λ x y. pos (pos_part x / pos_part y);
  neg = λ x. sub_ℕ (neg_part x) (pos_part x);
  floor = λ x. x;
}

-- The parameters that `reset_parameters` sets.
abbrev pub initial_dev : DevParams whole
initial_dev = record {
  ppm = pos 0;
  fs_hz = pos 2000000;
  fs_sync_update = 0;
  sync_sample_num = 0;
  sync_period = 0;
  reset_gain_update = 0;
  reset_rf_update = 0;
  reset_fs_update = 0;
  ext_ref_output_en = pos 0;
}

abbrev pub initial_channel : Channel whole
initial_channel = record {
  rf_hz = pos 200000000;
  rf_sync_update = 0;
  bw_type = 200;
  if_type = pos 0;
  lo_mode = 1;
  gr_db = pos 50;
  lna_state = 0;
  gain_sync_update = 0;
  min_gr = 20;
  dc_cal = 3;
  speed_up = 0;
  track_time = pos 1;
  refresh_rate_time = pos 2048;
  dc_enable = 1;
  iq_enable = 1;
  decimation_enable = 0;
  decimation_factor = 1;
  agc_enable = 2;
  set_point_dbfs = negsuc 59;
  agc_sync_update = pos 0;
  adsb_mode = 0;
  bias_t_enable = 0;
  rf_notch_enable = 0;
  rf_dab_notch_enable = 0;
  am_port_sel = 0;
  am_notch_enable = 0;
  reset_slave_gain_update = 0;
  reset_slave_rf_update = 0;
}

abbrev initial_dsp : Dsp whole
initial_dsp = record {
  dc_enabled = 1;
  iq_enabled = 1;
  calibration_rate = pos 2000000;
  dc_cal = 3;
  speed_up = 0;
  track_time = pos 1;
  refresh_rate_time = pos 2048;
  adsb_mode = 0;
  adsb_rate = pos 2000000;
  low_if_rate = pos 2000000;
  low_if_hz = pos 0;
  factor = 1;
}

abbrev initial_lane : Lane whole
initial_lane = record {
  pending_gr_changed = 0;
  pending_rf_changed = 0;
  pending_fs_changed = 0;
  sample_number = 0;
  first_callback = false;
  last_iq_sequence = 0;
  iq_sequence_seen = false;
  agc_mode = 2;
  agc_setpoint = negsuc 59;
  agc_peak = 0;
  agc_last_adjust_ms = 0;
  agc_decay_since_ms = 0;
  overload_state = false;
  overload_event_pending = false;
  overload_reported_state = false;
  dsp = initial_dsp;
  sync_update = Sync.init;
  sync_waiting = false;
}

-- The context of an open API.
abbrev pub initial : Context whole
initial = record {
  api_open = true;
  selected = false;
  initialized = false;
  identity = record { device_index = 0; vendor_id = 0; product_id = 0; serial = [] };
  product_id = 0;
  hw_version = 0;
  tuner = tuner_a;
  mode = 1;
  duo_role = 0;
  start_pending = false;
  dev_params = initial_dev;
  channel_a = initial_channel;
  channel_b = initial_channel;
  shows_dev = true;
  shows_a = true;
  shows_b = true;
  backend = false;
  buffers = false;
  stream = record {
    ring = record {
      slots = λ k. record {
        iq = [];
        tuner = neither;
        first_sample = 0;
        reset = false;
        gr_changed = false;
        rf_changed = false;
        fs_changed = false;
      };
      head = 0;
      count = 0;
    };
    stop = false;
    paused = false;
    active = false;
    drop_count = 0;
    next_sample = 0;
    next_sample_b = 0;
    seen = false;
    seen_b = false;
    thread_started = false;
  };
  thread_started = false;
  agc_thread_started = false;
  agc_stop = false;
  has_callbacks = false;
  has_callback_b = false;
  stream_state = pos 0;
  callback_samples = 0;
  lane_a = initial_lane;
  lane_b = initial_lane;
  events = record {
    ring = record {
      slots = λ k. record { event = gain_change; tuner = neither; params = no_params };
      head = 0;
      count = 0;
    };
    thread_started = true;
    stop = false;
    dispatching = false;
  };
  trace = [];
}

-- A running receiver with tuner A alone.
abbrev pub running : Context whole
running = record initial {
  selected = true;
  initialized = true;
  product_id = 0x3020;
  hw_version = 3;
  backend = true;
  buffers = true;
  callback_samples = 1344;
}
