-- ===== src/Daemon/State.antt =====
-- `daemon_state` of daemon/openrspd.c, and the world outside it. What the daemon asks of the USB
-- driver, the sockets and the threads is an `Effect`; `Env` answers it, knowing all that was asked
-- before, so that an answer can be any and can change.
use openrsp.Base.{
  ℕ, ◌+◌, ◌*◌, ◌/◌, Bool, true, false, ℤ, pos, negsuc, eq_ℤ, List, [], ◌∷◌, Option, none, some,
}
use openrsp.Protocol.{AcquireRequest, DeviceRecord, RadioConfig, DualConfig}
use openrsp.Duo.{DuoSession, EventKind, session_init, invalid_client}
use openrsp.Removal.{RemovalTracker}
use openrsp.Daemon.Config.{Controls}

-- openrsp_status
pub data Status : Type 0 where
  ok bad_request unsupported busy io_error start_pending stop_pending : Status

abbrev pub is_ok : Status → Bool
is_ok ok = true
is_ok bad_request = false
is_ok unsupported = false
is_ok busy = false
is_ok io_error = false
is_ok start_pending = false
is_ok stop_pending = false

-- The frames that the daemon writes, by their type and payload.
pub data Frame : Type 0 where
  response : ℕ → Status → ℕ → Frame
  device_event : ℕ → DeviceRecord → Frame
  duo_event : EventKind → ℕ → Frame
  removed_event : ℕ → Frame
  iq : ℕ → ℕ → List ℕ → Frame

pub data Effect : Type 0 where
  enumerate : Effect
  open_cold close_cold : ℕ → Effect
  open_tuner : ℕ → ℕ → Effect
  close_device : Effect
  configure_rspduo : ℕ → ℕ → ℕ → ℕ → ℤ → ℕ → Effect
  configure_rspduo_dual : ℕ → ℕ → ℕ → ℕ → ℕ → ℤ → ℕ → ℤ → ℕ → Effect
  update_rspduo_dual : ℕ → ℕ → ℤ → ℕ → Effect
  set_controls : ℕ → ℕ → ℕ → ℕ → ℕ → ℕ → ℕ → Controls → Effect
  set_gain_lna : ℤ → ℕ → Effect
  set_sample_rate set_center_freq set_bandwidth set_if_freq : ℕ → Effect
  streaming_stop cancel_async read_async : Effect
  thread_create thread_join : Effect
  write : ℤ → Frame → Effect
  read_clock : Effect
  sleep : ℕ → Effect

-- mirisdr_get_device_info
pub record RawDevice : Type 0 where
  pub vendor_id : ℕ
  pub product_id : ℕ
  pub product : List ℕ
  pub serial : List ℕ

-- The driver, the operating system and the clients, as functions of what was asked, newest first.
pub record Env : Type 0 where
  pub answer : List Effect → Effect → ℤ
  pub device_count : List Effect → ℕ
  pub device_info : List Effect → ℕ → Option RawDevice
  pub is_cold : List Effect → ℕ → Bool
  pub clock : List Effect → Option (ℕ × ℕ)

-- `thread_live` is the state of the thread that `stream_main` runs on, and `running` the global.
pub record Daemon : Type 0 where
  pub radio : Bool
  pub owner : ℤ
  pub api_lock_owner : ℤ
  pub acquired_identity : AcquireRequest
  pub streaming : Bool
  pub stream_thread_started : Bool
  pub stream_error : Bool
  pub stream_result : ℤ
  pub client_write_error : Bool
  pub client_write_error_fd : ℤ
  pub logged_usb_iq : Bool
  pub logged_socket_iq : Bool
  pub first_iq_seen : Bool
  pub recovery_config_pending : Bool
  pub mode_swap_paused : Bool
  pub recovery_identity_status : ℤ
  pub sequence_a : ℕ
  pub sequence_b : ℕ
  pub configured : Bool
  pub config : RadioConfig
  pub dual_mode : Bool
  pub dual_config : DualConfig
  pub bootstrap_configured : Bool
  pub bootstrap_config : RadioConfig
  pub device_snapshot_valid : Bool
  pub device_snapshot_time : ℕ × ℕ
  pub device_snapshot : List DeviceRecord
  pub removal_tracker : RemovalTracker
  pub duo : DuoSession
  pub duo_active : Bool
  pub duo_config_a : Bool
  pub duo_config_b : Bool
  pub duo_config : DualConfig
  pub running : Bool
  pub thread_live : Bool
  pub trace : List Effect

abbrev pub blank_config : RadioConfig
blank_config = record {
  sample_rate_hz = 0;
  center_frequency_hz = 0;
  bandwidth_hz = 0;
  if_frequency_hz = pos 0;
  gain_reduction_db = pos 0;
  lna_state = 0;
  agc_mode = pos 0;
  agc_setpoint_dbfs = pos 0;
  tuner = 0;
  bias_tee_enabled = 0;
  rf_notch_enabled = 0;
  dab_notch_enabled = 0;
  external_reference_enabled = 0;
  am_port_select = 0;
  am_notch_enabled = 0;
}

abbrev pub blank_dual : DualConfig
blank_dual = record { sample_rate_hz = 0; channel_a = blank_config; channel_b = blank_config }

-- The state that `run_server` starts with.
abbrev pub daemon_init : Daemon
daemon_init = record {
  radio = false;
  owner = invalid_client;
  api_lock_owner = invalid_client;
  acquired_identity = record { device_index = 0; vendor_id = 0; product_id = 0; serial = 0 ∷ [] };
  streaming = false;
  stream_thread_started = false;
  stream_error = false;
  stream_result = pos 0;
  client_write_error = false;
  client_write_error_fd = invalid_client;
  logged_usb_iq = false;
  logged_socket_iq = false;
  first_iq_seen = false;
  recovery_config_pending = false;
  mode_swap_paused = false;
  recovery_identity_status = pos 0;
  sequence_a = 0;
  sequence_b = 0;
  configured = false;
  config = blank_config;
  dual_mode = false;
  dual_config = blank_dual;
  bootstrap_configured = false;
  bootstrap_config = blank_config;
  device_snapshot_valid = false;
  device_snapshot_time = (0, 0);
  device_snapshot = [];
  removal_tracker = record {
    absent_since_ms = 0;
    absence_active = false;
    removal_notified = false;
  };
  duo = session_init;
  duo_active = false;
  duo_config_a = false;
  duo_config_b = false;
  duo_config = blank_dual;
  running = true;
  thread_live = false;
  trace = [];
}

-- A step of the daemon.
abbrev pub M {ℓ} : Type ℓ → Type ℓ
M A = Daemon → A × Daemon

infixl 5 ◌>>=◌ ◌>>◌
abbrev pub ◌>>=◌ {ℓ κ} : {A : Type ℓ} {B : Type κ} → M A → (A → M B) → M B
◌>>=◌ m f d = f (m d).0 (m d).1

abbrev pub ◌>>◌ {ℓ κ} : {A : Type ℓ} {B : Type κ} → M A → M B → M B
◌>>◌ m k d = k (m d).1

abbrev pub return {ℓ} : {A : Type ℓ} → A → M A
return a d = (a, d)

abbrev pub get : M Daemon
get d = (d, d)

abbrev pub modify : (Daemon → Daemon) → M (Unit {0})
modify f d = (tt, f d)

abbrev pub when : Bool → M (Unit {0}) → M (Unit {0})
when true m = m
when false m = return tt

-- `(void)` in front of a call
abbrev pub discard {ℓ} : {A : Type ℓ} → M A → M (Unit {0})
discard m d = (tt, (m d).1)

abbrev pub is_zero : ℤ → Bool
is_zero r = eq_ℤ r (pos 0)

abbrev pub ebusy : ℤ
ebusy = negsuc 15

module _ (env : Env) where
  abbrev pub call : Effect → M ℤ
  call e d = (env.answer d.trace e, record d { trace = e ∷ d.trace })

  -- clock_gettime(CLOCK_MONOTONIC, …), as seconds and nanoseconds
  abbrev pub clock_gettime : M (Option (ℕ × ℕ))
  clock_gettime d = (env.clock d.trace, record d { trace = read_clock ∷ d.trace })

abbrev milliseconds : Option (ℕ × ℕ) → ℕ
milliseconds none = 0
milliseconds (some (sec, nsec)) = sec * 1000 + nsec / 1000000

module _ (env : Env) where
  unfoldable pub monotonic_milliseconds : M ℕ
  monotonic_milliseconds = do now ← clock_gettime env; return (milliseconds now)
