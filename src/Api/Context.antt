-- ===== src/Api/Context.antt =====
-- `compat_device_context` of src/compat/sdrplay_api_compat.c, and the world outside the API: the daemon,
-- behind compat/daemon_backend.c, and the operating system. What the API asks of them is a `Call`, and an
-- environment answers it, knowing all that was asked before, so that an answer can be any.
use openrsp.Base.{ℕ, Bool, true, false, if◌then◌else◌, ℤ, List, ◌∷◌}
use openrsp.Protocol.{AcquireRequest, RadioConfig, DualConfig}
use openrsp.Sync.{SyncUpdate}
use openrsp.Api.{Tuner, is_b}
use openrsp.Api.Params.{Doubles, DevParams, Channel}
use openrsp.Api.Events.{Device}
use openrsp.Api.Stream.{Stream}

-- sdrplay_api_EventParamsT, by the member that an event uses.
pub data EventParams : Type 0 where
  gain_params : ℕ → ℕ → EventParams
  overload_params : Bool → EventParams
  mode_params : ℕ → EventParams
  no_params : EventParams

-- What the API asks. The role is 0 for requests of the single owner.
pub data Call : Type 0 where
  list_devices : Call
  lock_acquire lock_release : Call
  make_event_thread make_buffers make_stream_locks make_stream_thread make_agc_thread : Call
  open_backend : AcquireRequest → Call
  open_duo : AcquireRequest → ℕ → ℕ → ℕ → Call
  close_backend : Call
  configure : ℕ → RadioConfig → Call
  configure_dual : DualConfig → Call
  start stop : ℕ → Call
  update : ℕ → RadioConfig → ℕ → Call
  await_first_iq : Call
  await_boundary : Bool → ℕ → Call
  read_clock : Call

module _ (D : Doubles) where
  open D use {Double}

  -- What the signal processing of a tuner is set to. Estimates, coefficients and histories are left out.
  pub record Dsp : Type 0 where
    pub dc_enabled : ℕ
    pub iq_enabled : ℕ
    pub calibration_rate : Double
    pub dc_cal : ℕ
    pub speed_up : ℕ
    pub track_time : ℤ
    pub refresh_rate_time : ℤ
    pub adsb_mode : ℕ
    pub adsb_rate : Double
    pub low_if_rate : Double
    pub low_if_hz : ℤ
    pub factor : ℕ

  -- The fields that the context has once for each tuner.
  pub record Lane : Type 0 where
    pub pending_gr_changed : ℕ
    pub pending_rf_changed : ℕ
    pub pending_fs_changed : ℕ
    pub sample_number : ℕ
    pub first_callback : Bool
    pub last_iq_sequence : ℕ
    pub iq_sequence_seen : Bool
    pub agc_mode : ℕ
    pub agc_setpoint : ℤ
    pub agc_peak : ℕ
    pub agc_last_adjust_ms : ℕ
    pub agc_decay_since_ms : ℕ
    pub overload_state : Bool
    pub overload_event_pending : Bool
    pub overload_reported_state : Bool
    pub dsp : Dsp
    pub sync_update : SyncUpdate
    pub sync_waiting : Bool

  -- `backend` and `buffers` say whether the pointers are not NULL, `shows_*` which parameters
  -- `params` points to.
  pub record Context : Type 0 where
    pub api_open : Bool
    pub selected : Bool
    pub initialized : Bool
    pub identity : AcquireRequest
    pub product_id : ℕ
    pub hw_version : ℕ
    pub tuner : Tuner
    pub mode : ℕ
    pub duo_role : ℕ
    pub start_pending : Bool
    pub dev_params : DevParams D
    pub channel_a : Channel D
    pub channel_b : Channel D
    pub shows_dev : Bool
    pub shows_a : Bool
    pub shows_b : Bool
    pub backend : Bool
    pub buffers : Bool
    pub stream : Stream
    pub thread_started : Bool
    pub agc_thread_started : Bool
    pub agc_stop : Bool
    pub has_callbacks : Bool
    pub has_callback_b : Bool
    pub stream_state : ℤ
    pub callback_samples : ℕ
    pub lane_a : Lane
    pub lane_b : Lane
    pub events : Device EventParams
    pub trace : List Call

abbrev pub lane : {D : Doubles} → Tuner → Context D → Lane D
lane tuner x = if is_b tuner then x.lane_b else x.lane_a

abbrev pub on_lane : {D : Doubles} → Tuner → (Lane D → Lane D) → Context D → Context D
on_lane tuner f x =
    if is_b tuner then record x { lane_b = f x.lane_b } else record x { lane_a = f x.lane_a }

-- `channel_for_tuner`
abbrev pub channel_for_tuner : {D : Doubles} → Tuner → Context D → Channel D
channel_for_tuner tuner x = if is_b tuner then x.channel_b else x.channel_a

abbrev pub set_channel : {D : Doubles} → Tuner → Channel D → Context D → Context D
set_channel tuner c x =
    if is_b tuner then record x { channel_b = c } else record x { channel_a = c }

-- A step of the API.
abbrev pub M : Doubles → Type 0 → Type 0
M D A = Context D → A × Context D

infixl 5 ◌>>=◌ ◌>>◌
abbrev pub ◌>>=◌ : {D : Doubles} {A B : Type 0} → M D A → (A → M D B) → M D B
◌>>=◌ m f x = f (m x).0 (m x).1

abbrev pub ◌>>◌ : {D : Doubles} {A B : Type 0} → M D A → M D B → M D B
◌>>◌ m k x = k (m x).1

abbrev pub return : {D : Doubles} {A : Type 0} → A → M D A
return a x = (a, x)

abbrev pub get : {D : Doubles} → M D (Context D)
get x = (x, x)

abbrev pub modify : {D : Doubles} → (Context D → Context D) → M D (Unit {0})
modify f x = (tt, f x)

abbrev pub when : {D : Doubles} → Bool → M D (Unit {0}) → M D (Unit {0})
when true m = m
when false m = return tt

abbrev pub discard : {D : Doubles} {A : Type 0} → M D A → M D (Unit {0})
discard m x = (tt, (m x).1)

-- The answers to the calls, as a function of what was asked, newest first.
abbrev pub Env : Type 0
Env = List Call → Call → ℤ

abbrev pub call : {D : Doubles} → Env → Call → M D ℤ
call env c x = (env x.trace c, record x { trace = c ∷ x.trace })
