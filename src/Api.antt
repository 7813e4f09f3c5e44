-- ===== src/Api.antt =====
-- src/compat/sdrplay_api_compat.c: the SDRplay API as the application's process runs it. The part that
-- keeps state between threads: what the API queues for the application's callbacks.
pub mod Events
pub mod Stream
pub mod Params
pub mod Dsp
pub mod Gain
pub mod Reason
pub mod Settings
pub mod Validate
pub mod Context
pub mod Processing
pub mod Steps
pub mod Whole
pub mod Update
pub mod Select
pub mod Prepare
pub mod Init
pub mod Lifecycle
pub mod Receive
use openrsp.Base.{ℕ, Bool, true, false}

-- sdrplay_api_TunerSelectT
pub data Tuner : Type 0 where
  neither tuner_a tuner_b both : Tuner

-- `tuner == sdrplay_api_Tuner_B`
abbrev pub is_b : Tuner → Bool
is_b tuner_b = true
is_b neither = false
is_b tuner_a = false
is_b both = false

-- `tuner == sdrplay_api_Tuner_A`
abbrev pub is_a : Tuner → Bool
is_a tuner_a = true
is_a neither = false
is_a tuner_b = false
is_a both = false

-- `tuner == sdrplay_api_Tuner_Both`
abbrev pub is_both : Tuner → Bool
is_both both = true
is_both neither = false
is_both tuner_a = false
is_both tuner_b = false

-- sdrplay_api_ErrT, as far as the code returns it
pub data ErrT : Type 0 where
  success fail invalid_param out_of_range gain_update_error rf_update_error fs_update_error : ErrT
  hw_error already_initialised not_initialised hw_ver_error out_of_mem_error : ErrT
  service_not_responding start_pending stop_pending invalid_mode : ErrT

abbrev pub is_success : ErrT → Bool
is_success success = true
is_success _ = false

-- sdrplay_api_RspDuoModeT, which also holds sets of modes.
abbrev pub mode_single : ℕ
mode_single = 1

abbrev pub mode_dual : ℕ
mode_dual = 2

abbrev pub mode_master : ℕ
mode_master = 4

abbrev pub mode_slave : ℕ
mode_slave = 8

-- OPENRSP_DUO_ROLE_MASTER and OPENRSP_DUO_ROLE_SLAVE; 0 is no role.
abbrev pub role_master : ℕ
role_master = 1

abbrev pub role_slave : ℕ
role_slave = 2
