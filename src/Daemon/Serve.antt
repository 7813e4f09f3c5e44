-- ===== src/Daemon/Serve.antt =====
-- `serve_request` of daemon/openrspd.c. A request is read by its type and its payload's size; what
-- has another type or size is `unknown`.
pub mod Duo
pub mod Owner
pub mod Dispatch
use openrsp.Base.{ℕ, Bool, false, ℤ, List, []}
use openrsp.Protocol.{
  AcquireRequest, DeviceRecord, RadioConfig, DualConfig, UpdateRequest, SwapRequest,
  ModeSwapRequest, DuoAcquireRequest,
}
use openrsp.Duo.{DuoEvent, cleared_event}
use openrsp.Daemon.State.{Status, ok}

pub data Body : Type 0 where
  ping lists lock_api unlock_api : Body
  duo_acquire : DuoAcquireRequest → Body
  duo_configure : RadioConfig → Body
  duo_start duo_stop duo_release : Body
  duo_swap_rate : ℕ → Body
  duo_update : UpdateRequest → Body
  acquire : AcquireRequest → Body
  start stop release : Body
  configure : RadioConfig → Body
  configure_dual : DualConfig → Body
  swap_tuner : SwapRequest → Body
  swap_mode : ModeSwapRequest → Body
  resume_mode : Body
  update : UpdateRequest → Body
  unknown : Body

-- `well_formed`: the magic and the version are right.
pub record Request : Type 0 where
  pub well_formed : Bool
  pub sequence : ℕ
  pub body : Body

-- The response, and what `serve_request` does once it is written.
pub record Reply : Type 0 where
  pub status : Status
  pub changed_flags : ℕ
  pub listed : List DeviceRecord
  pub event : DuoEvent
  pub duo_start_stream : Bool
  pub start_stream : Bool
  pub start_after_error : Bool

abbrev pub reply : Status → Reply
reply s = record {
  status = s;
  changed_flags = 0;
  listed = [];
  event = cleared_event;
  duo_start_stream = false;
  start_stream = false;
  start_after_error = false;
}
