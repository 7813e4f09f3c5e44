-- ===== src/Api/Select.antt =====
-- The calls of src/compat/sdrplay_api_compat.c that select and release a receiver, and that close the API.
use openrsp.Base.{
  ℕ, ℤ, pos, Bool, true, false, not, ◌&&◌, ◌||◌, ltb, ◌==◌, if◌then◌else◌, Option, none, some, List,
  [], get_elem?, has_bit,
}
use openrsp.Protocol.{AcquireRequest}
use openrsp.Api.{
  Tuner, is_a, is_b, is_both, mode_single, mode_dual, mode_master, mode_slave, role_master,
  role_slave, ErrT, success, is_success, fail, invalid_param, hw_error, already_initialised,
  not_initialised, invalid_mode,
}
use openrsp.Api.Params.{Doubles, Channel}
use openrsp.Api.Events.{stop_events}
use openrsp.Api.Settings.{protocol_tuner}
use openrsp.Api.Context.{Context, Env, call, open_duo, close_backend}
use openrsp.Api.Prepare.{is_zero}

-- compat_discovery_handle
pub record DiscoveryHandle : Type 0 where
  pub valid : Bool
  pub identity : AcquireRequest
  pub hw_version : ℕ
  pub rspduo_mode_mask : ℕ
  pub rspduo_sample_rate_hz : ℕ

-- What an application's handle points to: nothing, one of the receivers that were listed, or the
-- receiver that is selected.
pub data Handle : Type 0 where
  null : Handle
  discovered : ℕ → Handle
  opened : Handle
  foreign : Handle

-- sdrplay_api_DeviceT
pub record DeviceT (D : Doubles) : Type 0 where
  pub ser_no : List ℕ
  pub hw_ver : ℕ
  pub tuner : Tuner
  pub rspduo_mode : ℕ
  pub valid : Bool
  pub rspduo_sample_freq : D.Double
  pub dev : Handle

abbrev rspduo_product : ℕ
rspduo_product = 0x3020

abbrev role_of : ℕ → ℕ
role_of mode =
    if mode == mode_master then role_master else if mode == mode_slave then role_slave else 0

abbrev low_if : Bool → ℤ
low_if six = if six then pos 1620 else pos 2048

abbrev pub known_tuner : Tuner → Bool
known_tuner tuner = is_a tuner || is_b tuner || is_both tuner

abbrev pub handle_at : List DiscoveryHandle → Handle → Option DiscoveryHandle
handle_at handles (discovered n) = get_elem? handles n
handle_at handles null = none
handle_at handles opened = none
handle_at handles foreign = none

abbrev is_opened : Handle → Bool
is_opened opened = true
is_opened null = false
is_opened (discovered n) = false
is_opened foreign = false

-- The parameters of a receiver that shares its tuners run at the role's rate and its low IF.
module _ {D : Doubles} where
  open D use {of_ℕ, to_u32, same}

  abbrev rate_is : ℕ → DeviceT D → Bool
  rate_is rate d = same d.rspduo_sample_freq (of_ℕ rate)

  -- A rate that the dual modes have.
  abbrev shared_rate : DeviceT D → Bool
  shared_rate d = rate_is 6000000 d || rate_is 8000000 d

  -- The checks of `sdrplay_api_SelectDevice` on a device that was listed with this handle.
  unfoldable pub select_refusal : DiscoveryHandle → DeviceT D → ErrT
  select_refusal handle d =
      if not handle.valid || not (d.hw_ver == handle.hw_version)
      then invalid_param
      else if handle.identity.product_id == rspduo_product
          && not (d.rspduo_mode == mode_single)
          && not (d.rspduo_mode == mode_dual)
          && not (d.rspduo_mode == mode_master)
          && not (d.rspduo_mode == mode_slave)
      then invalid_mode
      else if d.rspduo_mode == mode_dual && not (is_both d.tuner)
      then invalid_mode
      else if d.rspduo_mode == mode_dual && not (shared_rate d)
      then invalid_mode
      else if d.rspduo_mode == mode_single && is_both d.tuner
      then invalid_mode
      else if d.rspduo_mode == mode_master && (not (is_a d.tuner) || not (shared_rate d))
      then invalid_mode
      else if d.rspduo_mode == mode_slave
          && (not (is_b d.tuner)
              || not (has_bit 3 handle.rspduo_mode_mask)
              || (not (handle.rspduo_sample_rate_hz == 6000000)
                  && not (handle.rspduo_sample_rate_hz == 8000000)))
      then invalid_mode
      else if is_b d.tuner && not (handle.identity.product_id == rspduo_product)
      then invalid_param
      else success

  -- The fields that a selection sets first.
  unfoldable pub chosen : DiscoveryHandle → DeviceT D → Context D → Context D
  chosen handle d x = record x {
    selected = true;
    identity = handle.identity;
    product_id = handle.identity.product_id;
    hw_version = handle.hw_version;
    tuner = d.tuner;
    mode = d.rspduo_mode;
    duo_role = role_of d.rspduo_mode;
  }

  abbrev pub role_rate : DiscoveryHandle → DeviceT D → ℕ
  role_rate handle d =
      if d.rspduo_mode == mode_master
      then to_u32 d.rspduo_sample_freq
      else handle.rspduo_sample_rate_hz

  abbrev role_channel : ℕ → Channel D → Channel D
  role_channel rate c = record c {
    if_type = low_if (rate == 6000000);
    bw_type = if ltb 1536 c.bw_type then 1536 else c.bw_type;
  }

  -- The parameters of a role, and of the dual mode.
  unfoldable pub with_role : ℕ → DeviceT D → Context D → Context D
  with_role rate d x = record x {
    dev_params = record x.dev_params { fs_hz = of_ℕ rate };
    channel_a = if is_b d.tuner then x.channel_a else role_channel rate x.channel_a;
    channel_b = if is_b d.tuner then role_channel rate x.channel_b else x.channel_b;
  }

  unfoldable pub with_dual : DeviceT D → Context D → Context D
  with_dual d x =
      if x.mode == mode_dual
      then record x {
        dev_params = record x.dev_params { fs_hz = d.rspduo_sample_freq };
        channel_a = record x.channel_a { if_type = low_if (rate_is 6000000 d) };
        channel_b = record x.channel_b { if_type = low_if (rate_is 6000000 d) };
      }
      else x

  -- Which parameters the application sees.
  unfoldable pub shown : DeviceT D → Context D → Context D
  shown d x = record x {
    shows_dev =
        if x.duo_role == role_master
        then true
        else if x.duo_role == role_slave
        then false
        else x.shows_dev;
    shows_a =
        if x.duo_role == role_master
        then true
        else if x.duo_role == role_slave
        then false
        else not (is_b d.tuner);
    shows_b =
        if x.duo_role == role_master
        then false
        else if x.duo_role == role_slave
        then true
        else not (is_a d.tuner);
  }

  abbrev finished : DeviceT D → Context D → ErrT × DeviceT D × Context D
  finished d x = (success, record d { dev = opened }, shown d (with_dual d x))

  -- The selection of a device that passes the checks. A role is acquired from the daemon at once.
  unfoldable pub acquire_device :
      Env → DiscoveryHandle → DeviceT D → Context D → ErrT × DeviceT D × Context D
  acquire_device env handle d x =
      (let y = chosen handle d x in
        if y.duo_role == 0
        then finished d y
        else (let rate = role_rate handle d in
            let d' = record d { rspduo_sample_freq = of_ℕ rate } in
            let (result, z) =
              call env (open_duo handle.identity y.duo_role (protocol_tuner d.tuner) rate)
                (with_role rate d y) in
            if is_zero result
            then finished d' (record z { backend = true })
            else (hw_error, d', record z { selected = false; duo_role = 0 })))

  abbrev pub with_handle :
      Env → Option DiscoveryHandle → DeviceT D → Context D → ErrT × DeviceT D × Context D
  with_handle env none d x = (invalid_param, d, x)
  with_handle env (some handle) d x =
      if is_success (select_refusal handle d)
      then acquire_device env handle d x
      else (select_refusal handle d, d, x)

  -- `sdrplay_api_SelectDevice`, of a device that is not NULL; `handles` are the receivers listed last.
  unfoldable pub select_device :
      Env → List DiscoveryHandle → DeviceT D → Context D → ErrT × DeviceT D × Context D
  select_device env handles d x =
      if not x.api_open
      then (not_initialised, d, x)
      else if not (known_tuner d.tuner) || not d.valid
      then (invalid_param, d, x)
      else if x.selected
      then (already_initialised, d, x)
      else with_handle env (handle_at handles d.dev) d x

  abbrev cleared : Context D → Context D
  cleared x = record x {
    selected = false;
    identity = record { device_index = 0; vendor_id = 0; product_id = 0; serial = [] };
    product_id = 0;
    hw_version = 0;
    duo_role = 0;
    start_pending = false;
    shows_dev = true;
  }

  unfoldable pub release_device : Env → DeviceT D → Context D → ErrT × DeviceT D × Context D
  release_device env d x =
      if not x.api_open
      then (not_initialised, d, x)
      else if not (is_opened d.dev)
      then (invalid_param, d, x)
      else if x.initialized
      then (already_initialised, d, x)
      else (
        success,
        record d { dev = null },
        cleared (if x.backend then record (call env close_backend x).1 { backend = false } else x),
      )

  -- `sdrplay_api_Close`, by a thread that is not the event thread; `lock_depth` is its device lock's.
  unfoldable pub close : ℕ → Context D → ErrT × Context D
  close lock_depth x =
      if not (lock_depth == 0)
      then (fail, x)
      else if x.initialized || x.selected
      then (already_initialised, x)
      else (
        success,
        record x {
          events = record (stop_events x.events) { thread_started = false };
          api_open = false;
        },
      )
