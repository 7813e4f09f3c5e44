-- ===== src/Daemon/Serve/Duo.antt =====
-- The master/slave requests of `serve_request` in daemon/openrspd.c.
use openrsp.Base.{
  ℕ, Bool, true, false, not, ◌&&◌, ◌||◌, ltb, ◌==◌, if◌then◌else◌, ℤ, pos, eq_ℤ, is_nonneg,
}
use openrsp.Protocol.{AcquireRequest, RadioConfig, DualConfig, UpdateRequest, DuoAcquireRequest}
use openrsp.Identity.{Resolved, index, not_found, ambiguous, resolve, str_eq}
use openrsp.Duo.{
  Role, role_none, role_master, role_slave, DuoResult, duo_ok, duo_busy, duo_invalid, cleared_event,
  valid_rate, role_for_descriptor,
}
use openrsp.Duo
use openrsp.Daemon.Config.{
  config_valid, valid_dual_config, required_if, tuner_a, tuner_b, all_controls,
}
use openrsp.Daemon.State.{
  Env, Daemon, Status, ok, bad_request, unsupported, busy, io_error, start_pending, stop_pending,
  is_ok, M, ◌>>=◌, ◌>>◌, return, get, modify, when, discard, is_zero, call, update_rspduo_dual,
}
use openrsp.Daemon.Stream.{stop_stream, close_radio}
use openrsp.Daemon.Snapshot.{snapshot_sdrplay_devices}
use openrsp.Daemon.Radio.{
  channel, set_channel, configure_dual_radio, apply_update, or_failed, or_controls,
}
use openrsp.Daemon.Release.{has_role, forget_duo}
use openrsp.Daemon.Serve.{Reply, reply}

-- `duo_role_descriptor`: the role, where master/slave mode is on.
unfoldable pub duo_role : Daemon → ℤ → Role
duo_role d fd = if d.duo_active then role_for_descriptor d.duo fd else role_none

abbrev pub duo_result_status : DuoResult → Status
duo_result_status duo_ok = ok
duo_result_status DuoResult.start_pending = start_pending
duo_result_status DuoResult.stop_pending = stop_pending
duo_result_status duo_busy = busy
duo_result_status duo_invalid = bad_request

abbrev pub is_duo_ok : DuoResult → Bool
is_duo_ok duo_ok = true
is_duo_ok _ = false

abbrev pub is_master : Role → Bool
is_master role_master = true
is_master role_slave = false
is_master role_none = false

-- A lane that nobody configured copies the other, without what the other tuner cannot have.
abbrev pub borrowed : RadioConfig → ℕ → RadioConfig
borrowed c tuner = record c {
  tuner = tuner;
  bias_tee_enabled = 0;
  am_port_select = 0;
  am_notch_enabled = 0;
}

abbrev pub shared : RadioConfig → ℕ → RadioConfig
shared c rate = record c {
  sample_rate_hz = rate;
  if_frequency_hz = required_if rate;
  bandwidth_hz = if ltb 1536000 c.bandwidth_hz then 1536000 else c.bandwidth_hz;
}

-- The configuration that `duo_prepare_config` makes out of the lanes and the rate.
unfoldable pub prepared : Bool → Bool → ℕ → DualConfig → DualConfig
prepared has_a has_b rate c =
    let a = if has_a then c.channel_a else borrowed c.channel_b tuner_a in
    let b = if has_b then c.channel_b else borrowed a tuner_b in
    record { sample_rate_hz = rate; channel_a = shared a rate; channel_b = shared b rate }

-- `false` is its return of -1. The configuration is kept either way.
unfoldable pub duo_prepare_config : M Bool
duo_prepare_config d =
    if not d.duo_config_a && not d.duo_config_b
    then (false, d)
    else (let c = prepared d.duo_config_a d.duo_config_b d.duo.sample_rate_hz d.duo_config in
        (valid_dual_config c, record d { duo_config = c }))

abbrev duo_identity_equal : AcquireRequest → AcquireRequest → Bool
duo_identity_equal a b =
    a.vendor_id == b.vendor_id && a.product_id == b.product_id && str_eq a.serial b.serial

abbrev pub role_of : ℕ → Role
role_of r = if r == 1 then role_master else if r == 2 then role_slave else role_none

-- A client without a role is told so.
abbrev roleless : Daemon → Reply
roleless d = reply (if is_nonneg d.owner then busy else unsupported)

abbrev expected_tuner : Daemon → Role → ℕ
expected_tuner d r = if is_master r then d.duo.master_tuner else d.duo.slave_tuner

module _ (env : Env) where
  unfoldable pub duo_reset_hardware : M Status
  duo_reset_hardware d =
      (do
        stopped ← (λ s. if d.radio then stop_stream env s else (pos 0, s))
        closed ← close_radio env
        modify (λ s. record s { configured = false; dual_mode = false })
        return (if is_zero stopped && is_zero closed then ok else io_error))
        d

  -- A lane's configuration that comes while both lanes stream.
  unfoldable pub duo_apply_running_config : RadioConfig → M Status
  duo_apply_running_config c d =
      let current = channel d.duo_config c.tuner in
      if not d.radio || not d.configured || not d.dual_mode
      then (ok, d)
      else if not (c.sample_rate_hz == d.duo_config.sample_rate_hz)
          || not (eq_ℤ c.if_frequency_hz current.if_frequency_hz)
          || not (c.bandwidth_hz == current.bandwidth_hz)
      then (bad_request, d)
      else (do
        tuned ←
            or_failed env false
              (not (c.center_frequency_hz == current.center_frequency_hz)
                || not (eq_ℤ c.gain_reduction_db current.gain_reduction_db)
                || not (c.lna_state == current.lna_state))
              (call env
                (update_rspduo_dual c.tuner c.center_frequency_hz c.gain_reduction_db c.lna_state))
        failed ← or_controls env tuned c all_controls
        if failed
            then return io_error
            else (do modify (λ s. record s { duo_config = set_channel s.duo_config c }); return ok))
          d

  -- The receiver that a role is for: a master's is looked up, a slave's is the master's.
  unfoldable pub duo_identity : DuoAcquireRequest → M Resolved
  duo_identity a d =
      if not (a.identity.vendor_id == 0x1df7) || not (a.identity.product_id == 0x3020)
      then (not_found, d)
      else if a.role == 1
      then (do devices ← snapshot_sdrplay_devices env; return (resolve a.identity devices)) d
      else if not d.duo_active
          || not d.duo.master_selected
          || not (duo_identity_equal d.acquired_identity a.identity)
      then (not_found, d)
      else (index 0, d)

  unfoldable pub duo_take : ℤ → DuoAcquireRequest → ℕ → M Reply
  duo_take fd a resolved d =
      let o = Duo.acquire d.duo fd (role_of a.role) a.tuner a.sample_rate_hz in
      (do
        modify (λ s. record s { duo = o.session })
        when (is_duo_ok o.result) (
            modify (λ s. record s {
              duo_active = true;
              device_snapshot_valid = false;
              acquired_identity =
                  if a.role == 1
                  then record (a.identity) { device_index = resolved }
                  else s.acquired_identity;
            }))
        return (record (reply (duo_result_status o.result)) { event = o.event }))
        d

  abbrev pub duo_take_found : ℤ → DuoAcquireRequest → Resolved → M Reply
  duo_take_found fd a (index i) = duo_take fd a i
  duo_take_found fd a not_found = return (reply bad_request)
  duo_take_found fd a ambiguous = return (reply bad_request)

  unfoldable pub serve_duo_acquire : ℤ → DuoAcquireRequest → M Reply
  serve_duo_acquire fd a d =
      if is_nonneg d.owner || (d.duo_active && a.role == 1 && d.duo.master_selected)
      then (reply busy, d)
      else if not (a.role == 1) && not (a.role == 2)
      then (reply bad_request, d)
      else (do found ← duo_identity a; duo_take_found fd a found) d

  unfoldable pub serve_duo_configure : ℤ → RadioConfig → M Reply
  serve_duo_configure fd c d =
      let role = duo_role d fd in
      if not (has_role role)
      then (roleless d, d)
      else if not (config_valid c)
          || not (c.tuner == expected_tuner d role)
          || not (c.sample_rate_hz == d.duo.sample_rate_hz)
      then (reply bad_request, d)
      else (do
        status ← duo_apply_running_config c
        when (is_ok status) (
            modify (λ s.
              if c.tuner == tuner_a
              then record s {
                duo_config = record (s.duo_config) { channel_a = c };
                duo_config_a = true;
              }
              else record s {
                duo_config = record (s.duo_config) { channel_b = c };
                duo_config_b = true;
              }))
        return (reply status))
          d

  abbrev undo_master : M (Unit {0})
  undo_master = modify (λ s. record s { duo = record (s.duo) { master_initialised = false } })

  unfoldable pub start_master : Reply → M Reply
  start_master r = do
    fits ← duo_prepare_config
    d ← get
    if not fits then (do undo_master; return (reply bad_request)) else (do
      status ← configure_dual_radio env d.duo_config
      if is_ok status
          then (do
            modify (λ s. record s { duo_active = true; dual_mode = true })
            return (record r { status = status; duo_start_stream = true }))
          else (do undo_master; return (record r { status = status })))

  -- The slave is routed once it is started: both lanes stream for the master already.
  unfoldable pub start_slave : Reply → M Reply
  start_slave r d =
      if not d.radio || not d.configured
      then (reply io_error, record d { duo = record (d.duo) { slave_initialised = false } })
      else (r, d)

  unfoldable pub serve_duo_start : ℤ → M Reply
  serve_duo_start fd d =
      let role = duo_role d fd in
      let o = Duo.initialise d.duo fd in
      let answered = record (reply (duo_result_status o.result)) { event = o.event } in
      if not (has_role role)
      then (roleless d, d)
      else (do
        modify (λ s. record s { duo = o.session })
        if is_duo_ok o.result
            then (if is_master role then start_master answered else start_slave answered)
            else return answered)
          d

  unfoldable pub serve_duo_stop : ℤ → M Reply
  serve_duo_stop fd d =
      let role = duo_role d fd in
      let o = Duo.uninitialise d.duo fd in
      let answered = record (reply (duo_result_status o.result)) { event = o.event } in
      if not (has_role role)
      then (roleless d, d)
      else (do
        modify (λ s. record s { duo = o.session })
        if is_duo_ok o.result && is_master role
            then (do status ← duo_reset_hardware; return (record answered { status = status }))
            else return answered)
          d

  unfoldable pub serve_duo_release : ℤ → M Reply
  serve_duo_release fd d =
      let o = Duo.release d.duo fd in
      let answered = record (reply (duo_result_status o.result)) { event = o.event } in
      if not (has_role (duo_role d fd))
      then (roleless d, d)
      else (do
        modify (λ s. record s { duo = o.session })
        when (is_duo_ok o.result) (modify (λ s. record s { device_snapshot_valid = false }))
        if is_duo_ok o.result && not o.session.master_selected && not o.session.slave_selected
            then (do
              status ← duo_reset_hardware
              modify (forget_duo env)
              return (record answered { status = status }))
            else return answered)
          d

  -- The hardware at another rate; on a failure the old rate and configuration come back.
  abbrev pub restore_rate : ℕ → DualConfig → M (Unit {0})
  restore_rate rate saved =
      modify (λ s. record s { duo = record (s.duo) { sample_rate_hz = rate }; duo_config = saved })

  unfoldable pub rebuild : ℕ → DualConfig → Bool → M Reply
  rebuild rate saved was_streaming = do
    reset ← duo_reset_hardware
    d ← get
    status ← (if is_ok reset then configure_dual_radio env d.duo_config else return reset)
    if is_ok status
        then (do
          modify (λ s. record s { dual_mode = true })
          return (record (reply ok) { duo_start_stream = was_streaming }))
        else (do
          restore_rate rate saved
          when (is_ok reset) (discard (configure_dual_radio env saved))
          return (reply status))

  unfoldable pub change_rate : ℕ → M Reply
  change_rate rate d =
      let saved = d.duo_config in
      let old_rate = d.duo.sample_rate_hz in
      (do
        stopped ← (λ s. if d.stream_thread_started then stop_stream env s else (pos 0, s))
        if not (is_zero stopped) then return (reply io_error) else (do
          modify (λ s. record s { duo = record (s.duo) { sample_rate_hz = rate } })
          fits ← duo_prepare_config
          if fits
              then rebuild old_rate saved d.stream_thread_started
              else (do restore_rate old_rate saved; return (reply bad_request))))
        d

  unfoldable pub prepare_and_change_rate : ℕ → M Reply
  prepare_and_change_rate rate d =
      if not d.duo_config_a && not d.duo_config_b
      then (reply bad_request, d)
      else (do
        fits ← duo_prepare_config
        if fits then change_rate rate else return (reply bad_request))
          d

  unfoldable pub serve_duo_swap_rate : ℤ → ℕ → M Reply
  serve_duo_swap_rate fd rate d =
      let role = duo_role d fd in
      if not (has_role role)
      then (roleless d, d)
      else if not (is_master role)
      then (reply bad_request, d)
      else if not d.duo.master_initialised
      then (reply start_pending, d)
      else if not (valid_rate rate)
      then (reply bad_request, d)
      else if d.duo.slave_initialised
      then (reply stop_pending, d)
      else if rate == d.duo.sample_rate_hz
      then (reply ok, d)
      else prepare_and_change_rate rate d

  unfoldable pub serve_duo_update : ℤ → UpdateRequest → M Reply
  serve_duo_update fd u d =
      let role = duo_role d fd in
      if not (has_role role)
      then (roleless d, d)
      else if not d.radio || not d.configured || not d.duo.master_initialised
      then (reply start_pending, d)
      else if not (u.config.tuner == expected_tuner d role)
      then (reply bad_request, d)
      else (do status ← apply_update env u; return (reply status)) d
