-- ===== src/Daemon/Serve/Dispatch.antt =====
-- `serve_request` of daemon/openrspd.c as a whole: the handler of a request, the response, and what
-- follows the response.
use openrsp.Base.{
  ℕ, Bool, true, false, not, ◌&&◌, ◌||◌, if◌then◌else◌, ℤ, eq_ℤ, is_nonneg, List, [], ◌∷◌, length,
}
use openrsp.Protocol.{DeviceRecord}
use openrsp.Duo.{DuoEvent}
use openrsp.Daemon.State.{
  Env, Daemon, ok, bad_request, unsupported, busy, is_ok, M, ◌>>=◌, ◌>>◌, return, modify, is_zero,
  Frame, response, device_event,
}
use openrsp.Daemon.Stream.{create_stream_thread, write_frame, send_duo_event}
use openrsp.Daemon.Snapshot.{snapshot_sdrplay_devices}
use openrsp.Daemon.Release.{release_api_lock}
use openrsp.Daemon.Serve.{
  Body, ping, lists, lock_api, unlock_api, duo_acquire, duo_configure, duo_start, duo_stop,
  duo_release, duo_swap_rate, duo_update, acquire, start, stop, release, configure, configure_dual,
  swap_tuner, swap_mode, resume_mode, update, unknown, Request, Reply, reply,
}
use openrsp.Daemon.Serve.Duo.{
  serve_duo_acquire, serve_duo_configure, serve_duo_start, serve_duo_stop, serve_duo_release,
  serve_duo_swap_rate, serve_duo_update,
}
use openrsp.Daemon.Serve.Owner.{
  serve_acquire, serve_start, serve_stop, serve_release, serve_configure, serve_configure_dual,
  serve_swap_tuner, serve_swap_mode, serve_resume_mode, serve_update,
}

-- The last branch: nobody's request, or one that its sender may not make now.
abbrev pub refused : ℤ → M Reply
refused fd d = (reply (if is_nonneg d.owner && not (eq_ℤ d.owner fd) then busy else unsupported), d)

-- A request that only the owner may make, and only under a further condition.
abbrev pub owner_only : ℤ → (Daemon → Bool) → M Reply → M Reply
owner_only fd allowed m d = if eq_ℤ d.owner fd && allowed d then m d else refused fd d

abbrev pub always : Daemon → Bool
always d = true

abbrev pub may_start : Daemon → Bool
may_start d = d.radio && not d.stream_thread_started && not d.mode_swap_paused

unfoldable pub serve_lock_api : ℤ → M Reply
serve_lock_api fd d =
    if is_nonneg d.api_lock_owner && not (eq_ℤ d.api_lock_owner fd)
    then (reply busy, d)
    else (reply ok, record d { api_lock_owner = fd })

module _ (env : Env) where
  unfoldable pub serve_unlock_api : ℤ → M Reply
  serve_unlock_api fd d =
      if eq_ℤ d.api_lock_owner fd
      then (do release_api_lock env fd; return (reply ok)) d
      else refused fd d

  unfoldable pub serve_list : M Reply
  serve_list = do
    devices ← snapshot_sdrplay_devices env
    return (record (reply ok) { changed_flags = length devices; listed = devices })

  unfoldable pub handle : ℤ → Body → M Reply
  handle fd ping = return (reply ok)
  handle fd lists = serve_list
  handle fd lock_api = serve_lock_api fd
  handle fd unlock_api = serve_unlock_api fd
  handle fd (duo_acquire a) = serve_duo_acquire env fd a
  handle fd (duo_configure c) = serve_duo_configure env fd c
  handle fd duo_start = serve_duo_start env fd
  handle fd duo_stop = serve_duo_stop env fd
  handle fd duo_release = serve_duo_release env fd
  handle fd (duo_swap_rate rate) = serve_duo_swap_rate env fd rate
  handle fd (duo_update u) = serve_duo_update env fd u
  handle fd (acquire a) = serve_acquire env fd a
  handle fd start = owner_only fd may_start (serve_start env)
  handle fd stop = owner_only fd (λ d. d.radio) (serve_stop env)
  handle fd release = owner_only fd always (serve_release env fd)
  handle fd (configure c) = owner_only fd always (serve_configure env c)
  handle fd (configure_dual c) = owner_only fd always (serve_configure_dual env c)
  handle fd (swap_tuner u) =
      owner_only fd (λ d. d.configured && not d.dual_mode) (serve_swap_tuner env u)
  handle fd (swap_mode u) = owner_only fd (λ d. d.configured) (serve_swap_mode env u)
  handle fd resume_mode =
      owner_only fd (λ d. d.configured && d.mode_swap_paused) (serve_resume_mode env)
  handle fd (update u) = owner_only fd always (serve_update env u)
  handle fd unknown = refused fd

  -- The reply to a request, its header checked first.
  unfoldable pub answer_request : ℤ → Request → M Reply
  answer_request fd r = if r.well_formed then handle fd r.body else return (reply bad_request)

  abbrev pub is_list : Body → Bool
  is_list lists = true
  is_list _ = false

  abbrev pub is_start : Body → Bool
  is_start start = true
  is_start _ = false

  -- The next part of the reply, unless the last one failed: `return -1`.
  abbrev pub and_also : M Bool → M Bool → M Bool
  and_also m k = do went ← m; if went then k else return false

  unfoldable pub send : ℤ → Frame → M Bool
  send fd frame = do written ← write_frame env fd frame; return (is_zero written)

  unfoldable pub send_devices : ℤ → ℕ → List DeviceRecord → M Bool
  send_devices fd sequence [] d = (true, d)
  send_devices fd sequence (r ∷ rs) d =
      let sent = send fd (device_event sequence r) d in
      let rest = send_devices fd sequence rs sent.1 in if sent.0 then rest else (false, sent.1)

  unfoldable pub send_event : DuoEvent → M Bool
  send_event e = do sent ← send_duo_event env e; return (is_zero sent)

  -- What the three places that create the streaming thread have in common.
  unfoldable pub run_thread : (Daemon → Daemon) → (Daemon → Daemon) → M Bool
  run_thread before failing = do
    modify before
    created ← create_stream_thread env
    modify (λ s. if created then record s { stream_thread_started = true } else failing s)
    return created

  abbrev unlogged : Daemon → Daemon
  unlogged s = record s { logged_usb_iq = false; logged_socket_iq = false }

  abbrev fresh_stream : Daemon → Daemon
  fresh_stream s = record (unlogged s) {
    first_iq_seen = false;
    streaming = true;
    stream_error = false;
  }

  unfoldable pub start_duo_stream : M Bool
  start_duo_stream =
      run_thread (λ s. record (fresh_stream s) { sequence_a = 0; sequence_b = 0 }) (λ s. s)

  unfoldable pub start_single_stream : M Bool
  start_single_stream = run_thread unlogged (λ s. record s { streaming = false })

  -- No reply to a tuner swap asks for this, so no recovery is left pending.
  unfoldable pub restart_stream : M Bool
  restart_stream =
      run_thread (λ s. record (fresh_stream s) { recovery_config_pending = false }) (λ s. s)

  abbrev pub if_asked : Bool → M Bool → M Bool
  if_asked asked m = if asked then m else return true

  unfoldable pub finish_request : ℤ → Request → Reply → M Bool
  finish_request fd r a = and_also (send fd (response r.sequence a.status a.changed_flags)) (
      and_also (if_asked (is_list r.body && is_ok a.status) (send_devices fd r.sequence a.listed)) (
        and_also (if_asked (is_ok a.status) (send_event a.event)) (
          and_also (if_asked (a.duo_start_stream && is_ok a.status) start_duo_stream) (
            and_also (if_asked (is_start r.body && is_ok a.status) start_single_stream) (
              if_asked (a.start_stream && (is_ok a.status || a.start_after_error))
                restart_stream)))))

  -- `false` makes the main loop remove the client.
  unfoldable pub serve_request : ℤ → Request → M Bool
  serve_request fd r = do a ← answer_request fd r; finish_request fd r a
