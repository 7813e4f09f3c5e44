-- ===== src/Daemon/Release.antt =====
-- What daemon/openrspd.c undoes for a client that goes away, and at the end.
use openrsp.Base.{Bool, true, false, not, ◌&&◌, if◌then◌else◌, ℤ, pos, eq_ℤ, is_nonneg}
use openrsp.Duo.{
  Role, role_none, role_master, role_slave, role_for_descriptor, disconnect, invalid_client,
}
use openrsp.Removal.{present}
use openrsp.Daemon.State.{Env, Daemon, M, ◌>>=◌, ◌>>◌, get, modify, when, discard}
use openrsp.Daemon.Stream.{stop_stream, close_radio, send_duo_event}

abbrev pub has_role : Role → Bool
has_role role_none = false
has_role role_master = true
has_role role_slave = true

module _ (env : Env) where
  abbrev pub stop_if_open : M (Unit {0})
  stop_if_open d = when d.radio (discard (stop_stream env)) d

  -- The end of master/slave mode.
  abbrev pub forget_duo : Daemon → Daemon
  forget_duo d = record d { duo_active = false; duo_config_a = false; duo_config_b = false }

  unfoldable pub release_duo : ℤ → M (Unit {0})
  release_duo fd d =
      let o = disconnect d.duo fd in
      (do
        modify (λ s. record s { duo = o.session })
        discard (send_duo_event env o.event)
        when (not o.session.master_selected && not o.session.slave_selected) (do
          stop_if_open
          discard (close_radio env)
          modify (λ s.
              forget_duo (record s {
                configured = false;
                dual_mode = false;
                device_snapshot_valid = false;
              }))))
        d

  unfoldable pub close_and_forget : M (Unit {0})
  close_and_forget = do discard (close_radio env); modify (λ s. record s { configured = false })

  unfoldable pub release_owner : M (Unit {0})
  release_owner = do
    stop_if_open
    stopped ← get
    when (stopped.dual_mode && stopped.radio) close_and_forget
    closed ← get
    when (closed.stream_error && closed.radio) close_and_forget
    modify (λ s. record s {
      owner = invalid_client;
      streaming = false;
      stream_error = false;
      stream_result = pos 0;
      dual_mode = false;
      mode_swap_paused = false;
      removal_tracker = present s.removal_tracker;
    })

  unfoldable pub release_client : ℤ → M (Unit {0})
  release_client fd d =
      if d.duo_active && has_role (role_for_descriptor d.duo fd)
      then release_duo fd d
      else if not (eq_ℤ d.owner fd)
      then (tt, d)
      else release_owner d

  unfoldable pub release_api_lock : ℤ → M (Unit {0})
  release_api_lock fd d =
      if eq_ℤ d.api_lock_owner fd
      then (tt, record d { api_lock_owner = invalid_client })
      else (tt, d)

  unfoldable pub shutdown_radio : M (Unit {0})
  shutdown_radio d =
      if not d.radio
      then (tt, d)
      else (do
        discard (stop_stream env)
        discard (close_radio env)
        modify (λ s. record s {
          owner = invalid_client;
          configured = false;
          stream_error = false;
          stream_result = pos 0;
        }))
          d

  -- `remove_client` for the client of a slot, before its socket is closed.
  unfoldable pub remove_client : ℤ → M (Unit {0})
  remove_client fd d =
      if not (is_nonneg fd) then (tt, d) else (do release_client fd; release_api_lock fd) d
