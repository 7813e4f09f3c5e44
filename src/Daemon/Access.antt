-- ===== src/Daemon/Access.antt =====
-- Who may do what: the guards of `serve_request` in daemon/openrspd.c.
use openrsp.Base.{Bool, true, false, ◌≡◌, ℤ, eq_ℤ, is_nonneg, arith}
use openrsp.Daemon.State.{Env, Daemon, busy}
use openrsp.Daemon.Serve.{
  Body, ping, lists, lock_api, unlock_api, duo_acquire, duo_configure, duo_start, duo_stop,
  duo_release, duo_swap_rate, duo_update, acquire, start, stop, release, configure, configure_dual,
  swap_tuner, swap_mode, resume_mode, update, unknown, reply,
}
use openrsp.Daemon.Serve.Duo.{
  duo_role, serve_duo_acquire, serve_duo_configure, serve_duo_start, serve_duo_stop,
  serve_duo_release, serve_duo_swap_rate, serve_duo_update,
}
use openrsp.Daemon.Serve.Owner.{serve_acquire}
use openrsp.Daemon.Serve.Dispatch.{handle}

-- The requests that are about a receiver in use.
abbrev pub needs_receiver : Body → Bool
needs_receiver ping = false
needs_receiver lists = false
needs_receiver lock_api = false
needs_receiver unlock_api = false
needs_receiver _ = true

module _ (env : Env) (fd : ℤ) where
  -- While another client owns the receiver and no master/slave session exists, every request
  -- that is about a receiver is answered "busy", asks nothing of the driver or the sockets, and
  -- leaves the daemon's whole state as it is.
  pub intruder :
      (b : Body) (d : Daemon)
      → is_nonneg d.owner ≡ true
      → eq_ℤ d.owner fd ≡ false
      → d.duo_active ≡ false
      → needs_receiver b ≡ true
      → handle env fd b d ≡ (reply busy, d)
  unfolding handle serve_duo_acquire serve_duo_configure serve_duo_start serve_duo_stop
      serve_duo_release serve_duo_swap_rate serve_duo_update duo_role serve_acquire
  intruder ping d n o a w = ground arith
  intruder lists d n o a w = ground arith
  intruder lock_api d n o a w = ground arith
  intruder unlock_api d n o a w = ground arith
  intruder (duo_acquire x) d n o a w = ground arith
  intruder (duo_configure x) d n o a w = ground arith
  intruder duo_start d n o a w = ground arith
  intruder duo_stop d n o a w = ground arith
  intruder duo_release d n o a w = ground arith
  intruder (duo_swap_rate x) d n o a w = ground arith
  intruder (duo_update x) d n o a w = ground arith
  intruder (acquire x) d n o a w = ground arith
  intruder start d n o a w = ground arith
  intruder stop d n o a w = ground arith
  intruder release d n o a w = ground arith
  intruder (configure x) d n o a w = ground arith
  intruder (configure_dual x) d n o a w = ground arith
  intruder (swap_tuner x) d n o a w = ground arith
  intruder (swap_mode x) d n o a w = ground arith
  intruder resume_mode d n o a w = ground arith
  intruder (update x) d n o a w = ground arith
  intruder unknown d n o a w = ground arith
