-- ===== src/Daemon/Exclusion.antt =====
-- The daemon of daemon/openrspd.c from its start, turn by turn of `run_server`.
use openrsp.Base.{
  ℕ, Bool, Bool-cases, inl, inr, false, eq_ℤ, is_nonneg, negsuc, ◌||◌, refl, ◌≡◌, ◌∙◌, ℤ, arith,
  List, [], ◌∷◌, ◌&&◌, not, if◌then◌else◌,
}
use openrsp.Daemon.State.{Env, Daemon, M, daemon_init}
use openrsp.Daemon.Stream.{send_stream, stream_main_end, stop_stream}
use openrsp.Daemon.Release.{release_api_lock, remove_client, shutdown_radio}
use openrsp.Daemon.Serve.{
  Body, ping, lists, lock_api, unlock_api, duo_acquire, duo_configure, duo_start, duo_stop,
  duo_release, duo_swap_rate, duo_update, acquire, start, stop, release, configure, configure_dual,
  swap_tuner, swap_mode, resume_mode, update, unknown, Request, Reply,
}
use openrsp.Daemon.Serve.Owner.{
  serve_release, serve_start, serve_stop, serve_configure, serve_configure_dual, serve_swap_tuner,
  serve_swap_mode, serve_resume_mode, serve_update,
}
use openrsp.Daemon.Serve.Dispatch.{
  handle, serve_list, serve_lock_api, serve_unlock_api, answer_request, serve_request, owner_only,
  always, may_start,
}
use openrsp.Daemon.Recovery.{recover_failed_stream, finish_recovery_config}
use openrsp.Daemon.Core.{core, core-stop_stream, core-close_radio, core-snapshot_sdrplay_devices}
use openrsp.Daemon.Handlers.{
  core-serve_start, core-serve_stop, core-serve_configure, core-serve_configure_dual,
  core-serve_swap_tuner, core-serve_swap_mode, core-serve_resume_mode, core-serve_update,
  core-serve_duo_configure, core-serve_duo_update,
}
use openrsp.Daemon.Ownership.{
  Exclusive, carry, daemon_init-Exclusive, serve_duo_acquire-Exclusive, serve_duo_start-Exclusive,
  serve_duo_stop-Exclusive, serve_duo_release-Exclusive,
}
use openrsp.Daemon.Turns.{
  serve_duo_swap_rate-Exclusive, release_client-Exclusive, serve_acquire-Exclusive,
}
use openrsp.Daemon.Upkeep.{
  core-send_stream, core-recover_failed_stream, core-finish_recovery_config,
}
use openrsp.Daemon.Replies.{core-finish_request}

-- What the loop of `run_server` and the streaming thread do, one at a time. The clients are the table of
-- their sockets, with a negative number for a free place. A turn of the thread does nothing unless the
-- thread runs.
pub data Turn : Type 0 where
  upkeep : List ℤ → Turn
  request : ℤ → Request → Turn
  hang_up : ℤ → Turn
  transfer : ℕ → List ℕ → Turn
  thread_end : Turn
  shut_down : List ℤ → Turn

-- The client of the first place whose socket failed, or the owner's if the failed one is not known.
unfoldable pub evict : Env → ℤ → List ℤ → Daemon → Daemon
evict env failed_fd [] d = d
evict env failed_fd (fd ∷ clients) d =
    let removed = (remove_client env fd d).1 in
    let rest = evict env failed_fd clients d in
    if eq_ℤ fd failed_fd || (not (is_nonneg failed_fd) && eq_ℤ fd d.owner) then removed else rest

-- The start of the loop: a reported write error comes before the recovery, which then waits for the
-- next time.
unfoldable pub keep_up : Env → List ℤ → Daemon → Daemon
keep_up env clients d =
    if d.client_write_error
    then evict env d.client_write_error_fd clients
        (record d { client_write_error = false; client_write_error_fd = negsuc 0 })
    else (finish_recovery_config env (recover_failed_stream env d).1).1

unfoldable pub close_clients : Env → List ℤ → Daemon → Daemon
close_clients env [] d = d
close_clients env (fd ∷ clients) d = close_clients env clients (remove_client env fd d).1

-- The state after one turn; a client whose request fails is removed. The end of `run_server` removes all
-- clients and closes the receiver.
unfoldable pub turn : Env → Turn → Daemon → Daemon
turn env (upkeep clients) d = keep_up env clients d
turn env (request fd r) d =
    let served = serve_request env fd r d in
    let removed = (remove_client env fd served.1).1 in if served.0 then served.1 else removed
turn env (hang_up fd) d = (remove_client env fd d).1
turn env (transfer tuner buffer) d = if d.thread_live then (send_stream env tuner buffer d).1 else d
turn env thread_end d = if d.thread_live then (stream_main_end env d).1 else d
turn env (shut_down clients) d = (shutdown_radio env (close_clients env clients d)).1

unfoldable pub turns : Env → List Turn → Daemon → Daemon
turns env [] d = d
turns env (t ∷ ts) d = turns env ts (turn env t d)

module _ (env : Env) where
  guarded :
      (fd : ℤ) (allowed : Daemon → Bool) (m : M Reply) (d : Daemon)
      → Exclusive (core d)
      → core (m d).1 ≡ core d
      → Exclusive (core (owner_only fd allowed m d).1)
  guarded fd allowed m d v k = ground (arith, carry (core (m d).1) (core d) k v)

  handle-Exclusive :
      (fd : ℤ) (b : Body) (d : Daemon) → Exclusive (core d) → Exclusive (core (handle env fd b d).1)
  unfolding handle serve_list serve_lock_api serve_unlock_api release_api_lock serve_release
  handle-Exclusive fd ping d v = v
  handle-Exclusive fd lists d v =
      carry (core (serve_list env d).1) (core d) (core-snapshot_sdrplay_devices env d) v
  handle-Exclusive fd lock_api d v = ground arith
  handle-Exclusive fd unlock_api d v = ground arith
  handle-Exclusive fd (duo_acquire a) d v = serve_duo_acquire-Exclusive env fd a d v
  handle-Exclusive fd (duo_configure c) d v =
      carry _ (core d) (core-serve_duo_configure env fd c d) v
  handle-Exclusive fd duo_start d v = serve_duo_start-Exclusive env fd d v
  handle-Exclusive fd duo_stop d v = serve_duo_stop-Exclusive env fd d v
  handle-Exclusive fd duo_release d v = serve_duo_release-Exclusive env fd d v
  handle-Exclusive fd (duo_swap_rate r) d v = serve_duo_swap_rate-Exclusive env fd r d v
  handle-Exclusive fd (duo_update u) d v = carry _ (core d) (core-serve_duo_update env fd u d) v
  handle-Exclusive fd (acquire a) d v = serve_acquire-Exclusive env fd a d v
  handle-Exclusive fd start d v =
      guarded fd may_start (serve_start env) d v (core-serve_start env d)
  handle-Exclusive fd stop d v =
      guarded fd (λ s. s.radio) (serve_stop env) d v (core-serve_stop env d)
  handle-Exclusive fd release d v = ground (arith, release_client-Exclusive env fd d v)
  handle-Exclusive fd (configure c) d v =
      guarded fd always (serve_configure env c) d v (core-serve_configure env c d)
  handle-Exclusive fd (configure_dual c) d v =
      guarded fd always (serve_configure_dual env c) d v (core-serve_configure_dual env c d)
  handle-Exclusive fd (swap_tuner u) d v =
      guarded fd (λ s. s.configured && not s.dual_mode) (serve_swap_tuner env u) d v
        (core-serve_swap_tuner env u d)
  handle-Exclusive fd (swap_mode u) d v =
      guarded fd (λ s. s.configured) (serve_swap_mode env u) d v (core-serve_swap_mode env u d)
  handle-Exclusive fd resume_mode d v =
      guarded fd (λ s. s.configured && s.mode_swap_paused) (serve_resume_mode env) d v
        (core-serve_resume_mode env d)
  handle-Exclusive fd (update u) d v =
      guarded fd always (serve_update env u) d v (core-serve_update env u d)
  handle-Exclusive fd unknown d v = v

  remove_client-Exclusive :
      (fd : ℤ) (d : Daemon) → Exclusive (core d) → Exclusive (core (remove_client env fd d).1)
  unfolding remove_client release_api_lock
  remove_client-Exclusive fd d v = ground (arith, release_client-Exclusive env fd d v)

  serve_request-Exclusive :
      (fd : ℤ) (r : Request) (d : Daemon)
      → Exclusive (core d)
      → Exclusive (core (serve_request env fd r d).1)
  unfolding serve_request answer_request
  serve_request-Exclusive fd r d v =
      (let answered = answer_request env fd r d in
        carry _ (core answered.1) (core-finish_request env fd r answered.0 answered.1)
          (ground (arith, handle-Exclusive fd r.body d v)))

  evict-Exclusive :
      (failed_fd : ℤ) (clients : List ℤ) (d : Daemon)
      → Exclusive (core d)
      → Exclusive (core (evict env failed_fd clients d))
  unfolding evict
  evict-Exclusive failed_fd [] d v = v
  evict-Exclusive failed_fd (fd ∷ clients) d v =
      ground (arith, remove_client-Exclusive fd d v, evict-Exclusive failed_fd clients d v)

  keep_up-Exclusive :
      (clients : List ℤ) (d : Daemon)
      → Exclusive (core d)
      → Exclusive (core (keep_up env clients d))
  unfolding keep_up
  keep_up-Exclusive clients d v = elim (Bool-cases d.client_write_error) [
    | inl failed ↦ simp failed (
        evict-Exclusive d.client_write_error_fd clients
          (record d { client_write_error = false; client_write_error_fd = negsuc 0 }) v)
    | inr fine ↦ simp fine (
        carry _ (core d)
          (core-finish_recovery_config env (recover_failed_stream env d).1
            ∙ core-recover_failed_stream env d)
          v)
  ]

  close_clients-Exclusive :
      (clients : List ℤ) (d : Daemon)
      → Exclusive (core d)
      → Exclusive (core (close_clients env clients d))
  unfolding close_clients
  close_clients-Exclusive [] d v = v
  close_clients-Exclusive (fd ∷ clients) d v =
      close_clients-Exclusive clients (remove_client env fd d).1 (remove_client-Exclusive fd d v)

  shutdown_radio-Exclusive :
      (d : Daemon) → Exclusive (core d) → Exclusive (core (shutdown_radio env d).1)
  unfolding shutdown_radio
  shutdown_radio-Exclusive d v =
      (let stopped = (stop_stream env d).1 in
        ground (arith, core-stop_stream env d, core-close_radio env stopped))

  core-stream_main_end : (d : Daemon) → core (stream_main_end env d).1 ≡ core d
  unfolding stream_main_end
  core-stream_main_end d = refl

  turn-Exclusive : (t : Turn) (d : Daemon) → Exclusive (core d) → Exclusive (core (turn env t d))
  unfolding turn
  turn-Exclusive (upkeep clients) d v = keep_up-Exclusive clients d v
  turn-Exclusive (request fd r) d v = ground (
    arith,
    serve_request-Exclusive fd r d v,
    remove_client-Exclusive fd (serve_request env fd r d).1,
  )
  turn-Exclusive (hang_up fd) d v = remove_client-Exclusive fd d v
  turn-Exclusive (transfer t b) d v =
      ground (arith, carry _ (core d) (core-send_stream env t b d) v)
  turn-Exclusive thread_end d v = ground (arith, carry _ (core d) (core-stream_main_end d) v)
  turn-Exclusive (shut_down clients) d v =
      shutdown_radio-Exclusive (close_clients env clients d) (close_clients-Exclusive clients d v)

  kept-Exclusive :
      (ts : List Turn) (d : Daemon) → Exclusive (core d) → Exclusive (core (turns env ts d))
  unfolding turns
  kept-Exclusive [] d v = v
  kept-Exclusive (t ∷ ts) d v = kept-Exclusive ts (turn env t d) (turn-Exclusive t d v)

  -- Whatever the clients ask, in any order among the transfers and the end of the streaming thread, the
  -- evictions after failed writes, the recoveries and the shutdown, and whatever the modelled calls of
  -- the driver, the sockets and the clock answer: since its start the daemon has master/slave mode on exactly while a master is selected,
  -- the single owner does not exist at the same time, and the master/slave session is consistent.
  pub turns-Exclusive : (ts : List Turn) → Exclusive (core (turns env ts daemon_init))
  turns-Exclusive ts = kept-Exclusive ts daemon_init daemon_init-Exclusive
