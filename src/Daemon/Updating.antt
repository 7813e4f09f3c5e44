-- ===== src/Daemon/Updating.antt =====
-- What becomes of an update of the settings in daemon/openrspd.c.
use openrsp.Base.{
  ℕ, Bool, true, false, not, ◌≡◌, refl, ◌∙◌, ℤ, pos, arith, if◌then◌else◌, ◌&&◌, ◌==◌, has_bit,
}
use openrsp.Protocol.{UpdateRequest, RadioConfig}
use openrsp.Daemon.Config.{change_sample_rate}
use openrsp.Daemon.State.{
  Env, Daemon, Status, ok, bad_request, unsupported, busy, start_pending, stop_pending, io_error,
  is_ok, is_zero, M, return,
}
use openrsp.Daemon.Stream.{stop_stream, join_stream_thread, stream_main_end}
use openrsp.Daemon.Radio.{apply_update, update_single}
use openrsp.Daemon.Serve.Owner.{serve_update, update_open, after_update}

module _ (env : Env) where
  abbrev Taken : RadioConfig → Status × Daemon → Type 0
  Taken c (status, d) = is_ok status ≡ true → d.config ≡ c

  update_single-Taken :
      (flags : ℕ) (c : RadioConfig) (d : Daemon) → Taken c (update_single env flags c d)
  unfolding update_single
  update_single-Taken flags c d = ground arith

  apply_update-Taken :
      (u : UpdateRequest) (d : Daemon) → d.dual_mode ≡ false → Taken u.config (apply_update env u d)
  unfolding apply_update
  apply_update-Taken u d s = ground (arith, update_single-Taken u.changed_flags u.config d)

  abbrev stop_if : Bool → M ℤ
  stop_if wanted s = if wanted then stop_stream env s else (pos 0, s)

  single-stop_if : (wanted : Bool) (d : Daemon) → (stop_if wanted d).1.dual_mode ≡ d.dual_mode
  unfolding stop_stream join_stream_thread stream_main_end
  single-stop_if true d = ground arith
  single-stop_if false d = refl

  applied-Taken :
      (stopped : ℤ) (u : UpdateRequest) (d : Daemon)
      → d.dual_mode ≡ false
      → Taken u.config ((if is_zero stopped then apply_update env u else return io_error) d)
  applied-Taken stopped u d s = ground (arith, apply_update-Taken u d s)

  after_update-Taken :
      (u : UpdateRequest) (restarts : Bool) (s : Status) (d : Daemon)
      → (is_ok s ≡ true → d.config ≡ u.config)
      → is_ok (after_update env u restarts s d).0.status ≡ true
      → (after_update env u restarts s d).1.config ≡ u.config
  after_update-Taken u restarts ok d t o = t refl
  after_update-Taken u restarts io_error d t o = ground arith
  after_update-Taken u restarts bad_request d t o = ground arith
  after_update-Taken u restarts unsupported d t o = ground arith
  after_update-Taken u restarts busy d t o = ground arith
  after_update-Taken u restarts start_pending d t o = ground arith
  after_update-Taken u restarts stop_pending d t o = ground arith

  update_open-Taken :
      (u : UpdateRequest) (d : Daemon)
      → d.dual_mode ≡ false
      → is_ok (update_open env u d).0.status ≡ true
      → (update_open env u d).1.config ≡ u.config
  unfolding update_open
  update_open-Taken u d s =
      (let restarts =
          d.stream_thread_started
          && has_bit change_sample_rate u.changed_flags
          && not (u.config.sample_rate_hz == d.config.sample_rate_hz) in
        let stopped = stop_if restarts d in
        let updated =
          (if is_zero stopped.0 then apply_update env u else return io_error) stopped.1 in
        after_update-Taken u restarts updated.0 updated.1
          (applied-Taken stopped.0 u stopped.1 (single-stop_if restarts d ∙ s)))

  -- In the single mode an update that is answered "ok" is never lost: whether it was applied, or
  -- failed, or came while the stream was failing or closed, its settings are the daemon's.
  pub serve_update_lem :
      (u : UpdateRequest) (d : Daemon)
      → d.dual_mode ≡ false
      → is_ok (serve_update env u d).0.status ≡ true
      → (serve_update env u d).1.config ≡ u.config
  unfolding serve_update
  serve_update_lem u d s = ground (arith, update_open-Taken u d s)
