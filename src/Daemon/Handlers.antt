-- ===== src/Daemon/Handlers.antt =====
-- The handlers of daemon/openrspd.c that leave alone who owns what.
use openrsp.Base.{
  Bool, true, false, not, ◌≡◌, refl, ◌∙◌, ◌&&◌, ◌==◌, if◌then◌else◌, ℤ, pos, arith, has_bit,
}
use openrsp.Protocol.{RadioConfig, DualConfig, UpdateRequest, SwapRequest, ModeSwapRequest}
use openrsp.Daemon.Config.{change_sample_rate}
use openrsp.Daemon.State.{
  Env, Daemon, Status, ok, bad_request, unsupported, busy, start_pending, stop_pending, io_error, M,
  return, is_zero,
}
use openrsp.Daemon.Stream.{stop_stream}
use openrsp.Daemon.Radio.{
  configure_radio, configure_dual_radio, apply_update, or_failed, set_rspduo_controls,
}
use openrsp.Daemon.Serve.Duo.{
  duo_reset_hardware, duo_apply_running_config, serve_duo_configure, serve_duo_update,
}
use openrsp.Daemon.Serve.Owner.{
  serve_start, serve_stop, serve_configure, serve_configure_dual, take_down, serve_swap_tuner,
  roll_back, serve_swap_mode, serve_resume_mode, update_open, after_update, serve_update,
}
use openrsp.Daemon.Core.{
  core, core-stop_stream, core-close_radio, core-configure_radio, core-configure_dual_radio,
  core-apply_update,
}

module _ (env : Env) where
  pub core-serve_start : (d : Daemon) → core (serve_start env d).1 ≡ core d
  unfolding serve_start
  core-serve_start d = refl

  pub core-serve_stop : (d : Daemon) → core (serve_stop env d).1 ≡ core d
  unfolding serve_stop
  core-serve_stop d = core-stop_stream env d

  pub core-serve_configure :
      (c : RadioConfig) (d : Daemon) → core (serve_configure env c d).1 ≡ core d
  unfolding serve_configure
  core-serve_configure c d = ground (arith, core-configure_radio env c d)

  pub core-serve_configure_dual :
      (c : DualConfig) (d : Daemon) → core (serve_configure_dual env c d).1 ≡ core d
  unfolding serve_configure_dual
  core-serve_configure_dual c d = ground (arith, core-configure_dual_radio env c d)

  abbrev stop_if : Bool → M ℤ
  stop_if wanted s = if wanted then stop_stream env s else (pos 0, s)

  core-stop_if : (wanted : Bool) (d : Daemon) → core (stop_if wanted d).1 ≡ core d
  core-stop_if true d = core-stop_stream env d
  core-stop_if false d = refl

  core-take_down : (d : Daemon) → core (take_down env d).1 ≡ core d
  unfolding take_down
  core-take_down d =
      (let stopped = stop_if d.stream_thread_started d in
        ground (arith, core-stop_if d.stream_thread_started d, core-close_radio env stopped.1))

  pub core-serve_swap_tuner :
      (u : SwapRequest) (d : Daemon) → core (serve_swap_tuner env u d).1 ≡ core d
  unfolding serve_swap_tuner
  core-serve_swap_tuner u d =
      (let down = take_down env d in
        ground (arith, core-take_down d, core-configure_radio env u.config down.1))

  core-roll_back : (old d : Daemon) (s : Status) → core (roll_back env old s d).1 ≡ core d
  unfolding roll_back
  core-roll_back old d s = ground (
    arith,
    core-configure_dual_radio env old.dual_config d,
    core-configure_radio env old.config d,
  )

  pub core-serve_swap_mode :
      (u : ModeSwapRequest) (d : Daemon) → core (serve_swap_mode env u d).1 ≡ core d
  unfolding serve_swap_mode
  core-serve_swap_mode u d =
      (let down = take_down env d in
        let dual = configure_dual_radio env u.dual down.1 in
        let single = configure_radio env u.single down.1 in
        ground (
          arith,
          core-take_down d,
          core-configure_dual_radio env u.dual down.1,
          core-configure_radio env u.single down.1,
          core-roll_back d down.1 down.0,
          core-roll_back d dual.1 dual.0,
          core-roll_back d single.1 single.0,
        ))

  pub core-serve_resume_mode : (d : Daemon) → core (serve_resume_mode env d).1 ≡ core d
  unfolding serve_resume_mode
  core-serve_resume_mode d = refl

  core-apply_status :
      (s : ℤ) (u : UpdateRequest) (d : Daemon)
      → core ((if is_zero s then apply_update env u else return io_error) d).1 ≡ core d
  core-apply_status s u d = ground (arith, core-apply_update env u d)

  core-duo_apply_running_config :
      (c : RadioConfig) (d : Daemon) → core (duo_apply_running_config env c d).1 ≡ core d
  unfolding duo_apply_running_config or_failed set_rspduo_controls
  core-duo_apply_running_config c d = ground arith

  pub core-serve_duo_configure :
      (fd : ℤ) (c : RadioConfig) (d : Daemon) → core (serve_duo_configure env fd c d).1 ≡ core d
  unfolding serve_duo_configure
  core-serve_duo_configure fd c d = ground (arith, core-duo_apply_running_config c d)

  pub core-serve_duo_update :
      (fd : ℤ) (u : UpdateRequest) (d : Daemon) → core (serve_duo_update env fd u d).1 ≡ core d
  unfolding serve_duo_update
  core-serve_duo_update fd u d = ground (arith, core-apply_update env u d)

  pub core-duo_reset_hardware : (d : Daemon) → core (duo_reset_hardware env d).1 ≡ core d
  unfolding duo_reset_hardware
  core-duo_reset_hardware d =
      (let stopped = stop_if d.radio d in
        ground (arith, core-stop_if d.radio d, core-close_radio env stopped.1))

  core-after_update :
      (u : UpdateRequest) (restarts : Bool) (s : Status) (d : Daemon)
      → core (after_update env u restarts s d).1 ≡ core d
  core-after_update u restarts ok d = refl
  core-after_update u restarts io_error d = ground arith
  core-after_update u restarts bad_request d = refl
  core-after_update u restarts unsupported d = refl
  core-after_update u restarts busy d = refl
  core-after_update u restarts start_pending d = refl
  core-after_update u restarts stop_pending d = refl

  core-update_open : (u : UpdateRequest) (d : Daemon) → core (update_open env u d).1 ≡ core d
  unfolding update_open
  core-update_open u d =
      (let restarts =
          d.stream_thread_started
          && has_bit change_sample_rate u.changed_flags
          && not (u.config.sample_rate_hz == d.config.sample_rate_hz) in
        let stopped = stop_if restarts d in
        let updated =
          (if is_zero stopped.0 then apply_update env u else return io_error) stopped.1 in
        core-after_update u restarts updated.0 updated.1
        ∙ core-apply_status stopped.0 u stopped.1
        ∙ core-stop_if restarts d)

  pub core-serve_update : (u : UpdateRequest) (d : Daemon) → core (serve_update env u d).1 ≡ core d
  unfolding serve_update
  core-serve_update u d = ground (arith, core-update_open u d)
