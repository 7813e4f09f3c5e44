-- ===== src/Daemon/Swapping.antt =====
-- The change between the single and the dual mode in daemon/openrspd.c.
use openrsp.Base.{some, true, false, ◌≡◌, arith, ◌==◌}
use openrsp.Protocol.{ModeSwapRequest, RadioConfig, DualConfig}
use openrsp.Daemon.Config.{config_valid, valid_dual_config}
use openrsp.Daemon.State.{Env, Daemon, Status, is_ok}
use openrsp.Daemon.Radio.{configure_radio, configure_dual_radio}
use openrsp.Daemon.Serve.Owner.{take_down, roll_back, serve_swap_mode}
use openrsp.Daemon.Programmed.{programmed, single_setting, dual_setting, configure_radio-Programs}
use openrsp.Daemon.Tuning.{Closes, configure_radio_lem, configure_dual_radio_lem}

-- The receiver is open in the mode and with the configuration that were asked for: the daemon keeps
-- them, and the driver accepted their settings last.
pub record Swapped (env : Env) (u : ModeSwapRequest) (d : Daemon) : Type 0 where
  pub opened : d.radio ≡ true
  pub marked : d.configured ≡ true
  pub mode : d.dual_mode ≡ (u.mode == 2)
  pub single : u.mode ≡ 1 → (d.config ≡ u.single) × (d.bootstrap_config ≡ u.single)
  pub dual : u.mode ≡ 2 → d.dual_config ≡ u.dual
  pub single_set : u.mode ≡ 1 → programmed env d.trace ≡ some (single_setting u.single)
  pub dual_set : u.mode ≡ 2 → programmed env d.trace ≡ some (dual_setting u.dual)

module _ (env : Env) where
  status-roll_back : (old e : Daemon) (s : Status) → (roll_back env old s e).0.status ≡ s
  unfolding roll_back
  status-roll_back old e s = ground arith

module _ (env : Env) (u : ModeSwapRequest) (d : Daemon) where
  -- With a driver that never refuses a close, a mode swap that is answered "ok" leaves the receiver
  -- open and configured in the mode asked for, and the daemon with the configuration asked for. The
  -- last request that the driver got for the receiver's settings asked for the sample rate, frequency,
  -- IF, bandwidth, gain and LNA state of that configuration, for both channels in the dual mode, and was
  -- accepted. No stream starts: it is paused exactly when one was running before.
  pub serve_swap_mode_lem :
      Closes env
      → is_ok (serve_swap_mode env u d).0.status ≡ true
      → Swapped env u (serve_swap_mode env u d).1
        × ((serve_swap_mode env u d).1.mode_swap_paused ≡ d.stream_thread_started)
        × ((serve_swap_mode env u d).0.start_stream ≡ false)
  unfolding serve_swap_mode
  serve_swap_mode_lem k o =
      (let down = take_down env d in
        let dual = configure_dual_radio env u.dual down.1 in
        let single = configure_radio env u.single down.1 in
        ground (
          arith,
          configure_dual_radio_lem env k u.dual down.1,
          configure_radio_lem env k u.single down.1,
          configure_radio-Programs env u.single down.1,
          status-roll_back env d down.1 down.0,
          status-roll_back env d dual.1 dual.0,
          status-roll_back env d single.1 single.0,
        ))

-- The stream goes on as it was in `old`: the daemon has the old settings, and the driver accepted the
-- settings of the old configuration last.
pub record Restored (env : Env) (old d : Daemon) : Type 0 where
  pub opened : d.radio ≡ true
  pub marked : d.configured ≡ true
  pub resumed : d.mode_swap_paused ≡ false
  pub mode : d.dual_mode ≡ old.dual_mode
  pub single : d.config ≡ old.config
  pub dual : d.dual_config ≡ old.dual_config
  pub first : d.bootstrap_config ≡ old.bootstrap_config
  pub first_kept : d.bootstrap_configured ≡ old.bootstrap_configured
  pub single_set : old.dual_mode ≡ false → programmed env d.trace ≡ some (single_setting old.config)
  pub dual_set : old.dual_mode ≡ true → programmed env d.trace ≡ some (dual_setting old.dual_config)

module _ (env : Env) where
  valid-configure_radio :
      (c : RadioConfig) (d : Daemon)
      → is_ok (configure_radio env c d).0 ≡ true
      → config_valid c ≡ true
  unfolding configure_radio
  valid-configure_radio c d = ground arith

  valid-configure_dual_radio :
      (c : DualConfig) (d : Daemon)
      → is_ok (configure_dual_radio env c d).0 ≡ true
      → valid_dual_config c ≡ true
  unfolding configure_dual_radio
  valid-configure_dual_radio c d = ground arith

  roll_back-Restored :
      Closes env
      → (old e : Daemon) (s : Status) → (roll_back env old s e).0.start_stream ≡ true
      → Restored env old (roll_back env old s e).1
        × ((roll_back env old s e).0.start_after_error ≡ true)
  unfolding roll_back
  roll_back-Restored k old e s = ground (
    arith,
    configure_dual_radio_lem env k old.dual_config e,
    configure_radio_lem env k old.config e,
    configure_radio-Programs env old.config e,
    valid-configure_dual_radio old.dual_config e,
    valid-configure_radio old.config e,
  )

  -- With a driver that never refuses a close, a mode swap asks for the stream to be started only
  -- after a failure in which a stream was running before, and only with the receiver open again, the
  -- daemon in the mode and with all the settings from before the swap, and the driver having accepted
  -- the settings of the configuration from before the swap as the last; the start is then asked for
  -- although the swap is answered with its error.
  pub serve_swap_mode_restores :
      Closes env
      → (u : ModeSwapRequest) (d : Daemon) → (serve_swap_mode env u d).0.start_stream ≡ true
      → Restored env d (serve_swap_mode env u d).1
        × ((serve_swap_mode env u d).0.start_after_error ≡ true)
        × (d.stream_thread_started ≡ true)
        × (is_ok (serve_swap_mode env u d).0.status ≡ false)
  unfolding serve_swap_mode
  serve_swap_mode_restores k u d =
      (let down = take_down env d in
        let dual = configure_dual_radio env u.dual down.1 in
        let single = configure_radio env u.single down.1 in
        ground (
          arith,
          roll_back-Restored k d down.1 down.0,
          roll_back-Restored k d dual.1 dual.0,
          roll_back-Restored k d single.1 single.0,
          status-roll_back env d down.1 down.0,
          status-roll_back env d dual.1 dual.0,
          status-roll_back env d single.1 single.0,
        ))
