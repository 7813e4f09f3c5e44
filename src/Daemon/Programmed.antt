-- ===== src/Daemon/Programmed.antt =====
-- What the driver was asked last to set the receiver to, in the calls of daemon/openrspd.c.
use openrsp.Base.{
  ℕ, zero, suc, Bool, true, false, ◌≡◌, refl, not, ◌==◌, if◌then◌else◌, ℤ, eq_ℤ, is_nonneg, Option,
  none, some, List, [], ◌∷◌, arith,
}
use openrsp.Protocol.{RadioConfig, DualConfig}
use openrsp.Daemon.Config.{Controls, all_controls, to_u32}
use openrsp.Daemon.State.{
  Env, Daemon, Effect, Status, ok, io_error, bad_request, is_ok, is_zero, ebusy, open_tuner,
  close_device, configure_rspduo, configure_rspduo_dual, update_rspduo_dual, set_gain_lna,
  set_sample_rate, set_center_freq, set_bandwidth, set_if_freq, sleep, call, when, discard, M,
}
use openrsp.Daemon.Stream.{close_radio}
use openrsp.Daemon.Radio.{
  ensure_open, apply_if_open, apply_config, configure_attempts, leave_mode, configure_radio,
  set_rspduo_controls, open_both, and_then, apply_dual, configure_dual_radio, configure_dual_effect,
}

-- A call after which the receiver may have other settings than before.
abbrev pub touches : Effect → Bool
touches (open_tuner i t) = true
touches close_device = true
touches (configure_rspduo r f i b g l) = true
touches (configure_rspduo_dual r fa fb i b ga la gb lb) = true
touches (update_rspduo_dual t f g l) = true
touches (set_gain_lna g l) = true
touches (set_sample_rate r) = true
touches (set_center_freq f) = true
touches (set_bandwidth b) = true
touches (set_if_freq f) = true
touches _ = false

-- The last such call, if the driver accepted it.
unfoldable pub programmed : Env → List Effect → Option Effect
programmed env [] = none
programmed env (e ∷ asked) =
    if touches e
    then if is_nonneg (env.answer asked e) then some e else none
    else programmed env asked

-- The calls that set the receiver to a configuration of one tuner, and of both. The tuners of the dual
-- mode share the sample rate, the IF and the bandwidth.
abbrev pub single_setting : RadioConfig → Effect
single_setting c =
    configure_rspduo c.sample_rate_hz c.center_frequency_hz (to_u32 c.if_frequency_hz)
      c.bandwidth_hz c.gain_reduction_db c.lna_state

abbrev pub dual_setting : DualConfig → Effect
dual_setting c =
    configure_rspduo_dual c.sample_rate_hz c.channel_a.center_frequency_hz
      c.channel_b.center_frequency_hz (to_u32 c.channel_a.if_frequency_hz) c.channel_a.bandwidth_hz
      c.channel_a.gain_reduction_db c.channel_a.lna_state c.channel_b.gain_reduction_db
      c.channel_b.lna_state

-- After these calls the receiver has this setting.
abbrev pub Programs : Env → Effect → Status × Daemon → Type 0
Programs env e (status, d) = is_ok status ≡ true → programmed env d.trace ≡ some e

nonneg_zero : (r : ℤ) → is_zero r ≡ true → is_nonneg r ≡ true
nonneg_zero r h = ground arith

module _ (env : Env) where
  apply-Programs :
      (c : RadioConfig) (d : Daemon) → Programs env (single_setting c) (apply_if_open env c d)
  unfolding apply_config programmed
  apply-Programs c d h = ground (arith, nonneg_zero (env.answer d.trace (single_setting c)))

  if-Programs :
      (e : Effect) (b : Bool) (x y : Status × Daemon)
      → (b ≡ true → Programs env e x)
      → Programs env e y
      → Programs env e (if b then x else y)
  if-Programs e true x y p q = p refl
  if-Programs e false x y p q = q

  attempts-Programs :
      (n : ℕ) (c : RadioConfig) (d : Daemon)
      → Programs env (single_setting c) (configure_attempts env n c d)
  unfolding configure_attempts
  attempts-Programs zero c d o = ground arith
  attempts-Programs (suc n) c d o =
      (let opened = ensure_open env c.tuner d in
        let applied = apply_if_open env c opened.1 in
        let closed = close_radio env applied.1 in
        let rested = (when (not (n == 0)) (discard (call env (sleep 250))) closed.1).1 in
        let e = single_setting c in
        if-Programs e (not opened.0) (bad_request, opened.1) _ (λ b p. ground arith)
          (if-Programs e (is_ok applied.0) (ok, record (applied.1) { dual_mode = false }) _
            (λ fine p. apply-Programs c opened.1 fine)
            (if-Programs e (eq_ℤ closed.0 ebusy) (io_error, closed.1) _ (λ b p. ground arith)
              (attempts-Programs n c rested)))
          o)

  -- Whatever the driver answers otherwise, a configuration of one tuner that is answered "ok" leaves
  -- the receiver with the settings of that configuration, as the last that the driver accepted.
  pub configure_radio-Programs :
      (c : RadioConfig) (d : Daemon) → Programs env (single_setting c) (configure_radio env c d)
  unfolding configure_radio
  configure_radio-Programs c d o =
      ground (arith, attempts-Programs 3 c (leave_mode env d.dual_mode d).1)

  programmed-controls :
      (c : RadioConfig) (f : Controls) (d : Daemon)
      → programmed env (set_rspduo_controls env c f d).1.trace ≡ programmed env d.trace
  unfolding set_rspduo_controls programmed
  programmed-controls c f d = ground arith

  abbrev controls_then : ℤ → RadioConfig → M ℤ
  controls_then r c = and_then env r (set_rspduo_controls env c all_controls)

  programmed-controls_then :
      (r : ℤ) (c : RadioConfig) (d : Daemon)
      → programmed env (controls_then r c d).1.trace ≡ programmed env d.trace
  programmed-controls_then r c d = ground (arith, programmed-controls c all_controls d)

  first_nonneg :
      (r : ℤ) (c : RadioConfig) (d : Daemon)
      → is_nonneg (controls_then r c d).0 ≡ true
      → is_nonneg r ≡ true
  first_nonneg r c d h = ground (arith, nonneg_zero r)

  apply_dual-Programs :
      (c : DualConfig) (d : Daemon) → Programs env (dual_setting c) (apply_dual env c d)
  unfolding apply_dual programmed
  apply_dual-Programs c d o =
      (let first = configure_dual_effect env c d in
        let second = controls_then first.0 c.channel_a first.1 in
        ground (
          arith,
          programmed-controls_then first.0 c.channel_a first.1,
          programmed-controls_then second.0 c.channel_b second.1,
          first_nonneg first.0 c.channel_a first.1,
          first_nonneg second.0 c.channel_b second.1,
        ))

  pub configure_dual_radio-Programs :
      (c : DualConfig) (d : Daemon) → Programs env (dual_setting c) (configure_dual_radio env c d)
  unfolding configure_dual_radio
  configure_dual_radio-Programs c d o =
      (let left = leave_mode env (not d.dual_mode) d in
        let opened = open_both env left.1 in ground (arith, apply_dual-Programs c opened.1))
