-- ===== src/Daemon/Tuning.antt =====
-- When a configuration of daemon/openrspd.c leaves the receiver open.
use openrsp.Base.{
  ℕ, zero, suc, Bool, true, false, ◌≡◌, refl, ap, eq_ℤ, List, arith, ◌∙◌, not, ◌==◌, if◌then◌else◌,
}
use openrsp.Protocol.{RadioConfig, DualConfig}
use openrsp.Identity.{Resolved, index, not_found, ambiguous}
use openrsp.Daemon.Config.{config_valid, valid_dual_config, Controls}
use openrsp.Daemon.State.{
  Env, Daemon, Effect, close_device, ebusy, is_ok, Status, ok, io_error, bad_request, when, discard,
  call, sleep, M, return,
}
use openrsp.Daemon.Stream.{close_radio}
use openrsp.Daemon.Snapshot.{resolve_acquired_device}
use openrsp.Daemon.Inventory.{held-resolve_acquired_device}
use openrsp.Daemon.Programmed.{dual_setting, Programs, configure_dual_radio-Programs}
use openrsp.Daemon.Radio.{
  open_radio, open_found, open_found_both, ensure_open, apply_if_open, apply_config,
  configure_attempts, leave_mode, configure_radio, set_rspduo_controls, open_both, apply_dual,
  configure_dual_radio,
}

-- The driver never answers a close with -EBUSY.
abbrev pub Closes : Env → Type 0
Closes env = (asked : List Effect) → eq_ℤ (env.answer asked close_device) ebusy ≡ false

-- The receiver is open afterwards exactly when the status is "ok".
abbrev pub Opens : Status × Daemon → Type 0
Opens (status, d) = d.radio ≡ is_ok status

abbrev pub Single : Status × Daemon → Type 0
Single (status, d) = is_ok status ≡ true → d.dual_mode ≡ false

abbrev pub Dual : DualConfig → Status × Daemon → Type 0
Dual c (status, d) =
    is_ok status ≡ true → (d.dual_mode ≡ true) × (d.dual_config ≡ c) × (d.configured ≡ true)

module _ (env : Env) where
  radio-apply_if_open : (c : RadioConfig) (d : Daemon) → (apply_if_open env c d).1.radio ≡ d.radio
  unfolding apply_config
  radio-apply_if_open c d = ground arith

  is_ok-apply_if_open :
      (c : RadioConfig) (d : Daemon) → is_ok (apply_if_open env c d).0 ≡ true → d.radio ≡ true
  unfolding apply_config
  is_ok-apply_if_open c d = ground arith

  close_radio-closes : (d : Daemon) → (close_radio env d).1.radio ≡ false
  unfolding close_radio
  close_radio-closes d = ground arith

  close_radio-not_busy : Closes env → (d : Daemon) → eq_ℤ (close_radio env d).0 ebusy ≡ false
  unfolding close_radio
  close_radio-not_busy k d = ground (arith, k d.trace)

  radio-open_found :
      (t : ℕ) (r : Resolved) (d : Daemon)
      → (open_found env t r d).0 ≡ false
      → (open_found env t r d).1.radio ≡ d.radio
  unfolding open_radio
  radio-open_found t (index i) d e = ground arith
  radio-open_found t not_found d e = refl
  radio-open_found t ambiguous d e = refl

  radio-ensure_open :
      (t : ℕ) (d : Daemon) → (ensure_open env t d).0 ≡ false → (ensure_open env t d).1.radio ≡ false
  unfolding ensure_open
  radio-ensure_open t d e =
      (let found = resolve_acquired_device env d in
        ground (
          arith,
          radio-open_found t found.0 found.1,
          ap (λ h. h.radio) (held-resolve_acquired_device env d),
        ))

  -- The rest in front of another attempt.
  abbrev rest_of : ℕ → Daemon → Daemon
  rest_of left d = (when (not (left == 0)) (discard (call env (sleep 250))) d).1

  radio-rest_of : (left : ℕ) (d : Daemon) → (rest_of left d).radio ≡ d.radio
  radio-rest_of left d = ground arith

  if-Opens :
      (b : Bool) (x y : Status × Daemon)
      → (b ≡ true → Opens x)
      → (b ≡ false → Opens y)
      → Opens (if b then x else y)
  if-Opens true x y p q = p refl
  if-Opens false x y p q = q refl

  if-Single : (b : Bool) (x y : Status × Daemon) → Single x → Single y → Single (if b then x else y)
  if-Single true x y p q = p
  if-Single false x y p q = q

  attempts_open :
      Closes env
      → (n : ℕ) (c : RadioConfig) (d : Daemon) → (n ≡ 0 → d.radio ≡ false)
      → Opens (configure_attempts env n c d)
  unfolding configure_attempts
  attempts_open k zero c d z = z refl
  attempts_open k (suc n) c d z =
      (let opened = ensure_open env c.tuner d in
        let applied = apply_if_open env c opened.1 in
        let closed = close_radio env applied.1 in
        let rested = rest_of n closed.1 in
        let shut = close_radio-closes applied.1 in
        if-Opens (not opened.0) (bad_request, opened.1) _
          (λ e. radio-ensure_open c.tuner d (ground arith))
          (λ e.
            if-Opens (is_ok applied.0) (ok, record (applied.1) { dual_mode = false }) _
              (λ a. radio-apply_if_open c opened.1 ∙ is_ok-apply_if_open c opened.1 a)
              (λ a.
                if-Opens (eq_ℤ closed.0 ebusy) (io_error, closed.1) _ (λ b. shut)
                  (λ b. attempts_open k n c rested (λ z. radio-rest_of n closed.1 ∙ shut)))))

  single_after :
      (n : ℕ) (c : RadioConfig) (d : Daemon)
      → is_ok (configure_attempts env n c d).0 ≡ true
      → (configure_attempts env n c d).1.dual_mode ≡ false
  unfolding configure_attempts
  single_after zero c d o = ground arith
  single_after (suc n) c d o =
      (let opened = ensure_open env c.tuner d in
        let applied = apply_if_open env c opened.1 in
        let closed = close_radio env applied.1 in
        if-Single (not opened.0) (bad_request, opened.1) _ (λ p. ground arith)
          (if-Single (is_ok applied.0) (ok, record (applied.1) { dual_mode = false }) _ (λ p. refl)
            (if-Single (eq_ℤ closed.0 ebusy) (io_error, closed.1) _ (λ p. ground arith)
              (single_after n c (rest_of n closed.1))))
          o)

  leave_mode_lem : Closes env → (b : Bool) (d : Daemon) → (leave_mode env b d).0 ≡ true
  unfolding leave_mode
  leave_mode_lem k b d = ground (arith, close_radio-not_busy k d)

  -- With a driver that never refuses a close, a valid configuration of one tuner leaves the
  -- receiver open exactly when it is answered "ok", and then the daemon is in the single mode.
  pub configure_radio_lem :
      Closes env
      → (c : RadioConfig) (d : Daemon) → config_valid c ≡ true
      → Opens (configure_radio env c d) × Single (configure_radio env c d)
  unfolding configure_radio
  configure_radio_lem k c d v =
      (let left = leave_mode env d.dual_mode d in
        ground (
          arith,
          leave_mode_lem k d.dual_mode d,
          attempts_open k 3 c left.1 (λ z. ground arith),
          single_after 3 c left.1,
        ))

  radio-open_found_both :
      (r : Resolved) (d : Daemon)
      → d.radio ≡ false
      → (open_found_both env r d).1.radio ≡ (open_found_both env r d).0
  unfolding open_radio
  radio-open_found_both (index i) d e = ground arith
  radio-open_found_both not_found d e = e
  radio-open_found_both ambiguous d e = e

  radio-open_both : (d : Daemon) → (open_both env d).1.radio ≡ (open_both env d).0
  unfolding open_both
  radio-open_both d =
      (let found = resolve_acquired_device env d in
        ground (
          arith,
          radio-open_found_both found.0 found.1,
          ap (λ h. h.radio) (held-resolve_acquired_device env d),
        ))

  radio-set_rspduo_controls :
      (c : RadioConfig) (f : Controls) (d : Daemon)
      → (set_rspduo_controls env c f d).1.radio ≡ d.radio
  unfolding set_rspduo_controls
  radio-set_rspduo_controls c f d = ground arith

  abbrev attempt_dual : Bool → DualConfig → M Status
  attempt_dual opened c = if opened then apply_dual env c else return io_error

  apply_dual_lem :
      (c : DualConfig) (d : Daemon)
      → d.radio ≡ true
      → Opens (apply_dual env c d) × Dual c (apply_dual env c d)
  unfolding apply_dual close_radio set_rspduo_controls
  apply_dual_lem c d r = ground arith

  opened-Dual :
      (b : Bool) (c : DualConfig) (d : Daemon)
      → d.radio ≡ b
      → Opens (attempt_dual b c d) × Dual c (attempt_dual b c d)
  opened-Dual true c d e = apply_dual_lem c d e
  opened-Dual false c d e = ground arith

  pub configure_dual_radio_lem :
      Closes env
      → (c : DualConfig) (d : Daemon) → valid_dual_config c ≡ true
      → Opens (configure_dual_radio env c d)
        × Dual c (configure_dual_radio env c d)
        × Programs env (dual_setting c) (configure_dual_radio env c d)
  unfolding configure_dual_radio
  configure_dual_radio_lem k c d v =
      (let left = leave_mode env (not d.dual_mode) d in
        let opened = open_both env left.1 in
        ground (
          arith,
          leave_mode_lem k (not d.dual_mode) d,
          opened-Dual opened.0 c opened.1 (radio-open_both left.1),
          configure_dual_radio-Programs env c d,
        ))
