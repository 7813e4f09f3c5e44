-- ===== src/Daemon/Inventory.antt =====
-- What an inventory of daemon/openrspd.c leaves alone, and how long it is.
use openrsp.Base.{
  ℕ, zero, suc, Bool, true, false, ◌≡◌, refl, ◌∙◌, ◌∷◌, ℤ, arith, Option, none, some, ◌&&◌,
  if◌then◌else◌,
}
use openrsp.Protocol.{RadioConfig, DualConfig}
use openrsp.Identity.{resolve, Resolved, index, not_found, ambiguous}
use openrsp.Duo.{DuoSession}
use openrsp.Daemon.State.{Env, Daemon, read_clock, enumerate, return}
use openrsp.Daemon.Snapshot.{
  resolve_acquired_device, snapshot_sdrplay_devices, fresh_inventory, boot_cold, boot_once, boot_at,
  count_devices, first_cold, keep_index, max_devices, stamp, is_recent?,
}

-- All but the cached inventory and the acquired index.
pub record Held : Type 0 where
  pub radio : Bool
  pub owner : ℤ
  pub api_lock_owner : ℤ
  pub streaming : Bool
  pub stream_thread_started : Bool
  pub stream_error : Bool
  pub mode_swap_paused : Bool
  pub configured : Bool
  pub config : RadioConfig
  pub dual_mode : Bool
  pub dual_config : DualConfig
  pub bootstrap_configured : Bool
  pub bootstrap_config : RadioConfig
  pub duo : DuoSession
  pub duo_active : Bool
  pub duo_config_a : Bool
  pub duo_config_b : Bool
  pub duo_config : DualConfig
  pub running : Bool
  pub thread_live : Bool

abbrev pub held : Daemon → Held
held d = record {
  radio = d.radio;
  owner = d.owner;
  api_lock_owner = d.api_lock_owner;
  streaming = d.streaming;
  stream_thread_started = d.stream_thread_started;
  stream_error = d.stream_error;
  mode_swap_paused = d.mode_swap_paused;
  configured = d.configured;
  config = d.config;
  dual_mode = d.dual_mode;
  dual_config = d.dual_config;
  bootstrap_configured = d.bootstrap_configured;
  bootstrap_config = d.bootstrap_config;
  duo = d.duo;
  duo_active = d.duo_active;
  duo_config_a = d.duo_config_a;
  duo_config_b = d.duo_config_b;
  duo_config = d.duo_config;
  running = d.running;
  thread_live = d.thread_live;
}

abbrev asked_time : Daemon → Daemon
asked_time d = record d { trace = read_clock ∷ d.trace }

if-held {ℓ} :
    {A : Type ℓ} (h : Held) (b : Bool) (x y : A × Daemon)
    → held x.1 ≡ h
    → held y.1 ≡ h
    → held (if b then x else y).1 ≡ h
if-held h true x y p q = p
if-held h false x y p q = q

module _ (env : Env) where
  held-boot_at : (o : Option ℕ) (d : Daemon) → held (boot_at env o d).1 ≡ held d
  held-boot_at none d = refl
  held-boot_at (some i) d = ground arith

  held-boot_once : (d : Daemon) → held (boot_once env d).1 ≡ held d
  unfolding boot_once count_devices
  held-boot_once d =
      held-boot_at (first_cold env (count_devices env d).1.trace (count_devices env d).0 0)
        (count_devices env d).1

  held-boot_cold : (n : ℕ) (d : Daemon) → held (boot_cold env n d).1 ≡ held d
  unfolding boot_cold
  held-boot_cold zero d = refl
  held-boot_cold (suc n) d =
      (let next = boot_once env d in
        let booted = held-boot_once d in
        if-held (held d) d.radio (tt, d) (if next.0 then boot_cold env n next.1 else (tt, next.1))
          refl
          (if-held (held d) next.0 (boot_cold env n next.1) (tt, next.1)
            (held-boot_cold n next.1 ∙ booted) booted))

  held-stamp : (o : Option (ℕ × ℕ)) (d : Daemon) → held (stamp env o d) ≡ held d
  held-stamp none d = refl
  held-stamp (some t) d = refl

  held-fresh_inventory : (d : Daemon) → held (fresh_inventory env d).1 ≡ held d
  unfolding fresh_inventory count_devices
  held-fresh_inventory d =
      held-stamp (env.clock (enumerate ∷ (boot_cold env max_devices d).1.trace)) _
      ∙ held-boot_cold max_devices d

  held-cached :
      (b : Bool) (d : Daemon)
      → held ((if b then return d.device_snapshot else fresh_inventory env) (asked_time d)).1
        ≡ held d
  held-cached true d = refl
  held-cached false d = held-fresh_inventory (asked_time d)

  pub held-snapshot_sdrplay_devices :
      (d : Daemon) → held (snapshot_sdrplay_devices env d).1 ≡ held d
  unfolding snapshot_sdrplay_devices
  held-snapshot_sdrplay_devices d = if-held (held d) (d.radio && d.device_snapshot_valid) _ _ refl (
      if-held (held d) d.device_snapshot_valid _ _
        (held-cached (is_recent? d.device_snapshot_time (env.clock d.trace)) d)
        (held-fresh_inventory d))

  held-keep_index : (r : Resolved) (d : Daemon) → held (keep_index env r d).1 ≡ held d
  held-keep_index (index i) d = refl
  held-keep_index not_found d = refl
  held-keep_index ambiguous d = refl

  pub held-resolve_acquired_device : (d : Daemon) → held (resolve_acquired_device env d).1 ≡ held d
  unfolding resolve_acquired_device
  held-resolve_acquired_device d =
      (let found = snapshot_sdrplay_devices env d in
        held-keep_index (resolve found.1.acquired_identity found.0) found.1
        ∙ held-snapshot_sdrplay_devices d)
