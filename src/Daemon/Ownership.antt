-- ===== src/Daemon/Ownership.antt =====
-- The single owner and the master/slave session of daemon/openrspd.c exclude each other.
use openrsp.Base.{
  ℕ, Bool, true, false, ◌≡◌, refl, ◌∙◌, sym, subst, is_nonneg, if◌then◌else◌, ℤ, arith,
}
use openrsp.Protocol.{DuoAcquireRequest, DualConfig}
use openrsp.Identity.{Resolved, index, not_found, ambiguous}
use openrsp.Duo.{
  DuoSession, Role, role_none, role_master, role_slave, valid_rate, session_init,
  role_for_descriptor, acquires, initialises, uninitialises, releases, disconnects, step,
  invalid_client, DuoResult, duo_ok,
}
use openrsp.Duo
use openrsp.Duo.Invariant.{IsValid, session_init-IsValid, step-IsValid}
use openrsp.Daemon.State.{Env, Daemon, Status, is_ok, when, discard, return, daemon_init}
use openrsp.Daemon.Radio.{configure_dual_radio}
use openrsp.Daemon.Serve.{Reply, reply}
use openrsp.Daemon.Serve.Duo.{
  duo_role, duo_reset_hardware, duo_prepare_config, duo_identity, duo_take, serve_duo_acquire,
  start_master, start_slave, serve_duo_start, serve_duo_stop, serve_duo_release, rebuild, is_duo_ok,
  duo_result_status, role_of, duo_take_found, restore_rate,
}
use openrsp.Daemon.Core.{Core, core, core-configure_dual_radio, core-snapshot_sdrplay_devices}
use openrsp.Daemon.Handlers.{core-duo_reset_hardware}

-- Master/slave mode is on exactly while a master is selected, and then nobody is the owner.
pub record Exclusive (k : Core) : Type 0 where
  pub valid : IsValid k.duo
  pub active : k.duo_active ≡ k.duo.master_selected
  pub unowned : k.duo_active ≡ true → is_nonneg k.owner ≡ false

pub carry : (a b : Core) → a ≡ b → Exclusive b → Exclusive a
carry a b p v = subst Exclusive (sym p) v

pub daemon_init-Exclusive : Exclusive (core daemon_init)
daemon_init-Exclusive = ground (arith, session_init-IsValid)

pub core-duo_prepare_config : (d : Daemon) → core (duo_prepare_config d).1 ≡ core d
unfolding duo_prepare_config
core-duo_prepare_config d = ground arith

initialise-pending :
    (s : DuoSession) (fd : ℤ)
    → IsValid s
    → is_duo_ok (Duo.initialise s fd).result ≡ true
    → role_for_descriptor s fd ≡ role_master
    → (Duo.initialise s fd).session.slave_initialised ≡ false
unfolding Duo.initialise role_for_descriptor
initialise-pending s fd v = ground arith

initialise-selected :
    (s : DuoSession) (fd : ℤ) → (Duo.initialise s fd).session.master_selected ≡ s.master_selected
unfolding Duo.initialise
initialise-selected s fd = ground arith

uninitialise-selected :
    (s : DuoSession) (fd : ℤ) → (Duo.uninitialise s fd).session.master_selected ≡ s.master_selected
unfolding Duo.uninitialise
uninitialise-selected s fd = ground arith

release-refused :
    (s : DuoSession) (fd : ℤ)
    → is_duo_ok (Duo.release s fd).result ≡ false
    → (Duo.release s fd).session ≡ s
unfolding Duo.release
release-refused s fd = ground arith

release-kept :
    (s : DuoSession) (fd : ℤ)
    → IsValid s
    → (Duo.release s fd).session.master_selected ≡ false
    → (Duo.release s fd).session.slave_selected ≡ false
unfolding Duo.release
release-kept s fd v = ground arith

acquire-selected :
    (s : DuoSession) (fd : ℤ) (r : Role) (t rate : ℕ)
    → IsValid s
    → (is_duo_ok (Duo.acquire s fd r t rate).result ≡ true
        → (Duo.acquire s fd r t rate).session.master_selected ≡ true)
      × (is_duo_ok (Duo.acquire s fd r t rate).result ≡ false
          → (Duo.acquire s fd r t rate).session ≡ s)
unfolding Duo.acquire
acquire-selected s fd role_none t rate v = ground arith
acquire-selected s fd role_master t rate v = ground arith
acquire-selected s fd role_slave t rate v = ground arith

module _ (env : Env) where
  start_slave-Exclusive :
      (r : Reply) (d : Daemon) → Exclusive (core d) → Exclusive (core (start_slave env r d).1)
  unfolding start_slave
  start_slave-Exclusive r d v = ground arith

  start_master-Exclusive :
      (r : Reply) (d : Daemon)
      → Exclusive (core d)
      → d.duo_active ≡ true
      → d.duo.slave_initialised ≡ false
      → Exclusive (core (start_master env r d).1)
  unfolding start_master
  start_master-Exclusive r d v a w =
      (let fits = duo_prepare_config d in
        ground (
          arith,
          core-duo_prepare_config d,
          core-configure_dual_radio env fits.1.duo_config fits.1,
        ))

  -- The session after a call that keeps the master.
  pub moved :
      (d : Daemon) (s : DuoSession)
      → Exclusive (core d)
      → IsValid s
      → s.master_selected ≡ d.duo.master_selected
      → Exclusive (core (record d { duo = s }))
  moved d s v i e = ground arith

  pub serve_duo_start-Exclusive :
      (fd : ℤ) (d : Daemon) → Exclusive (core d) → Exclusive (core (serve_duo_start env fd d).1)
  unfolding serve_duo_start duo_role step
  serve_duo_start-Exclusive fd d v =
      (let o = Duo.initialise d.duo fd in
        let answered = record (reply (duo_result_status o.result)) { event = o.event } in
        let next = record d { duo = o.session } in
        let kept =
          moved d o.session v (step-IsValid d.duo fd initialises v.valid)
            (initialise-selected d.duo fd) in
        ground (
          arith,
          kept,
          initialise-pending d.duo fd v.valid,
          start_master-Exclusive answered next kept,
          start_slave-Exclusive answered next kept,
        ))

  pub serve_duo_stop-Exclusive :
      (fd : ℤ) (d : Daemon) → Exclusive (core d) → Exclusive (core (serve_duo_stop env fd d).1)
  unfolding serve_duo_stop step
  serve_duo_stop-Exclusive fd d v =
      (let o = Duo.uninitialise d.duo fd in
        let next = record d { duo = o.session } in
        let kept =
          moved d o.session v (step-IsValid d.duo fd uninitialises v.valid)
            (uninitialise-selected d.duo fd) in
        ground (arith, kept, core-duo_reset_hardware env next))

  pub serve_duo_release-Exclusive :
      (fd : ℤ) (d : Daemon) → Exclusive (core d) → Exclusive (core (serve_duo_release env fd d).1)
  unfolding serve_duo_release step duo_role
  serve_duo_release-Exclusive fd d v =
      (let o = Duo.release d.duo fd in
        let next = record d { duo = o.session; device_snapshot_valid = false } in
        let valid = step-IsValid d.duo fd releases v.valid in
        ground (
          arith,
          valid,
          release-refused d.duo fd,
          release-kept d.duo fd v.valid,
          core-duo_reset_hardware env next,
        ))

  duo_take-Exclusive :
      (fd : ℤ) (a : DuoAcquireRequest) (i : ℕ) (d : Daemon)
      → Exclusive (core d)
      → is_nonneg d.owner ≡ false
      → Exclusive (core (duo_take env fd a i d).1)
  unfolding duo_take step
  duo_take-Exclusive fd a i d v n =
      (let valid =
          step-IsValid d.duo fd (acquires (role_of a.role) a.tuner a.sample_rate_hz) v.valid in
        ground (
          arith,
          valid,
          acquire-selected d.duo fd (role_of a.role) a.tuner a.sample_rate_hz v.valid,
        ))

  core-duo_identity : (a : DuoAcquireRequest) (d : Daemon) → core (duo_identity env a d).1 ≡ core d
  unfolding duo_identity
  core-duo_identity a d = ground (arith, core-snapshot_sdrplay_devices env d)

  duo_take_found-Exclusive :
      (fd : ℤ) (a : DuoAcquireRequest) (r : Resolved) (d : Daemon)
      → Exclusive (core d)
      → is_nonneg d.owner ≡ false
      → Exclusive (core (duo_take_found env fd a r d).1)
  duo_take_found-Exclusive fd a (index i) d v n = duo_take-Exclusive fd a i d v n
  duo_take_found-Exclusive fd a not_found d v n = v
  duo_take_found-Exclusive fd a ambiguous d v n = v

  pub serve_duo_acquire-Exclusive :
      (fd : ℤ) (a : DuoAcquireRequest) (d : Daemon)
      → Exclusive (core d)
      → Exclusive (core (serve_duo_acquire env fd a d).1)
  unfolding serve_duo_acquire
  serve_duo_acquire-Exclusive fd a d v =
      (let found = duo_identity env a d in
        let same = core-duo_identity a d in
        ground (
          arith,
          same,
          duo_take_found-Exclusive fd a found.0 found.1 (carry (core found.1) (core d) same v),
        ))

  pub rated :
      (d : Daemon) (rate : ℕ) (c : DualConfig)
      → Exclusive (core d)
      → valid_rate rate ≡ true
      → d.duo.master_selected ≡ true
      → Exclusive
          (core (record d { duo = record (d.duo) { sample_rate_hz = rate }; duo_config = c }))
  rated d rate c v r m = ground arith

  core-when_configured :
      (b : Bool) (c : DualConfig) (d : Daemon)
      → core (when b (discard (configure_dual_radio env c)) d).1 ≡ core d
  core-when_configured true c d = core-configure_dual_radio env c d
  core-when_configured false c d = refl

  core-if_reset :
      (s : Status) (c : DualConfig) (d : Daemon)
      → core ((if is_ok s then configure_dual_radio env c else return s) d).1 ≡ core d
  core-if_reset s c d = ground (arith, core-configure_dual_radio env c d)

  pub rebuild-Exclusive :
      (rate : ℕ) (saved : DualConfig) (w : Bool) (d : Daemon)
      → Exclusive (core d)
      → valid_rate rate ≡ true
      → d.duo.master_selected ≡ true
      → Exclusive (core (rebuild env rate saved w d).1)
  unfolding rebuild
  rebuild-Exclusive rate saved w d v r m =
      (let reset = duo_reset_hardware env d in
        let set =
          (if is_ok reset.0 then configure_dual_radio env reset.1.duo_config else return reset.0)
            reset.1 in
        let same =
          core-if_reset reset.0 reset.1.duo_config reset.1 ∙ core-duo_reset_hardware env d in
        let held = carry (core set.1) (core d) same v in
        let back = restore_rate env rate saved set.1 in
        ground (
          arith,
          same,
          held,
          rated set.1 rate saved held r,
          core-when_configured (is_ok reset.0) saved back.1,
        ))
