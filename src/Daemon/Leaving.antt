-- ===== src/Daemon/Leaving.antt =====
-- What a client leaves behind in daemon/openrspd.c when its connection ends.
use openrsp.Base.{true, false, ◌≡◌, refl, ◌∙◌, ap, arith, ℤ, eq_ℤ, is_nonneg, sym, eq_ℤ→eq}
use openrsp.Duo.{
  role_for_descriptor, Role, role_none, role_master, role_slave, disconnect, session_init,
}
use openrsp.Daemon.State.{Env, Daemon}
use openrsp.Daemon.Stream.{send_duo_event}
use openrsp.Daemon.Release.{
  has_role, release_client, release_duo, release_api_lock, remove_client, stop_if_open,
}
use openrsp.Daemon.Core.{core, core-close_radio, core-send_duo_event}
use openrsp.Duo.Routing.{disconnect_forgets}
use openrsp.Daemon.Ownership.{Exclusive}
use openrsp.Daemon.Turns.{core-stop_if_open, core-release_owner}

no_role : (fd : ℤ) → is_nonneg fd ≡ true → role_for_descriptor session_init fd ≡ role_none
unfolding role_for_descriptor
no_role fd n = ground arith

has_role-none : (r : Role) → has_role r ≡ false → r ≡ role_none
has_role-none role_none e = refl
has_role-none role_master e = ground arith
has_role-none role_slave e = ground arith

role_of_idle :
    (d : Daemon) (fd : ℤ)
    → Exclusive (core d)
    → is_nonneg fd ≡ true
    → d.duo_active ≡ false
    → role_for_descriptor d.duo fd ≡ role_none
role_of_idle d fd v n a =
    ap (λ s. role_for_descriptor s fd) (v.valid.unowned (sym v.active ∙ a)) ∙ no_role fd n

module _ (env : Env) where
  core-release_duo :
      (fd : ℤ) (d : Daemon)
      → ((release_duo env fd d).1.owner ≡ d.owner)
        × ((release_duo env fd d).1.api_lock_owner ≡ d.api_lock_owner)
        × ((release_duo env fd d).1.duo ≡ (disconnect d.duo fd).session)
  unfolding release_duo
  core-release_duo fd d =
      (let o = disconnect d.duo fd in
        let sent = (send_duo_event env o.event (record d { duo = o.session })).1 in
        let stopped = (stop_if_open env sent).1 in
        ground (
          arith,
          core-send_duo_event env o.event (record d { duo = o.session }),
          core-stop_if_open env sent,
          core-close_radio env stopped,
        ))

  role_after :
      (fd : ℤ) (d : Daemon)
      → Exclusive (core d)
      → is_nonneg fd ≡ true
      → (eq_ℤ (release_client env fd d).1.owner fd ≡ false)
        × (role_for_descriptor (release_client env fd d).1.duo fd ≡ role_none)
  unfolding release_client
  role_after fd d v n = ground (
    arith,
    no_role fd n,
    eq_ℤ→eq d.owner fd,
    has_role-none (role_for_descriptor d.duo fd),
    ap (λ s. role_for_descriptor s fd) (core-release_duo fd d).2,
    (disconnect_forgets d.duo v.valid fd n).0,
    core-release_duo fd d,
    core-release_owner env d,
    role_of_idle d fd v n,
    ap (λ k. role_for_descriptor k.duo fd) (core-release_owner env d),
  )

  -- Once a connected client is removed from a daemon whose owners exclude each other, it neither
  -- owns the receiver nor holds the API lock nor has a role in the master/slave session.
  pub remove_client_lem :
      (fd : ℤ) (d : Daemon)
      → Exclusive (core d)
      → is_nonneg fd ≡ true
      → (eq_ℤ (remove_client env fd d).1.owner fd ≡ false)
        × (eq_ℤ (remove_client env fd d).1.api_lock_owner fd ≡ false)
        × (role_for_descriptor (remove_client env fd d).1.duo fd ≡ role_none)
  unfolding remove_client release_api_lock
  remove_client_lem fd d v n = ground (arith, role_after fd d v n)
