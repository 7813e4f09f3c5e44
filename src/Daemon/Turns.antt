-- ===== src/Daemon/Turns.antt =====
-- Whatever daemon/openrspd.c is asked and whatever the driver answers, a receiver has one owner or
-- one master/slave session.
use openrsp.Base.{
  ℕ, Bool, true, false, not, ◌≡◌, refl, ◌∙◌, ap, ◌&&◌, if◌then◌else◌, ℤ, pos, arith, List,
}
use openrsp.Protocol.{AcquireRequest, DeviceRecord}
use openrsp.Identity.{Resolved, index, not_found, ambiguous, resolve}
use openrsp.Duo.{
  DuoSession, Role, role_none, role_master, role_slave, valid_rate, role_for_descriptor,
  disconnects, step, invalid_client,
}
use openrsp.Duo
use openrsp.Duo.Invariant.{step-IsValid}
use openrsp.Daemon.State.{Env, Daemon, M, when}
use openrsp.Daemon.Stream.{stop_stream, send_duo_event}
use openrsp.Daemon.Snapshot.{snapshot_sdrplay_devices}
use openrsp.Daemon.Release.{
  release_client, release_duo, release_owner, close_and_forget, stop_if_open,
}
use openrsp.Daemon.Serve.Duo.{
  is_master, duo_role, duo_prepare_config, change_rate, prepare_and_change_rate,
  serve_duo_swap_rate,
}
use openrsp.Daemon.Serve.Owner.{
  serve_acquire, take_receiver, take_found, drop_other, is_selected, at_index,
}
use openrsp.Daemon.Core.{
  Core, core, core-stop_stream, core-close_radio, core-send_duo_event,
  core-snapshot_sdrplay_devices,
}
use openrsp.Daemon.Ownership.{Exclusive, carry, core-duo_prepare_config, rebuild-Exclusive, rated}

disconnect-selected :
    (s : DuoSession) (fd : ℤ)
    → (Duo.disconnect s fd).session.master_selected ≡ true
    → s.master_selected ≡ true
unfolding Duo.disconnect
disconnect-selected s fd = ground arith

is_master-selected :
    (d : Daemon) (fd : ℤ)
    → Exclusive (core d)
    → is_master (duo_role d fd) ≡ true
    → d.duo.master_selected ≡ true
unfolding duo_role
is_master-selected d fd v = ground arith

abbrev pub disowned : Core → Core
disowned k = record k { owner = invalid_client }

module _ (env : Env) where
  abbrev stop_if : Bool → M ℤ
  stop_if wanted s = if wanted then stop_stream env s else (pos 0, s)

  core-stop_if : (wanted : Bool) (d : Daemon) → core (stop_if wanted d).1 ≡ core d
  core-stop_if true d = core-stop_stream env d
  core-stop_if false d = refl

  change_rate-Exclusive :
      (rate : ℕ) (d : Daemon)
      → Exclusive (core d)
      → valid_rate rate ≡ true
      → d.duo.master_selected ≡ true
      → Exclusive (core (change_rate env rate d).1)
  unfolding change_rate
  change_rate-Exclusive rate d v r m =
      (let stopped = (stop_if d.stream_thread_started d).1 in
        let same = core-stop_if d.stream_thread_started d in
        let kept = carry (core stopped) (core d) same v in
        let at_rate = record stopped { duo = record (stopped.duo) { sample_rate_hz = rate } } in
        let moved = rated env stopped rate stopped.duo_config kept r in
        let fits = duo_prepare_config at_rate in
        let prepared = core-duo_prepare_config at_rate in
        ground (
          arith,
          same,
          kept,
          moved,
          prepared,
          carry (core fits.1) (core at_rate) prepared,
          rated env fits.1 d.duo.sample_rate_hz d.duo_config,
          rebuild-Exclusive env d.duo.sample_rate_hz d.duo_config d.stream_thread_started fits.1,
          v.valid.owned,
        ))

  pub serve_duo_swap_rate-Exclusive :
      (fd : ℤ) (rate : ℕ) (d : Daemon)
      → Exclusive (core d)
      → Exclusive (core (serve_duo_swap_rate env fd rate d).1)
  unfolding serve_duo_swap_rate prepare_and_change_rate
  serve_duo_swap_rate-Exclusive fd rate d v =
      (let fits = duo_prepare_config d in
        let prepared = core-duo_prepare_config d in
        ground (
          arith,
          prepared,
          carry (core fits.1) (core d) prepared v,
          change_rate-Exclusive rate fits.1,
          is_master-selected d fd v,
        ))

  pub core-stop_if_open : (d : Daemon) → core (stop_if_open env d).1 ≡ core d
  core-stop_if_open d = ground (arith, core-stop_stream env d)

  release_duo-Exclusive :
      (fd : ℤ) (d : Daemon) → Exclusive (core d) → Exclusive (core (release_duo env fd d).1)
  unfolding release_duo step
  release_duo-Exclusive fd d v =
      (let o = Duo.disconnect d.duo fd in
        let sent = (send_duo_event env o.event (record d { duo = o.session })).1 in
        let stopped = (stop_if_open env sent).1 in
        ground (
          arith,
          step-IsValid d.duo fd disconnects v.valid,
          disconnect-selected d.duo fd,
          core-send_duo_event env o.event (record d { duo = o.session }),
          core-stop_if_open sent,
          core-close_radio env stopped,
        ))

  core-close_and_forget : (d : Daemon) → core (close_and_forget env d).1 ≡ core d
  unfolding close_and_forget
  core-close_and_forget d = core-close_radio env d

  core-close_when : (b : Bool) (d : Daemon) → core (when b (close_and_forget env) d).1 ≡ core d
  core-close_when true d = core-close_and_forget d
  core-close_when false d = refl

  pub core-release_owner : (d : Daemon) → core (release_owner env d).1 ≡ disowned (core d)
  unfolding release_owner
  core-release_owner d =
      (let stopped = (stop_if_open env d).1 in
        let first = stopped.dual_mode && stopped.radio in
        let closed = (when first (close_and_forget env) stopped).1 in
        ap disowned (
          core-close_when (closed.stream_error && closed.radio) closed
          ∙ core-close_when first stopped
          ∙ core-stop_if_open d))

  disowned-Exclusive : (k : Core) → Exclusive k → Exclusive (disowned k)
  disowned-Exclusive k v = ground arith

  pub release_client-Exclusive :
      (fd : ℤ) (d : Daemon) → Exclusive (core d) → Exclusive (core (release_client env fd d).1)
  unfolding release_client
  release_client-Exclusive fd d v =
      (let gone = core-release_owner d in
        ground (
          arith,
          release_duo-Exclusive fd d v,
          gone,
          carry (core (release_owner env d).1) (disowned (core d)) gone
              (disowned-Exclusive (core d) v),
        ))

  drop_other-core : (b : Bool) (d : Daemon) → core (drop_other env b d).1 ≡ core d
  unfolding drop_other
  drop_other-core b d = ground (arith, core-close_radio env d)

  take_found-Exclusive :
      (fd : ℤ) (a : AcquireRequest) (ds : List DeviceRecord) (r : Resolved) (d : Daemon)
      → Exclusive (core d)
      → d.duo_active ≡ false
      → Exclusive (core (take_found env fd a ds r d).1)
  unfolding take_receiver
  take_found-Exclusive fd a ds (index i) d v n =
      ground (arith, drop_other-core (not (is_selected d.acquired_identity (at_index i ds))) d)
  take_found-Exclusive fd a ds not_found d v n = v
  take_found-Exclusive fd a ds ambiguous d v n = v

  pub serve_acquire-Exclusive :
      (fd : ℤ) (a : AcquireRequest) (d : Daemon)
      → Exclusive (core d)
      → Exclusive (core (serve_acquire env fd a d).1)
  unfolding serve_acquire
  serve_acquire-Exclusive fd a d v =
      (let found = snapshot_sdrplay_devices env d in
        let same = core-snapshot_sdrplay_devices env d in
        ground (
          arith,
          same,
          take_found-Exclusive fd a found.0 (resolve a found.0) found.1
              (carry (core found.1) (core d) same v),
        ))
