-- ===== src/Duo/Routing.antt =====
-- Which client gets the IQ of a tuner, and which client an event is for.
use openrsp.Base.{
  ℕ, ◌≡◌, ◌≢◌, ◌↔◌, ◌⊎◌, inl, inr, true, false, ℤ, pos, eq_ℤ, is_nonneg, arith, eq_ℤ→eq, eq_ℤ_refl,
}
use openrsp.Duo.{
  Role, role_none, role_master, role_slave, DuoSession, DuoEvent, event_none, acquire, initialise,
  uninitialise, release, disconnect, route, role_for_descriptor, Call, acquires, initialises,
  uninitialises, releases, disconnects, step,
}
use openrsp.Duo.Invariant.{IsValid}

module _ (s : DuoSession) where
  -- The client `d` streams tuner `t`.
  abbrev pub Streams : ℤ → ℕ → Type 0
  Streams d t =
      ((role_for_descriptor s d ≡ role_master)
        × (s.master_initialised ≡ true)
        × (s.master_tuner ≡ t))
      ⊎ ((role_for_descriptor s d ≡ role_slave)
          × (s.slave_initialised ≡ true)
          × (s.slave_tuner ≡ t))

  -- An event goes to a client that has a role and is not the caller.
  abbrev pub ForPeer : ℤ → DuoEvent → Type 0
  ForPeer d e =
      e.kind ≢ event_none
      → (e.source_fd ≡ d)
        × (is_nonneg e.target_fd ≡ true)
        × (eq_ℤ e.target_fd d ≡ false)
        × (role_for_descriptor s e.target_fd ≢ role_none)

module _ (s : DuoSession) (v : IsValid s) where
  route→Streams : (t : ℕ) (d : ℤ) → route s t ≡ (pos 1, d) → Streams s d t
  unfolding route role_for_descriptor
  route→Streams t d h = ground (arith, eq_ℤ_refl s.master_fd, eq_ℤ_refl s.slave_fd)

  Streams→route : (t : ℕ) (d : ℤ) → Streams s d t → route s t ≡ (pos 1, d)
  unfolding route role_for_descriptor
  Streams→route t d (inl h) = ground (arith, eq_ℤ→eq s.master_fd d, eq_ℤ→eq s.slave_fd d)
  Streams→route t d (inr h) = ground (arith, eq_ℤ→eq s.master_fd d, eq_ℤ→eq s.slave_fd d)

  -- In a consistent session the IQ of tuner `t` is routed to client `d` exactly when `d` is the
  -- master or the slave, has been initialised in that role, and holds `t`.
  pub route_iff : (t : ℕ) (d : ℤ) → (route s t ≡ (pos 1, d)) ↔ Streams s d t
  route_iff t d = (route→Streams t d, Streams→route t d)

  -- In a consistent session one client never receives the IQ of two tuners.
  pub route_exclusive : (t u : ℕ) (d : ℤ) → route s t ≡ (pos 1, d) → route s u ≡ (pos 1, d) → t ≡ u
  unfolding route
  route_exclusive t u d h k = ground (arith, eq_ℤ_refl d)

  acquire-ForPeer : (d : ℤ) (r : Role) (t rate : ℕ) → ForPeer s d (acquire s d r t rate).event
  unfolding acquire role_for_descriptor
  acquire-ForPeer d role_none t rate h = ground arith
  acquire-ForPeer d role_master t rate h = ground arith
  acquire-ForPeer d role_slave t rate h = ground (arith, eq_ℤ_refl s.master_fd)

  -- In a consistent session an event that a call of `d` causes names `d` as its source, and is for
  -- another client, one that had a role when the call was made.
  pub event_for_peer :
      (d : ℤ) (c : Call)
      → (step s (d, c)).event.kind ≢ event_none
      → ((step s (d, c)).event.source_fd ≡ d)
        × (is_nonneg (step s (d, c)).event.target_fd ≡ true)
        × (eq_ℤ (step s (d, c)).event.target_fd d ≡ false)
        × (role_for_descriptor s (step s (d, c)).event.target_fd ≢ role_none)
  unfolding step initialise uninitialise release disconnect role_for_descriptor
  event_for_peer d (acquires r t rate) h = acquire-ForPeer d r t rate h
  event_for_peer d initialises h = ground (
    arith,
    eq_ℤ_refl s.master_fd,
    eq_ℤ_refl s.slave_fd,
    eq_ℤ→eq s.master_fd d,
    eq_ℤ→eq s.slave_fd d,
  )
  event_for_peer d uninitialises h =
      ground (arith, eq_ℤ_refl s.master_fd, eq_ℤ→eq s.master_fd d, eq_ℤ→eq s.slave_fd d)
  event_for_peer d releases h =
      ground (arith, eq_ℤ_refl s.master_fd, eq_ℤ→eq s.master_fd d, eq_ℤ→eq s.slave_fd d)
  event_for_peer d disconnects h = ground (
    arith,
    eq_ℤ_refl s.master_fd,
    eq_ℤ_refl s.slave_fd,
    eq_ℤ→eq s.master_fd d,
    eq_ℤ→eq s.slave_fd d,
  )

  -- After a disconnect of `d` in a consistent session `d` has no role and no IQ, whatever it was;
  -- and if it was not the master, all other clients keep their roles.
  pub disconnect_forgets :
      (d : ℤ)
      → is_nonneg d ≡ true
      → let s' = (disconnect s d).session in
        (role_for_descriptor s' d ≡ role_none)
        × ((t : ℕ) → route s' t ≢ (pos 1, d))
        × (role_for_descriptor s d ≢ role_master
            → (e : ℤ) → d ≢ e
            → role_for_descriptor s' e ≡ role_for_descriptor s e)
  unfolding disconnect role_for_descriptor route
  disconnect_forgets d h = (
    ground arith,
    λ t. ground (arith, eq_ℤ_refl d),
    λ n e ne. ground (arith, eq_ℤ→eq s.slave_fd d, eq_ℤ→eq s.slave_fd e),
  )
