-- ===== src/Duo/Lifecycle.antt =====
-- The order in which the two clients start and stop.
use openrsp.Base.{
  ℕ, ◌≡◌, ◌≢◌, true, false, ℤ, eq_ℤ, is_nonneg, List, [], ◌∷◌, map, arith, eq_ℤ_refl,
}
use openrsp.Duo.{
  Role, role_none, role_master, role_slave, DuoSession, duo_ok, start_pending, cleared_event,
  valid_tuner, valid_rate, rate_unspecified, session_init, acquire, initialise, uninitialise,
  release, disconnect, Call, acquires, initialises, uninitialises, releases, disconnects, step, run,
  replies,
}
use openrsp.Duo.Invariant.{IsValid}

module _ (s : DuoSession) (d : ℤ) where
  abbrev Atomic : Call → Type 0
  Atomic c =
      (step s (d, c)).result ≢ duo_ok
      → ((step s (d, c)).session ≡ s) × ((step s (d, c)).event ≡ cleared_event)

  acquire-Atomic : (r : Role) (t rate : ℕ) → Atomic (acquires r t rate)
  unfolding step acquire
  acquire-Atomic role_none t rate h = ground arith
  acquire-Atomic role_master t rate h = ground arith
  acquire-Atomic role_slave t rate h = ground arith

  -- A call that does not succeed changes nothing and tells nobody, in any session.
  pub step_atomic :
      (c : Call)
      → (step s (d, c)).result ≢ duo_ok
      → ((step s (d, c)).session ≡ s) × ((step s (d, c)).event ≡ cleared_event)
  unfolding step initialise uninitialise release disconnect
  step_atomic (acquires r t rate) h = acquire-Atomic r t rate h
  step_atomic initialises h = ground arith
  step_atomic uninitialises h = ground arith
  step_atomic releases h = ground arith
  step_atomic disconnects h = ground arith

-- Each client stops and lets go, the slave first.
abbrev pub shutdown : DuoSession → List (ℤ × Call)
shutdown s =
    (s.slave_fd, uninitialises)
    ∷ (s.slave_fd, releases)
    ∷ (s.master_fd, uninitialises)
    ∷ (s.master_fd, releases)
    ∷ []

-- From every consistent session, the slave's stop and release and then the master's bring the
-- session back to the initial one: no state is stuck.
pub run-shutdown : (s : DuoSession) → IsValid s → run s (shutdown s) ≡ session_init
unfolding run step uninitialise release
run-shutdown s v = ground (arith, eq_ℤ_refl s.master_fd, eq_ℤ_refl s.slave_fd)

-- A slave that starts before its master is told to wait, and gets its start once the master runs.
pub slave_waits :
    (m k : ℤ) (t u rate : ℕ)
    → is_nonneg m ≡ true
    → is_nonneg k ≡ true
    → eq_ℤ m k ≡ false
    → valid_tuner t ≡ true
    → valid_tuner u ≡ true
    → t ≢ u
    → valid_rate rate ≡ true
    → map
        (λ r. r.0)
        (replies session_init (
          (m, acquires role_master t rate)
          ∷ (k, acquires role_slave u rate_unspecified)
          ∷ (k, initialises)
          ∷ (m, initialises)
          ∷ (k, initialises)
          ∷ []))
      ≡ duo_ok ∷ duo_ok ∷ start_pending ∷ duo_ok ∷ duo_ok ∷ []
unfolding replies step acquire initialise
slave_waits m k t u rate hm hk ne ht hu tu hr = ground (arith, eq_ℤ_refl m, eq_ℤ_refl k)
