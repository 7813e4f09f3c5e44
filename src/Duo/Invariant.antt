-- ===== src/Duo/Invariant.antt =====
-- The states that a session of daemon/duo_session.c can be in.
use openrsp.Base.{ℕ, ◌≡◌, ◌≢◌, true, false, ℤ, eq_ℤ, is_nonneg, List, [], ◌∷◌, arith}
use openrsp.Duo.{
  Role, role_master, role_slave, role_none, DuoSession, invalid_client, valid_tuner, valid_rate,
  session_init, acquire, initialise, uninitialise, release, disconnect, Call, acquires, initialises,
  uninitialises, releases, disconnects, step, run,
}

pub record IsValid (s : DuoSession) : Type 0 where
  pub unowned : s.master_selected ≡ false → s ≡ session_init
  pub owned :
      s.master_selected ≡ true
      → (is_nonneg s.master_fd ≡ true)
        × (valid_tuner s.master_tuner ≡ true)
        × (valid_rate s.sample_rate_hz ≡ true)
  pub unpaired :
      s.slave_selected ≡ false
      → (s.slave_fd ≡ invalid_client) × (s.slave_tuner ≡ 0) × (s.slave_initialised ≡ false)
  pub paired :
      s.slave_selected ≡ true
      → (s.master_selected ≡ true)
        × (is_nonneg s.slave_fd ≡ true)
        × (valid_tuner s.slave_tuner ≡ true)
        × (s.slave_tuner ≢ s.master_tuner)
        × (eq_ℤ s.master_fd s.slave_fd ≡ false)
  pub ordered : s.slave_initialised ≡ true → s.master_initialised ≡ true

pub session_init-IsValid : IsValid session_init
session_init-IsValid = ground arith

acquire-IsValid :
    (s : DuoSession) (d : ℤ) (r : Role) (t rate : ℕ)
    → IsValid s
    → IsValid (acquire s d r t rate).session
unfolding acquire
acquire-IsValid s d role_none t rate v = ground arith
acquire-IsValid s d role_master t rate v = ground arith
acquire-IsValid s d role_slave t rate v = ground arith

initialise-IsValid : (s : DuoSession) (d : ℤ) → IsValid s → IsValid (initialise s d).session
unfolding initialise
initialise-IsValid s d v = ground arith

uninitialise-IsValid : (s : DuoSession) (d : ℤ) → IsValid s → IsValid (uninitialise s d).session
unfolding uninitialise
uninitialise-IsValid s d v = ground arith

release-IsValid : (s : DuoSession) (d : ℤ) → IsValid s → IsValid (release s d).session
unfolding release
release-IsValid s d v = ground arith

disconnect-IsValid : (s : DuoSession) (d : ℤ) → IsValid s → IsValid (disconnect s d).session
unfolding disconnect
disconnect-IsValid s d v = ground arith

pub step-IsValid : (s : DuoSession) (d : ℤ) (c : Call) → IsValid s → IsValid (step s (d, c)).session
unfolding step
step-IsValid s d (acquires r t rate) v = acquire-IsValid s d r t rate v
step-IsValid s d initialises v = initialise-IsValid s d v
step-IsValid s d uninitialises v = uninitialise-IsValid s d v
step-IsValid s d releases v = release-IsValid s d v
step-IsValid s d disconnects v = disconnect-IsValid s d v

pub run-IsValid : (s : DuoSession) (cs : List (ℤ × Call)) → IsValid s → IsValid (run s cs)
unfolding run
run-IsValid s [] v = v
run-IsValid s ((d, c) ∷ cs) v = run-IsValid (step s (d, c)).session cs (step-IsValid s d c v)

-- After any sequence of calls by any clients, in any order, the session is consistent: one with no
-- master is the initial one; a master has a client, a tuner and a 6 or 8 MHz rate; there is a slave
-- only beside a master, on the other tuner and from another client; and the slave streams only
-- while the master does.
pub run-session_init-IsValid : (cs : List (ℤ × Call)) → IsValid (run session_init cs)
run-session_init-IsValid cs = run-IsValid session_init cs session_init-IsValid
