-- ===== src/Duo/Refine.antt =====
-- daemon/duo_session.c does what the state machine of `Spec` says.
use openrsp.Base.{ℕ, ◌≡◌, refl, Bool, true, false, if◌then◌else◌, ℤ, List, [], ◌∷◌, arith, eq_ℤ→eq}
use openrsp.Duo.{
  Role, role_none, role_master, role_slave, DuoSession, session_init, acquire, initialise,
  uninitialise, release, disconnect, Call, acquires, initialises, uninitialises, releases,
  disconnects, step, replies,
}
use openrsp.Duo.Invariant.{IsValid, step-IsValid, session_init-IsValid}
use openrsp.Duo.Spec.{
  Lane, Progress, ready, master_runs, both_run, Phase, free, solo, duet, answer, answers,
}

abbrev master_lane : DuoSession → Lane
master_lane s = record { fd = s.master_fd; tuner = s.master_tuner }

abbrev slave_lane : DuoSession → Lane
slave_lane s = record { fd = s.slave_fd; tuner = s.slave_tuner }

abbrev pub phase : DuoSession → Phase
phase s =
    if s.master_selected
    then (if s.slave_selected
        then duet (master_lane s) s.sample_rate_hz (slave_lane s) (
            if s.slave_initialised
            then both_run
            else if s.master_initialised
            then master_runs
            else ready)
        else solo (master_lane s) s.sample_rate_hz s.master_initialised)
    else free

abbrev pub progress_started : Progress → Bool
progress_started ready = false
progress_started master_runs = true
progress_started both_run = true

abbrev pub slave_started : Progress → Bool
slave_started ready = false
slave_started master_runs = false
slave_started both_run = true

module _ (s : DuoSession) (d : ℤ) (v : IsValid s) where
  abbrev Agrees : Call → Type 0
  Agrees c =
      let o = step s (d, c) in
      answer (phase s) (d, c)
      ≡ record { result = o.result; event = o.event; phase = phase o.session }

  acquire-Agrees : (r : Role) (t rate : ℕ) → Agrees (acquires r t rate)
  unfolding step answer acquire
  acquire-Agrees role_none t rate = ground arith
  acquire-Agrees role_master t rate = ground arith
  acquire-Agrees role_slave t rate = ground arith

  initialise-Agrees : Agrees initialises
  unfolding step answer initialise
  initialise-Agrees = ground (arith, eq_ℤ→eq s.master_fd d, eq_ℤ→eq s.slave_fd d)

  uninitialise-Agrees : Agrees uninitialises
  unfolding step answer uninitialise
  uninitialise-Agrees = ground (arith, eq_ℤ→eq s.master_fd d, eq_ℤ→eq s.slave_fd d)

  release-Agrees : Agrees releases
  unfolding step answer release
  release-Agrees = ground (arith, eq_ℤ→eq s.master_fd d, eq_ℤ→eq s.slave_fd d)

  disconnect-Agrees : Agrees disconnects
  unfolding step answer disconnect
  disconnect-Agrees = ground (arith, eq_ℤ→eq s.master_fd d, eq_ℤ→eq s.slave_fd d)

  -- In a consistent session each call answers as the state machine does: the same result, the same
  -- event, and a session in the machine's next phase.
  pub step_refines : (c : Call) → Agrees c
  step_refines (acquires r t rate) = acquire-Agrees r t rate
  step_refines initialises = initialise-Agrees
  step_refines uninitialises = uninitialise-Agrees
  step_refines releases = release-Agrees
  step_refines disconnects = disconnect-Agrees

replies_refine :
    (s : DuoSession) (cs : List (ℤ × Call)) → IsValid s → replies s cs ≡ answers (phase s) cs
unfolding replies answers
replies_refine s [] v = refl
replies_refine s ((d, c) ∷ cs) v =
    rw (step_refines s d v c, replies_refine (step s (d, c)).session cs (step-IsValid s d c v))

-- From the initial session no sequence of calls by any clients tells the code from the state
-- machine: all results and events are the same.
pub replies-session_init : (cs : List (ℤ × Call)) → replies session_init cs ≡ answers free cs
replies-session_init cs = replies_refine session_init cs session_init-IsValid
