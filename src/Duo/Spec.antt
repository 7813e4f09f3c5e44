-- ===== src/Duo/Spec.antt =====
-- What daemon/duo_session.h promises, as a state machine in which no inconsistent state can be
-- written: nobody, a master alone, or a master and a slave.
use openrsp.Base.{
  ℕ, Bool, true, false, not, ◌&&◌, ◌||◌, ◌==◌, if◌then◌else◌, ℤ, eq_ℤ, List, [], ◌∷◌,
}
use openrsp.Duo.{
  Role, role_none, role_master, role_slave, DuoResult, duo_ok, start_pending, stop_pending,
  duo_busy, duo_invalid, master_initialised_event, slave_attached, slave_detached,
  slave_initialised_event, slave_uninitialised, master_dll_disappeared, slave_dll_disappeared,
  DuoEvent, valid_descriptor, valid_tuner, valid_rate, rate_unspecified, cleared_event, emit_event,
  Call, acquires, initialises, uninitialises, releases, disconnects,
}

-- A client with the tuner that it holds.
pub record Lane : Type 0 where
  pub fd : ℤ
  pub tuner : ℕ

-- Who streams: nobody, the master, or both.
pub data Progress : Type 0 where
  ready master_runs both_run : Progress

pub data Phase : Type 0 where
  free : Phase
  solo : Lane → ℕ → Bool → Phase
  duet : Lane → ℕ → Lane → Progress → Phase

pub record Answer : Type 0 where
  pub result : DuoResult
  pub event : DuoEvent
  pub phase : Phase

abbrev pub say : DuoResult → Phase → Answer
say r p = record { result = r; event = cleared_event; phase = p }

abbrev pub tell : DuoEvent → Phase → Answer
tell e p = record { result = duo_ok; event = e; phase = p }

unfoldable pub take_master : Phase → ℤ → ℕ → ℕ → Answer
take_master free d t rate = say duo_ok (solo (record { fd = d; tuner = t }) rate false)
take_master (solo m r b) d t rate =
    say (if eq_ℤ m.fd d && m.tuner == t && r == rate then duo_ok else duo_busy) (solo m r b)
take_master (duet m r s p) d t rate =
    say (if eq_ℤ m.fd d && m.tuner == t && r == rate then duo_ok else duo_busy) (duet m r s p)

-- A slave comes from another client, for the other tuner, at the master's rate or at any.
abbrev fits : Lane → ℕ → ℤ → ℕ → ℕ → Bool
fits m r d t rate =
    not (eq_ℤ m.fd d) && not (t == m.tuner) && (rate == rate_unspecified || rate == r)

unfoldable pub take_slave : Phase → ℤ → ℕ → ℕ → Answer
take_slave free d t rate = say duo_busy free
take_slave (solo m r b) d t rate =
    if fits m r d t rate
    then tell (emit_event slave_attached m.fd d t)
        (duet m r (record { fd = d; tuner = t }) (if b then master_runs else ready))
    else say duo_busy (solo m r b)
take_slave (duet m r s p) d t rate =
    say (if fits m r d t rate && eq_ℤ s.fd d && s.tuner == t then duo_ok else duo_busy)
      (duet m r s p)

abbrev pub start_master : Lane → ℕ → Lane → Progress → Answer
start_master m r s ready =
    tell (emit_event master_initialised_event s.fd m.fd s.tuner) (duet m r s master_runs)
start_master m r s master_runs = say duo_busy (duet m r s master_runs)
start_master m r s both_run = say duo_busy (duet m r s both_run)

abbrev pub start_slave : Lane → ℕ → Lane → Progress → Answer
start_slave m r s ready = say start_pending (duet m r s ready)
start_slave m r s master_runs =
    tell (emit_event slave_initialised_event m.fd s.fd s.tuner) (duet m r s both_run)
start_slave m r s both_run = say duo_busy (duet m r s both_run)

abbrev pub stop_master : Lane → ℕ → Lane → Progress → Answer
stop_master m r s ready = say duo_invalid (duet m r s ready)
stop_master m r s master_runs = say duo_ok (duet m r s ready)
stop_master m r s both_run = say stop_pending (duet m r s both_run)

abbrev pub stop_slave : Lane → ℕ → Lane → Progress → Answer
stop_slave m r s ready = say duo_invalid (duet m r s ready)
stop_slave m r s master_runs = say duo_invalid (duet m r s master_runs)
stop_slave m r s both_run =
    tell (emit_event slave_uninitialised m.fd s.fd s.tuner) (duet m r s master_runs)

abbrev pub leave_master : Lane → ℕ → Lane → Progress → Answer
leave_master m r s ready = say stop_pending (duet m r s ready)
leave_master m r s master_runs = say duo_busy (duet m r s master_runs)
leave_master m r s both_run = say duo_busy (duet m r s both_run)

abbrev pub leave_slave : Lane → ℕ → Lane → Progress → Answer
leave_slave m r s ready = tell (emit_event slave_detached m.fd s.fd s.tuner) (solo m r false)
leave_slave m r s master_runs = tell (emit_event slave_detached m.fd s.fd s.tuner) (solo m r true)
leave_slave m r s both_run = say duo_busy (duet m r s both_run)

abbrev pub lose_slave : Lane → ℕ → Lane → Progress → Answer
lose_slave m r s ready = tell (emit_event slave_dll_disappeared m.fd s.fd s.tuner) (solo m r false)
lose_slave m r s master_runs =
    tell (emit_event slave_dll_disappeared m.fd s.fd s.tuner) (solo m r true)
lose_slave m r s both_run =
    tell (emit_event slave_dll_disappeared m.fd s.fd s.tuner) (solo m r true)

abbrev pub solo_call : Lane → ℕ → Bool → Call → Answer
solo_call m r b (acquires _ _ _) = say duo_invalid (solo m r b)
solo_call m r true initialises = say duo_busy (solo m r true)
solo_call m r false initialises = say duo_ok (solo m r true)
solo_call m r true uninitialises = say duo_ok (solo m r false)
solo_call m r false uninitialises = say duo_invalid (solo m r false)
solo_call m r true releases = say duo_busy (solo m r true)
solo_call m r false releases = say duo_ok free
solo_call m r b disconnects = say duo_ok free

abbrev pub master_call : Lane → ℕ → Lane → Progress → Call → Answer
master_call m r s p (acquires _ _ _) = say duo_invalid (duet m r s p)
master_call m r s p initialises = start_master m r s p
master_call m r s p uninitialises = stop_master m r s p
master_call m r s p releases = leave_master m r s p
master_call m r s p disconnects = tell (emit_event master_dll_disappeared s.fd m.fd s.tuner) free

abbrev pub slave_call : Lane → ℕ → Lane → Progress → Call → Answer
slave_call m r s p (acquires _ _ _) = say duo_invalid (duet m r s p)
slave_call m r s p initialises = start_slave m r s p
slave_call m r s p uninitialises = stop_slave m r s p
slave_call m r s p releases = leave_slave m r s p
slave_call m r s p disconnects = lose_slave m r s p

-- A client without a role may only go away.
abbrev pub stranger_call : Phase → Call → Answer
stranger_call p disconnects = say duo_ok p
stranger_call p initialises = say duo_invalid p
stranger_call p uninitialises = say duo_invalid p
stranger_call p releases = say duo_invalid p
stranger_call p (acquires _ _ _) = say duo_invalid p

-- The owners' calls, by who the caller is.
abbrev pub owner_call : Phase → ℤ → Call → Answer
owner_call free d c = stranger_call free c
owner_call (solo m r b) d c =
    if eq_ℤ m.fd d then solo_call m r b c else stranger_call (solo m r b) c
owner_call (duet m r s p) d c =
    if eq_ℤ m.fd d
    then master_call m r s p c
    else if eq_ℤ s.fd d
    then slave_call m r s p c
    else stranger_call (duet m r s p) c

abbrev pub acquire_call : Phase → ℤ → Role → ℕ → ℕ → Answer
acquire_call p d role_none t rate = say duo_invalid p
acquire_call p d role_master t rate =
    if valid_rate rate then take_master p d t rate else say duo_invalid p
acquire_call p d role_slave t rate = take_slave p d t rate

unfoldable pub answer : Phase → ℤ × Call → Answer
unfolding take_master take_slave
answer p (d, acquires r t rate) =
    if valid_descriptor d && valid_tuner t then acquire_call p d r t rate else say duo_invalid p
answer p (d, initialises) =
    if valid_descriptor d then owner_call p d initialises else say duo_invalid p
answer p (d, uninitialises) =
    if valid_descriptor d then owner_call p d uninitialises else say duo_invalid p
answer p (d, releases) = if valid_descriptor d then owner_call p d releases else say duo_invalid p
answer p (d, disconnects) =
    if valid_descriptor d then owner_call p d disconnects else say duo_invalid p

unfoldable pub answers : Phase → List (ℤ × Call) → List (DuoResult × DuoEvent)
answers p [] = []
answers p (c ∷ cs) = ((answer p c).result, (answer p c).event) ∷ answers (answer p c).phase cs
