-- ===== src/Duo.antt =====
-- daemon/duo_session.h and daemon/duo_session.c: who owns the two tuners of an RSPduo in
-- master/slave mode. A pointer argument is present: the callers pass none that is NULL.
pub mod Invariant
pub mod Spec
pub mod Refine
pub mod Routing
pub mod Lifecycle
mod Tests
use openrsp.Base.{
  ℕ, Bool, true, false, not, ◌&&◌, ◌||◌, ◌==◌, if◌then◌else◌, ℤ, pos, negsuc, eq_ℤ, is_nonneg, List,
  [], ◌∷◌,
}

-- OPENRSPD_INVALID_CLIENT
abbrev pub invalid_client : ℤ
invalid_client = negsuc 0

abbrev pub tuner_a : ℕ
tuner_a = 1

abbrev pub tuner_b : ℕ
tuner_b = 2

abbrev pub rate_unspecified : ℕ
rate_unspecified = 0

pub data Role : Type 0 where
  role_none role_master role_slave : Role

pub data DuoResult : Type 0 where
  duo_ok start_pending stop_pending duo_busy duo_invalid : DuoResult

pub data EventKind : Type 0 where
  event_none master_initialised_event slave_attached slave_detached : EventKind
  slave_initialised_event slave_uninitialised : EventKind
  master_dll_disappeared slave_dll_disappeared : EventKind

pub record DuoEvent : Type 0 where
  pub kind : EventKind
  pub target_fd : ℤ
  pub source_fd : ℤ
  pub tuner : ℕ

pub record DuoSession : Type 0 where
  pub master_fd : ℤ
  pub slave_fd : ℤ
  pub master_tuner : ℕ
  pub slave_tuner : ℕ
  pub sample_rate_hz : ℕ
  pub master_selected : Bool
  pub slave_selected : Bool
  pub master_initialised : Bool
  pub slave_initialised : Bool

-- What an operation leaves behind: its result, the event for the peer, the new session.
pub record Outcome : Type 0 where
  pub result : DuoResult
  pub event : DuoEvent
  pub session : DuoSession

abbrev pub valid_descriptor : ℤ → Bool
valid_descriptor d = is_nonneg d

abbrev pub valid_tuner : ℕ → Bool
valid_tuner t = t == tuner_a || t == tuner_b

abbrev pub valid_rate : ℕ → Bool
valid_rate r = r == 6000000 || r == 8000000

abbrev pub cleared_event : DuoEvent
cleared_event = record {
  kind = event_none;
  target_fd = invalid_client;
  source_fd = invalid_client;
  tuner = 0;
}

abbrev pub emit_event : EventKind → ℤ → ℤ → ℕ → DuoEvent
emit_event k target source t = record {
  kind = k;
  target_fd = target;
  source_fd = source;
  tuner = t;
}

abbrev pub descriptor_is_master : DuoSession → ℤ → Bool
descriptor_is_master s d = s.master_selected && eq_ℤ s.master_fd d

abbrev pub descriptor_is_slave : DuoSession → ℤ → Bool
descriptor_is_slave s d = s.slave_selected && eq_ℤ s.slave_fd d

abbrev pub session_init : DuoSession
session_init = record {
  master_fd = invalid_client;
  slave_fd = invalid_client;
  master_tuner = 0;
  slave_tuner = 0;
  sample_rate_hz = rate_unspecified;
  master_selected = false;
  slave_selected = false;
  master_initialised = false;
  slave_initialised = false;
}

-- A return that emits nothing, after `clear_event`.
abbrev pub quiet : DuoResult → DuoSession → Outcome
quiet r s = record { result = r; event = cleared_event; session = s }

abbrev pub loud : DuoSession → DuoEvent → Outcome
loud s e = record { result = duo_ok; event = e; session = s }

abbrev pub clear_slave : DuoSession → DuoSession
clear_slave s = record s {
  slave_fd = invalid_client;
  slave_tuner = 0;
  slave_selected = false;
  slave_initialised = false;
}

acquire_master : DuoSession → ℤ → ℕ → ℕ → Outcome
acquire_master s d t rate =
    if not (valid_rate rate)
    then quiet duo_invalid s
    else if s.master_selected
    then (if eq_ℤ s.master_fd d && s.master_tuner == t && s.sample_rate_hz == rate
        then quiet duo_ok s
        else quiet duo_busy s)
    else if s.slave_selected || (not (s.slave_tuner == 0) && s.slave_tuner == t)
    then quiet duo_busy s
    else quiet duo_ok (record s {
      master_fd = d;
      master_tuner = t;
      sample_rate_hz = rate;
      master_selected = true;
      master_initialised = false;
    })

acquire_slave : DuoSession → ℤ → ℕ → ℕ → Outcome
acquire_slave s d t rate =
    if not s.master_selected
      || eq_ℤ s.master_fd d
      || (not (rate == rate_unspecified) && not (rate == s.sample_rate_hz))
    then quiet duo_busy s
    else if t == s.master_tuner
    then quiet duo_busy s
    else if s.slave_selected
    then (if eq_ℤ s.slave_fd d && s.slave_tuner == t then quiet duo_ok s else quiet duo_busy s)
    else loud
        (record s {
          slave_fd = d;
          slave_tuner = t;
          slave_selected = true;
          slave_initialised = false;
        })
        (emit_event slave_attached s.master_fd d t)

-- The role behind the guards that both roles share.
acquire_as : DuoSession → ℤ → Role → ℕ → ℕ → Outcome
unfolding acquire_master acquire_slave
acquire_as s d role_none t rate = quiet duo_invalid s
acquire_as s d role_master t rate = acquire_master s d t rate
acquire_as s d role_slave t rate = acquire_slave s d t rate

unfoldable pub acquire : DuoSession → ℤ → Role → ℕ → ℕ → Outcome
unfolding acquire_as
acquire s d r t rate =
    if not (valid_descriptor d) || not (valid_tuner t)
    then quiet duo_invalid s
    else acquire_as s d r t rate

unfoldable pub initialise : DuoSession → ℤ → Outcome
initialise s d =
    if not (valid_descriptor d)
    then quiet duo_invalid s
    else if descriptor_is_master s d
    then (if s.master_initialised then quiet duo_busy s else record {
      result = duo_ok;
      event =
          if s.slave_selected
          then emit_event master_initialised_event s.slave_fd d s.slave_tuner
          else cleared_event;
      session = record s { master_initialised = true };
    })
    else if not (descriptor_is_slave s d)
    then quiet duo_invalid s
    else if s.slave_initialised
    then quiet duo_busy s
    else if not s.master_initialised
    then quiet start_pending s
    else loud (record s { slave_initialised = true })
        (emit_event slave_initialised_event s.master_fd d s.slave_tuner)

unfoldable pub uninitialise : DuoSession → ℤ → Outcome
uninitialise s d =
    if not (valid_descriptor d)
    then quiet duo_invalid s
    else if descriptor_is_master s d
    then (if not s.master_initialised
        then quiet duo_invalid s
        else if s.slave_initialised
        then quiet stop_pending s
        else quiet duo_ok (record s { master_initialised = false }))
    else if not (descriptor_is_slave s d) || not s.slave_initialised
    then quiet duo_invalid s
    else loud (record s { slave_initialised = false })
        (emit_event slave_uninitialised s.master_fd d s.slave_tuner)

unfoldable pub release : DuoSession → ℤ → Outcome
release s d =
    if not (valid_descriptor d)
    then quiet duo_invalid s
    else if descriptor_is_master s d
    then (if s.master_initialised
        then quiet duo_busy s
        else if s.slave_selected
        then quiet stop_pending s
        else quiet duo_ok session_init)
    else if not (descriptor_is_slave s d)
    then quiet duo_invalid s
    else if s.slave_initialised
    then quiet duo_busy s
    else loud (clear_slave s) (emit_event slave_detached s.master_fd d s.slave_tuner)

unfoldable pub disconnect : DuoSession → ℤ → Outcome
disconnect s d =
    if not (valid_descriptor d)
    then quiet duo_invalid s
    else if descriptor_is_slave s d
    then loud (clear_slave s) (emit_event slave_dll_disappeared s.master_fd d s.slave_tuner)
    else if descriptor_is_master s d
    then record {
      result = duo_ok;
      event =
          if s.slave_selected
          then emit_event master_dll_disappeared s.slave_fd d s.slave_tuner
          else cleared_event;
      session = session_init;
    }
    else quiet duo_ok s

-- The return value with `*descriptor`: -1 for a bad tuner, 0 for no route, 1 for a client.
unfoldable pub route : DuoSession → ℕ → ℤ × ℤ
route s t =
    if not (valid_tuner t)
    then (negsuc 0, invalid_client)
    else if s.master_selected && s.master_initialised && s.master_tuner == t
    then (if is_nonneg s.master_fd then pos 1 else pos 0, s.master_fd)
    else if s.slave_selected && s.slave_initialised && s.slave_tuner == t
    then (if is_nonneg s.slave_fd then pos 1 else pos 0, s.slave_fd)
    else (pos 0, invalid_client)

unfoldable pub role_for_descriptor : DuoSession → ℤ → Role
role_for_descriptor s d =
    if descriptor_is_master s d
    then role_master
    else if descriptor_is_slave s d
    then role_slave
    else role_none

abbrev is_slave_role : Role → Bool
is_slave_role role_slave = true
is_slave_role role_master = false
is_slave_role role_none = false

unfoldable pub write_failure_stops_stream : DuoSession → ℤ → Bool
unfolding role_for_descriptor
write_failure_stops_stream s d = not (is_slave_role (role_for_descriptor s d))

-- The calls that a client makes; the daemon runs them one at a time.
pub data Call : Type 0 where
  acquires : Role → ℕ → ℕ → Call
  initialises uninitialises releases disconnects : Call

unfoldable pub step : DuoSession → ℤ × Call → Outcome
step s (d, acquires r t rate) = acquire s d r t rate
step s (d, initialises) = initialise s d
step s (d, uninitialises) = uninitialise s d
step s (d, releases) = release s d
step s (d, disconnects) = disconnect s d

unfoldable pub run : DuoSession → List (ℤ × Call) → DuoSession
run s [] = s
run s (c ∷ cs) = run (step s c).session cs

-- What the callers see: a result and an event for each call.
unfoldable pub replies : DuoSession → List (ℤ × Call) → List (DuoResult × DuoEvent)
replies s [] = []
replies s (c ∷ cs) = ((step s c).result, (step s c).event) ∷ replies (step s c).session cs
