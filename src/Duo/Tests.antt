-- ===== src/Duo/Tests.antt =====
-- Sessions and calls on which the theorems on daemon/duo_session.c are applied.
use openrsp.Base.{ℕ, ◌≡◌, ◌≢◌, ◌↔◌, refl, true, false, ℤ, pos, eq_ℤ, is_nonneg, List, [], ◌∷◌}
use openrsp.Duo.{
  role_none, role_master, role_slave, DuoSession, cleared_event, disconnect, session_init,
  rate_unspecified, Call, acquires, initialises, uninitialises, disconnects, step, run, replies,
  route, role_for_descriptor, acquire, initialise, uninitialise,
}
use openrsp.Duo.Invariant.{IsValid, run-session_init-IsValid}
use openrsp.Duo.Spec.{answers, free}
use openrsp.Duo.Refine.{replies-session_init}
use openrsp.Duo.Routing.{Streams, route_iff, route_exclusive, event_for_peer, disconnect_forgets}
use openrsp.Duo.Lifecycle.{shutdown, step_atomic, run-shutdown}

-- Client 4 owns tuner A and client 7 tuner B, at 6 MHz; both stream.
abbrev start : List (ℤ × Call)
start =
    (pos 4, acquires role_master 1 6000000)
    ∷ (pos 7, acquires role_slave 2 rate_unspecified)
    ∷ (pos 4, initialises)
    ∷ (pos 7, initialises)
    ∷ []

abbrev running : DuoSession
running = record {
  master_fd = pos 4;
  slave_fd = pos 7;
  master_tuner = 1;
  slave_tuner = 2;
  sample_rate_hz = 6000000;
  master_selected = true;
  slave_selected = true;
  master_initialised = true;
  slave_initialised = true;
}

run-start : run session_init start ≡ running
unfolding run step acquire initialise
run-start = refl

run-session_init-IsValid_example : IsValid (run session_init start)
run-session_init-IsValid_example = run-session_init-IsValid start

running-IsValid : IsValid running
running-IsValid = rw (← run-start) (run-session_init-IsValid start)

replies-session_init_example : replies session_init start ≡ answers free start
replies-session_init_example = replies-session_init start

route_iff_example : (route running 2 ≡ (pos 1, pos 7)) ↔ Streams running (pos 7) 2
route_iff_example = route_iff running running-IsValid 2 (pos 7)

route_exclusive_example : ◌≡◌ {A = ℕ} 2 2
unfolding route
route_exclusive_example = route_exclusive running running-IsValid 2 2 (pos 7) refl refl

event_for_peer_example :
    ((step running (pos 7, disconnects)).event.source_fd ≡ pos 7)
    × (is_nonneg (step running (pos 7, disconnects)).event.target_fd ≡ true)
    × (eq_ℤ (step running (pos 7, disconnects)).event.target_fd (pos 7) ≡ false)
    × (role_for_descriptor running (step running (pos 7, disconnects)).event.target_fd ≢ role_none)
unfolding step disconnect
event_for_peer_example = event_for_peer running running-IsValid (pos 7) disconnects (λ e. cc)

disconnect_forgets_example :
    let s' = (disconnect running (pos 7)).session in
    (role_for_descriptor s' (pos 7) ≡ role_none)
    × ((t : ℕ) → route s' t ≢ (pos 1, pos 7))
    × (role_for_descriptor running (pos 7) ≢ role_master
        → (e : ℤ) → pos 7 ≢ e
        → role_for_descriptor s' e ≡ role_for_descriptor running e)
disconnect_forgets_example = disconnect_forgets running running-IsValid (pos 7) refl

step_atomic_example :
    ((step running (pos 4, uninitialises)).session ≡ running)
    × ((step running (pos 4, uninitialises)).event ≡ cleared_event)
unfolding step uninitialise
step_atomic_example = step_atomic running (pos 4) uninitialises (λ e. cc)

run-shutdown_example : run running (shutdown running) ≡ session_init
run-shutdown_example = run-shutdown running running-IsValid
