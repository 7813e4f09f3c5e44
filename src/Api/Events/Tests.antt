-- ===== src/Api/Events/Tests.antt =====
-- A device whose event parameters are numbers, with a full ring and with an empty one.
use openrsp.Base.{
  suc, ℕ, ◌≡◌, refl, true, false, not, ◌||◌, ◌==◌, if◌then◌else◌, List, [], ◌∷◌, ◌++◌, length,
  arith, trimmed, contents,
}
use openrsp.Api.{tuner_a, tuner_b}
use openrsp.Api.Events.{
  device_removed, gain_change, capacity, Device, queue_api_event, stop_events, event_thread_main,
}
use openrsp.Api.Events.Refine.{
  view, Op, post_event, take, end_call, ask_idle, stop_all, run, run_mailbox, run_refines,
}
use openrsp.Api.Events.Drain.{Drained, is_loss, event_thread_main-queue_api_event}

-- 32 gain changes, the oldest of them in slot 30.
abbrev full : Device ℕ
full = record {
  ring = record {
    slots = λ k. record { event = gain_change; tuner = tuner_a; params = k };
    head = 30;
    count = 32;
  };
  thread_started = true;
  stop = false;
  dispatching = false;
}

abbrev calls_on_queue : List (Op ℕ)
calls_on_queue =
    post_event gain_change tuner_b 7
    ∷ post_event device_removed tuner_a 8
    ∷ take
    ∷ ask_idle
    ∷ end_call
    ∷ stop_all
    ∷ post_event device_removed tuner_a 9
    ∷ []

run_refines_example : run full calls_on_queue ≡ run_mailbox (view full) calls_on_queue
run_refines_example = run_refines calls_on_queue full (omega arith)

event_thread_main-queue_api_event_example :
    let (queued, d') = queue_api_event device_removed tuner_b 77 full in
    (queued ≡ (is_loss device_removed || not (length (contents capacity full.ring) == capacity)))
    × Drained
        (if queued
          then trimmed capacity (contents capacity full.ring)
            ++ (record { event = device_removed; tuner = tuner_b; params = 77 } ∷ [])
          else contents capacity full.ring)
        (event_thread_main (suc d'.ring.count) (stop_events d'))
event_thread_main-queue_api_event_example =
    event_thread_main-queue_api_event device_removed tuner_b 77 full (omega arith) refl refl refl
