-- ===== src/Api/Events.antt =====
-- The events that the API hands to the application on a thread of its own: `queue_api_event` and the
-- turns of `event_thread_main` of src/compat/sdrplay_api_compat.c. Only the lock's holder changes the
-- queue, so a run is a sequence of calls. The event's parameters are the application's.
pub mod Refine
pub mod Drain
mod Tests
use openrsp.Base.{
  ℕ, zero, suc, ◌+◌, Bool, true, false, not, ◌&&◌, ◌||◌, ◌==◌, if◌then◌else◌, Option, none, some,
  List, [], ◌∷◌, Ring, put, drop_head, make_room, front,
}
use openrsp.Api.{Tuner}

-- sdrplay_api_EventT
pub data EventKind : Type 0 where
  gain_change power_overload_change device_removed rspduo_mode_change device_failure : EventKind

-- OPENRSP_EVENT_QUEUE_CAPACITY
abbrev pub capacity : ℕ
capacity = 32

-- The events that take the place of the oldest one when the queue is full.
abbrev pub is_urgent : EventKind → Bool
is_urgent gain_change = false
is_urgent power_overload_change = false
is_urgent device_removed = true
is_urgent rspduo_mode_change = false
is_urgent device_failure = true

module _ (Params : Type 0) where
  -- compat_api_event
  pub record ApiEvent : Type 0 where
    pub event : EventKind
    pub tuner : Tuner
    pub params : Params

  -- The fields event_* of compat_device_context.
  pub record Device : Type 0 where
    pub ring : Ring ApiEvent
    pub thread_started : Bool
    pub stop : Bool
    pub dispatching : Bool

  -- What a turn of the event thread finds: it waits, it ends, or it calls the application.
  pub data Turn : Type 0 where
    waits : Turn
    ends : Turn
    calls : ApiEvent → Turn

-- The result is whether the event was queued (0 for true, -1 for false).
unfoldable pub queue_api_event :
    {Params : Type 0} → EventKind → Tuner → Params → Device Params → Bool × Device Params
queue_api_event event tuner params device =
    if not device.thread_started
    then (false, device)
    else if device.stop
    then (false, device)
    else if (device.ring.count == capacity) && not (is_urgent event)
    then (false, device)
    else (
      true,
      record device {
        ring =
            put capacity (record { event = event; tuner = tuner; params = params })
              (make_room capacity device.ring);
      },
    )

-- The thread takes its next event, and calls the application without the lock.
unfoldable pub take_event : {Params : Type 0} → Device Params → Turn Params × Device Params
take_event device =
    if device.ring.count == 0 then (if device.stop then ends else waits, device) else (
      calls (front device.ring),
      record device { ring = drop_head capacity device.ring; dispatching = true },
    )

-- The application has returned.
unfoldable pub end_callback : {Params : Type 0} → Device Params → Device Params
end_callback device = record device { dispatching = false }

-- The test that `wait_for_event_idle` waits for.
unfoldable pub is_idle : {Params : Type 0} → Device Params → Bool
is_idle device = (device.ring.count == 0) && not device.dispatching

-- `event_thread_main` while nothing more is queued: the events that it hands to the application, in
-- order, and what it leaves. It has no result when it waits, or has not ended after `fuel` turns.
abbrev pub Served : Type 0 → Type 0
Served Params = Option (List (ApiEvent Params) × Device Params)

abbrev pub and_event : {Params : Type 0} → ApiEvent Params → Served Params → Served Params
and_event e none = none
and_event e (some (es, device)) = some (e ∷ es, device)

abbrev pub after_turn :
    {Params : Type 0} → Turn Params → Device Params → Served Params → Served Params
after_turn waits device later = none
after_turn ends device later = some ([], device)
after_turn (calls e) device later = and_event e later

unfoldable pub event_thread_main : {Params : Type 0} → ℕ → Device Params → Served Params
event_thread_main zero device = none
event_thread_main (suc fuel) device =
    (let (turn, next) = take_event device in
      let later = event_thread_main fuel (end_callback next) in after_turn turn next later)

-- `stop_event_thread` up to the join.
unfoldable pub stop_events : {Params : Type 0} → Device Params → Device Params
stop_events device = if not device.thread_started then device else record device { stop = true }
