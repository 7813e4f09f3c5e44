-- ===== src/Api/Events/Refine.antt =====
-- The event queue as a list: what any sequence of calls on the ring of src/compat/sdrplay_api_compat.c
-- shows its callers.
use openrsp.Base.{
  Bool, true, false, not, ◌&&◌, ◌==◌, if◌then◌else◌, ◌≡◌, refl, ap, List, [], ◌∷◌, ◌++◌, length,
  arith, InBounds, contents, trimmed, put_newest-InBounds, contents-put_newest, length-contents,
  contents-drop_head, drop_head-InBounds,
}
use openrsp.Api.{Tuner}
use openrsp.Api.Events.{
  EventKind, capacity, is_urgent, ApiEvent, Device, Turn, waits, ends, calls, queue_api_event,
  take_event, end_callback, is_idle, stop_events,
}

-- What the application and the API may know of the queue.
pub record Mailbox (Params : Type 0) : Type 0 where
  pub events : List (ApiEvent Params)
  pub thread_started : Bool
  pub stop : Bool
  pub dispatching : Bool

module _ {Params : Type 0} where
  -- While the thread runs an event is added at the end. When 32 wait, a removal or a failure takes the
  -- place of the oldest, and every other event is refused.
  abbrev pub post : EventKind → Tuner → Params → Mailbox Params → Bool × Mailbox Params
  post event tuner params m =
      if not m.thread_started
      then (false, m)
      else if m.stop
      then (false, m)
      else if (length m.events == capacity) && not (is_urgent event)
      then (false, m)
      else (
        true,
        record m {
          events =
              trimmed capacity m.events
              ++ (record { event = event; tuner = tuner; params = params } ∷ []);
        },
      )

  abbrev next_of : List (ApiEvent Params) → Mailbox Params → Turn Params × Mailbox Params
  next_of [] m = (if m.stop then ends else waits, m)
  next_of (e ∷ es) m = (calls e, record m { events = es; dispatching = true })

  abbrev pub next : Mailbox Params → Turn Params × Mailbox Params
  next m = next_of m.events m

  abbrev pub is_empty : List (ApiEvent Params) → Bool
  is_empty [] = true
  is_empty (e ∷ es) = false

  abbrev pub is_quiet : Mailbox Params → Bool
  is_quiet m = is_empty m.events && not m.dispatching

  abbrev pub view : Device Params → Mailbox Params
  view d = record {
    events = contents capacity d.ring;
    thread_started = d.thread_started;
    stop = d.stop;
    dispatching = d.dispatching;
  }

  pub queue_api_event-InBounds :
      (event : EventKind) (tuner : Tuner) (params : Params) (d : Device Params)
      → InBounds capacity d.ring
      → InBounds capacity (queue_api_event event tuner params d).1.ring
  unfolding queue_api_event
  queue_api_event-InBounds event tuner params d b = ground (
    arith,
    put_newest-InBounds capacity (record { event = event; tuner = tuner; params = params }) d.ring
        b,
  )

  pub take_event-InBounds :
      (d : Device Params) → InBounds capacity d.ring → InBounds capacity (take_event d).1.ring
  unfolding take_event
  take_event-InBounds d b = ground (arith, drop_head-InBounds capacity d.ring b)

  pub queue_api_event_refines :
      (event : EventKind) (tuner : Tuner) (params : Params) (d : Device Params)
      → InBounds capacity d.ring
      → let (queued, d') = queue_api_event event tuner params d in
        (queued, view d') ≡ post event tuner params (view d)
  unfolding queue_api_event
  queue_api_event_refines event tuner params d b = ground (
    arith,
    length-contents capacity d.ring,
    contents-put_newest capacity (record { event = event; tuner = tuner; params = params }) d.ring
        b,
  )

  pub take_event_refines :
      (d : Device Params)
      → InBounds capacity d.ring
      → let (turn, d') = take_event d in (turn, view d') ≡ next (view d)
  unfolding take_event
  take_event_refines d b =
      ground (arith, length-contents capacity d.ring, contents-drop_head capacity d.ring b)

module _ (Params : Type 0) where
  -- The calls on the queue, by the API, by the event thread and by `wait_for_event_idle`.
  pub data Op : Type 0 where
    post_event : EventKind → Tuner → Params → Op
    take end_call ask_idle stop_all : Op

  pub data Reply : Type 0 where
    queued : Bool → Reply
    turned : Turn Params → Reply
    idle : Bool → Reply
    done : Reply

module _ {Params : Type 0} where
  unfoldable pub run : Device Params → List (Op Params) → List (Reply Params)
  run d [] = []
  run d (post_event event tuner params ∷ ops) =
      let (b, d') = queue_api_event event tuner params d in queued b ∷ run d' ops
  run d (take ∷ ops) = let (t, d') = take_event d in turned t ∷ run d' ops
  run d (end_call ∷ ops) = done ∷ run (end_callback d) ops
  run d (ask_idle ∷ ops) = idle (is_idle d) ∷ run d ops
  run d (stop_all ∷ ops) = done ∷ run (stop_events d) ops

  unfoldable pub run_mailbox : Mailbox Params → List (Op Params) → List (Reply Params)
  run_mailbox m [] = []
  run_mailbox m (post_event event tuner params ∷ ops) =
      let (b, m') = post event tuner params m in queued b ∷ run_mailbox m' ops
  run_mailbox m (take ∷ ops) = let (t, m') = next m in turned t ∷ run_mailbox m' ops
  run_mailbox m (end_call ∷ ops) = done ∷ run_mailbox (record m { dispatching = false }) ops
  run_mailbox m (ask_idle ∷ ops) = idle (is_quiet m) ∷ run_mailbox m ops
  run_mailbox m (stop_all ∷ ops) =
      done ∷ run_mailbox (if m.thread_started then record m { stop = true } else m) ops

  is_idle_refines : (d : Device Params) → InBounds capacity d.ring → is_idle d ≡ is_quiet (view d)
  unfolding is_idle
  is_idle_refines d b = ground (arith, contents-drop_head capacity d.ring b)

  stop_events_refines :
      (d : Device Params)
      → view (stop_events d)
        ≡ (if d.thread_started then record (view d) { stop = true } else view d)
  unfolding stop_events
  stop_events_refines d = ground arith

  stop_events-InBounds :
      (d : Device Params) → InBounds capacity d.ring → InBounds capacity (stop_events d).ring
  unfolding stop_events
  stop_events-InBounds d b = ground arith

-- No sequence of posts, turns of the thread, idle tests and stops tells the ring of 32 slots from the
-- list of its events: first in, first out, refused or replaced as `post` says, and never more than 32.
pub run_refines :
    {Params : Type 0} (ops : List (Op Params)) (d : Device Params)
    → InBounds capacity d.ring
    → run d ops ≡ run_mailbox (view d) ops
unfolding run run_mailbox end_callback
run_refines [] d b = refl
run_refines (post_event event tuner params ∷ ops) d b = rw (
  run_refines ops (queue_api_event event tuner params d).1
      (queue_api_event-InBounds event tuner params d b),
  ← queue_api_event_refines event tuner params d b,
)
run_refines (take ∷ ops) d b =
    rw (run_refines ops (take_event d).1 (take_event-InBounds d b), ← take_event_refines d b)
run_refines (end_call ∷ ops) d b = ap (λ l. done ∷ l) (run_refines ops (end_callback d) b)
run_refines (ask_idle ∷ ops) d b = rw (run_refines ops d b, is_idle_refines d b)
run_refines (stop_all ∷ ops) d b =
    rw (run_refines ops (stop_events d) (stop_events-InBounds d b), stop_events_refines d)
