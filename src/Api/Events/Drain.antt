-- ===== src/Api/Events/Drain.antt =====
-- The end of `event_thread_main` of src/compat/sdrplay_api_compat.c: nothing queued is left behind.
use openrsp.Base.{
  ℕ, zero, suc, true, false, not, ◌||◌, ◌==◌, if◌then◌else◌, ◌≡◌, refl, sym, subst, ap, ◌∙◌, some,
  Bool, List, [], ◌∷◌, ◌++◌, arith, InBounds, contents, front, drop_head, contents-drop_head,
  drop_head-InBounds, length, trimmed, contents-put_newest, length-contents,
}
use openrsp.Api.{Tuner}
use openrsp.Api.Events.{
  EventKind, capacity, device_removed, device_failure, gain_change, power_overload_change,
  rspduo_mode_change, is_urgent, ApiEvent, Device, Turn, ends, calls, queue_api_event, take_event,
  stop_events, end_callback, is_idle, Served, and_event, after_turn, event_thread_main,
}
use openrsp.Api.Events.Refine.{queue_api_event-InBounds}

-- The thread has ended, it handed over `es`, and nothing is queued or under way.
pub record Drained {Params : Type 0} (es : List (ApiEvent Params)) (s : Served Params)
    : Type 0 where
  pub after : Device Params
  pub served : s ≡ some (es, after)
  pub idle : is_idle after ≡ true

and_event-Drained :
    {Params : Type 0} (e : ApiEvent Params) (es : List (ApiEvent Params)) (s : Served Params)
    → Drained es s
    → Drained (e ∷ es) (and_event e s)
and_event-Drained e es s d = record {
  after = d.after;
  served = ap (and_event e) d.served;
  idle = d.idle;
}

main_turn :
    {Params : Type 0} (n : ℕ) (d : Device Params) (t : Turn Params) (d' : Device Params)
    → take_event d ≡ (t, d')
    → event_thread_main (suc n) d ≡ after_turn t d' (event_thread_main n (end_callback d'))
unfolding event_thread_main
main_turn n d t d' e = ap (λ p. after_turn p.0 p.1 (event_thread_main n (end_callback p.1))) e

take_last :
    {Params : Type 0} (d : Device Params)
    → d.ring.count ≡ 0
    → d.stop ≡ true
    → take_event d ≡ (ends, d)
unfolding take_event
take_last d e s = ground arith

abbrev taken : {Params : Type 0} → Device Params → Device Params
taken d = record d { ring = drop_head capacity d.ring; dispatching = true }

take_front :
    {Params : Type 0} (d : Device Params) (n : ℕ)
    → d.ring.count ≡ suc n
    → take_event d ≡ (calls (front d.ring), taken d)
unfolding take_event
take_front d n e = ground arith

empty : {Params : Type 0} (d : Device Params) → d.ring.count ≡ 0 → contents capacity d.ring ≡ []
empty d e = ground (arith, length-contents capacity d.ring)

idle_at :
    {Params : Type 0} (d : Device Params)
    → d.ring.count ≡ 0
    → d.dispatching ≡ false
    → is_idle d ≡ true
unfolding is_idle
idle_at d e q = ground arith

drain :
    {Params : Type 0} (n : ℕ) (d : Device Params)
    → d.ring.count ≡ n
    → InBounds capacity d.ring
    → d.stop ≡ true
    → d.dispatching ≡ false
    → Drained (contents capacity d.ring) (event_thread_main (suc n) d)
unfolding end_callback
drain zero d e b s q = record {
  after = d;
  served = main_turn zero d ends d (take_last d e s) ∙ ap (λ es. some (es, d)) (sym (empty d e));
  idle = idle_at d e q;
}
drain (suc n) d e b s q =
    rw
      (
        main_turn (suc n) d (calls (front d.ring)) (taken d) (take_front d n e),
        contents-drop_head capacity d.ring b (omega arith),
      )
      (and_event-Drained (front d.ring) (contents capacity (drop_head capacity d.ring))
        (event_thread_main (suc n) (end_callback (taken d)))
        (drain n (end_callback (taken d)) (omega arith) (drop_head-InBounds capacity d.ring b) s
          refl))

stop_events_running :
    {Params : Type 0} (d : Device Params)
    → d.thread_started ≡ true
    → stop_events d ≡ record d { stop = true }
unfolding stop_events
stop_events_running d h = ground arith

-- Once stopped, the event thread hands every event that is still queued to the application, in order,
-- and ends after that many turns with nothing queued and no call under way.
pub event_thread_main-stop_events :
    {Params : Type 0} (d : Device Params)
    → InBounds capacity d.ring
    → d.thread_started ≡ true
    → d.dispatching ≡ false
    → Drained (contents capacity d.ring) (event_thread_main (suc d.ring.count) (stop_events d))
event_thread_main-stop_events d b h q =
    rw (stop_events_running d h) (drain d.ring.count (record d { stop = true }) refl b refl q)

-- The events that a full queue still takes: a receiver was removed, or failed.
abbrev pub is_loss : EventKind → Bool
is_loss device_removed = true
is_loss device_failure = true
is_loss gain_change = false
is_loss power_overload_change = false
is_loss rspduo_mode_change = false

is_urgent-is_loss : (event : EventKind) → is_urgent event ≡ is_loss event
is_urgent-is_loss device_removed = refl
is_urgent-is_loss device_failure = refl
is_urgent-is_loss gain_change = refl
is_urgent-is_loss power_overload_change = refl
is_urgent-is_loss rspduo_mode_change = refl

queue_api_event_lem :
    {Params : Type 0} (event : EventKind) (tuner : Tuner) (params : Params) (d : Device Params)
    → InBounds capacity d.ring
    → d.thread_started ≡ true
    → d.stop ≡ false
    → let (queued, d') = queue_api_event event tuner params d in
      (d'.thread_started ≡ true)
      × (d'.dispatching ≡ d.dispatching)
      × (queued ≡ (is_loss event || not (length (contents capacity d.ring) == capacity)))
      × (contents capacity d'.ring ≡ (
          if queued
          then trimmed capacity (contents capacity d.ring)
            ++ (record { event = event; tuner = tuner; params = params } ∷ [])
          else contents capacity d.ring))
unfolding queue_api_event
queue_api_event_lem event tuner params d b h s = ground (
  arith,
  is_urgent-is_loss event,
  length-contents capacity d.ring,
  contents-put_newest capacity (record { event = event; tuner = tuner; params = params }) d.ring b,
)

-- While the event thread runs, an event is queued unless 32 wait and it is neither a removal nor a
-- failure. If the thread is stopped then, it hands over what waited and the queued event last (without
-- the first of them when 32 waited), and ends after as many turns as events are queued.
pub event_thread_main-queue_api_event :
    {Params : Type 0} (event : EventKind) (tuner : Tuner) (params : Params) (d : Device Params)
    → InBounds capacity d.ring
    → d.thread_started ≡ true
    → d.stop ≡ false
    → d.dispatching ≡ false
    → let (queued, d') = queue_api_event event tuner params d in
      (queued ≡ (is_loss event || not (length (contents capacity d.ring) == capacity)))
      × Drained
          (if queued
            then trimmed capacity (contents capacity d.ring)
              ++ (record { event = event; tuner = tuner; params = params } ∷ [])
            else contents capacity d.ring)
          (event_thread_main (suc d'.ring.count) (stop_events d'))
event_thread_main-queue_api_event event tuner params d b h s q =
    (let l = queue_api_event_lem event tuner params d b h s in
      let d' = (queue_api_event event tuner params d).1 in
      (
        l.2,
        subst (λ es. Drained es (event_thread_main (suc d'.ring.count) (stop_events d'))) l.3
            (event_thread_main-stop_events d' (queue_api_event-InBounds event tuner params d b) l.0
              (l.1 ∙ q)),
      ))
