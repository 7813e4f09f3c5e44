-- ===== src/Api/Lifecycle/Launch.antt =====
-- The part of `sdrplay_api_Init` of src/compat/sdrplay_api_compat.c that starts the threads and the stream.
use openrsp.Base.{
  Bool, true, false, ◌&&◌, if◌then◌else◌, ◌≡◌, subst, Bool-cases, inl, inr, ℤ, pos, eq_ℤ, not, ◌||◌,
  ◌∷◌, is_nonneg, arith,
}
use openrsp.Api.{out_of_mem_error}
use openrsp.Api.Params.{Doubles}
use openrsp.Api.Stream.{start_stream_callback_thread, stop_callbacks}
use openrsp.Api.Context.{Context, Env, call, await_first_iq, make_agc_thread, start}
use openrsp.Api.Prepare.{free_stream_buffers, begin_stream, stop_stream_callback_thread, join_agc}
use openrsp.Api.Init.{
  close_single, clear_callbacks, start_callbacks, send_gains, forget_stream, abort_stream,
  await_stream, start_failed, start_agc, launch,
}
use openrsp.Api.Lifecycle.{Valid, Outcome}

-- A receiver that streams.
record Streaming {D : Doubles} (x : Context D) : Type 0 where
  ready :
      x.api_open && (x.selected && (x.initialized && (x.buffers && x.stream.thread_started))) ≡ true
  held : x.backend && (x.has_callbacks && (x.thread_started && x.agc_thread_started)) ≡ true

-- A receiver whose daemon has begun to stream.
pub record Running {D : Doubles} (x : Context D) : Type 0 where
  ready :
      x.api_open && (x.selected && (x.initialized && (x.buffers && x.stream.thread_started))) ≡ true
  held : x.backend && x.has_callbacks ≡ true

module _ {D : Doubles} (env : Env) where
  gains-Streaming : (x : Context D) → Streaming x → Streaming (send_gains env x).1
  unfolding send_gains
  gains-Streaming x s = ground arith

  abort-Running : (x : Context D) → Running x → Outcome (abort_stream env x)
  unfolding abort_stream join_agc close_single forget_stream stop_stream_callback_thread
      free_stream_buffers stop_callbacks
  abort-Running x r = ground arith

  abort-Streaming : (x : Context D) → Streaming x → Outcome (abort_stream env x)
  abort-Streaming x s = abort-Running x (ground arith)

  Streaming-Valid : (x : Context D) → Streaming x → Valid x
  Streaming-Valid x s = ground arith

  Streaming-initialized : (x : Context D) → Streaming x → x.initialized ≡ true
  Streaming-initialized x s = ground arith

  await-Outcome : (x : Context D) → Streaming x → Outcome (await_stream env x)
  unfolding await_stream
  await-Outcome x s =
      (let seen = record x {
        stream_state = env x.trace await_first_iq;
        trace = await_first_iq ∷ x.trace;
      } in
        let streaming : Streaming seen = record { ready = s.ready; held = s.held } in
        let after = gains-Streaming seen streaming in
        elim (Bool-cases (not (eq_ℤ seen.stream_state (pos 1)))) [
          | inl silent ↦ rw silent (abort-Streaming seen streaming)
          | inr first ↦ elim (Bool-cases (is_nonneg (send_gains env seen).0)) [
            | inl set ↦
                rw (first, set)
                  (record {
                    valid = Streaming-Valid (send_gains env seen).1 after;
                    told = Streaming-initialized (send_gains env seen).1 after;
                  })
            | inr unset ↦ rw (first, unset) (abort-Streaming (send_gains env seen).1 after)
          ]
        ])

  start_agc-Outcome : (x : Context D) → Running x → Outcome (start_agc env x)
  unfolding start_agc close_single forget_stream stop_stream_callback_thread free_stream_buffers
      stop_callbacks
  start_agc-Outcome x r =
      (let asked = record x {
        start_pending = false;
        thread_started = true;
        trace = make_agc_thread ∷ x.trace;
      } in
        elim (Bool-cases (eq_ℤ (env x.trace make_agc_thread) (pos 0))) [
          | inl made ↦ rw made (
              await-Outcome (record asked { agc_thread_started = true })
                (record { ready = r.ready; held = ground arith }))
          | inr failed ↦ rw failed (ground arith)
        ])

  start_failed-Outcome :
      (result : ℤ) (x : Context D)
      → Running x
      → x.thread_started ≡ false
      → x.agc_thread_started ≡ false
      → Outcome (start_failed env result x)
  unfolding start_failed close_single stop_stream_callback_thread free_stream_buffers stop_callbacks
  start_failed-Outcome result x r t a = ground arith

-- A receiver that is ready to stream, and does not.
pub record Prepared {D : Doubles} (x : Context D) : Type 0 where
  pub ready : x.api_open && (x.selected && x.buffers) ≡ true
  pub silent :
      x.initialized || (x.stream.thread_started || (x.thread_started || x.agc_thread_started))
      ≡ false

module _ {D : Doubles} (env : Env) where
  after_start :
      (x : Context D)
      → Running x
      → x.thread_started ≡ false
      → x.agc_thread_started ≡ false
      → let result = (call env (start x.duo_role) x).0 in
        let y = (call env (start x.duo_role) x).1 in
        Outcome ((if eq_ℤ result (pos 0) then start_agc env else start_failed env result) y)
  after_start x r t a =
      (let result = env x.trace (start x.duo_role) in
        let y = record x { trace = start x.duo_role ∷ x.trace } in
        let running : Running y = record { ready = r.ready; held = r.held } in
        elim (Bool-cases (eq_ℤ result (pos 0))) [
          | inl started ↦ rw started (start_agc-Outcome env y running)
          | inr refused ↦ rw refused (start_failed-Outcome env result y running t a)
        ])

  -- The callback thread is the only thing that `start_callbacks` may bring about.
  record Called (started : Bool) (y : Context D) : Type 0 where
    ready : y.api_open && (y.selected && y.buffers) ≡ true
    held : y.backend && y.has_callbacks ≡ true
    silent : y.initialized || (y.thread_started || y.agc_thread_started) ≡ false
    thread : y.stream.thread_started ≡ started

  start_callbacks-Called :
      (x : Context D)
      → Prepared x
      → x.backend && x.has_callbacks ≡ true
      → Called (start_callbacks env x).0 (start_callbacks env x).1
  unfolding start_callbacks start_stream_callback_thread
  start_callbacks-Called x p h = ground arith

  begin-Running : (y : Context D) → Called true y → Running (begin_stream y).1
  unfolding begin_stream
  begin-Running y c = ground arith

  begin-silent :
      (y : Context D)
      → Called true y
      → ((begin_stream y).1.thread_started ≡ false)
        × ((begin_stream y).1.agc_thread_started ≡ false)
  unfolding begin_stream
  begin-silent y c = ground arith

  launched :
      (y : Context D)
      → Called true y
      → let z = (begin_stream y).1 in
        let (result, w) = call env (start z.duo_role) z in
        Outcome ((if eq_ℤ result (pos 0) then start_agc env else start_failed env result) w)
  launched y c =
      after_start (begin_stream y).1 (begin-Running y c) (begin-silent y c).0 (begin-silent y c).1

  not_launched :
      (y : Context D)
      → Called false y
      → Outcome
          (out_of_mem_error, (clear_callbacks env (free_stream_buffers (close_single env y).1).1).1)
  unfolding close_single free_stream_buffers clear_callbacks
  not_launched y c = ground arith

  pub launch-Outcome :
      (x : Context D) → Prepared x → x.backend && x.has_callbacks ≡ true → Outcome (launch env x)
  unfolding launch
  launch-Outcome x p h =
      (let called = start_callbacks-Called x p h in
        elim (Bool-cases (start_callbacks env x).0) [
          | inl started ↦ rw started (
              launched (start_callbacks env x).1
                (subst (λ b. Called b (start_callbacks env x).1) started called))
          | inr failed ↦ rw failed (
              not_launched (start_callbacks env x).1
                (subst (λ b. Called b (start_callbacks env x).1) failed called))
        ])
