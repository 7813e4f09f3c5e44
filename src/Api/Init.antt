-- ===== src/Api/Init.antt =====
-- `sdrplay_api_Init` and `sdrplay_api_Uninit` of src/compat/sdrplay_api_compat.c: how a selected receiver
-- starts to stream, what is undone when a step fails, and how it stops. The application's handle is the
-- device's; the messages on stderr are left out. The daemon's frames set the stream's state while Init
-- waits for them: that wait is a call whose answer is the state.
use openrsp.Base.{ℤ, pos, negsuc, Bool, true, false, not, ◌==◌, if◌then◌else◌, eq_ℤ, is_nonneg}
use openrsp.Api.{
  Tuner, tuner_a, tuner_b, ErrT, is_success, success, hw_error, not_initialised, out_of_mem_error,
  start_pending, stop_pending,
}
use openrsp.Api.Params.{Doubles}
use openrsp.Api.Stream.{start_stream_callback_thread}
use openrsp.Api.Context.{
  M, ◌>>=◌, ◌>>◌, return, get, modify, when, discard, Env, call, make_buffers, make_stream_locks,
  make_stream_thread, make_agc_thread, open_backend, close_backend, configure, configure_dual,
  start, stop, update, await_first_iq,
}
use openrsp.Api.Prepare.{
  is_zero, is_dual, gain_and_controls, init_refusal, free_stream_buffers, prepare_all, config_of,
  dual_of, begin_stream, stop_stream_callback_thread, join_agc,
}

module _ {D : Doubles} (env : Env) where
  -- A backend that is not there yet is opened. `openrsp_daemon_backend_open` answers 0 or -1.
  unfoldable pub connect : M D Bool
  connect x =
      if x.backend
      then (true, x)
      else (do
        result ← call env (open_backend x.identity)
        modify (λ y. record y { backend = is_nonneg result })
        return (is_nonneg result))
          x

  unfoldable pub send_configuration : M D ℤ
  send_configuration x =
      (if not (x.duo_role == 0)
          then call env (configure x.duo_role (config_of x.tuner x))
          else if is_dual x
          then call env (configure_dual (dual_of x))
          else call env (configure 0 (config_of x.tuner x)))
        x

  -- A role keeps its backend until the release of the device.
  unfoldable pub close_single : M D (Unit {0})
  close_single x =
      when (x.duo_role == 0)
        (do discard (call env close_backend); modify (λ y. record y { backend = false })) x

  unfoldable pub clear_callbacks : M D (Unit {0})
  clear_callbacks = modify (λ x. record x { has_callbacks = false; has_callback_b = false })

  unfoldable pub start_callbacks : M D Bool
  start_callbacks = do
    locks ← call env make_stream_locks
    thread ← (if is_zero locks then call env make_stream_thread else return (negsuc 0))
    x ← get
    let (started, stream) = start_stream_callback_thread (is_zero locks) (is_zero thread) x.stream
    modify (λ y. record y { stream = stream })
    return started

  -- The gain is set once the first IQ has come, for both tuners in the dual mode.
  abbrev send_gain : Tuner → M D ℤ
  send_gain tuner x =
      call env (update x.duo_role (config_of tuner x) (gain_and_controls (config_of tuner x))) x

  unfoldable pub send_gains : M D ℤ
  send_gains x =
      (if is_dual x
          then (do
            first ←
                call env (update 0 (config_of tuner_a x) (gain_and_controls (config_of tuner_a x)))
            (if is_nonneg first
                then call env
                    (update 0 (config_of tuner_b x) (gain_and_controls (config_of tuner_b x)))
                else return first))
          else send_gain x.tuner)
        x

  -- The end of an initialisation that had begun to stream.
  unfoldable pub forget_stream : M D (Unit {0})
  forget_stream = do
    modify
        (λ x. record x { thread_started = false; agc_thread_started = false; initialized = false })
    stop_stream_callback_thread
    free_stream_buffers

  unfoldable pub abort_stream : M D ErrT
  abort_stream = do
    x ← get
    discard (call env (stop x.duo_role))
    join_agc
    close_single
    forget_stream
    return hw_error

  unfoldable pub await_stream : M D ErrT
  await_stream = do
    state ← call env await_first_iq
    modify (λ x. record x { stream_state = state })
    (if not (eq_ℤ state (pos 1))
        then abort_stream
        else (do gains ← send_gains; (if is_nonneg gains then return success else abort_stream)))

  -- START_PENDING is -5: a slave waits for its master, and keeps its backend.
  unfoldable pub start_failed : ℤ → M D ErrT
  start_failed result = do
    modify (λ x. record x { initialized = false })
    stop_stream_callback_thread
    free_stream_buffers
    (if eq_ℤ result (negsuc 4)
        then (do modify (λ x. record x { start_pending = true }); return start_pending)
        else (do close_single; return hw_error))

  unfoldable pub start_agc : M D ErrT
  start_agc = do
    modify (λ x. record x { start_pending = false; thread_started = true })
    agc ← call env make_agc_thread
    (if is_zero agc
        then (do modify (λ x. record x { agc_thread_started = true }); await_stream)
        else (do
          x ← get
          discard (call env (stop x.duo_role))
          close_single
          forget_stream
          return start_pending))

  unfoldable pub launch : M D ErrT
  launch = do
    started ← start_callbacks
    (if not started
        then (do close_single; free_stream_buffers; clear_callbacks; return out_of_mem_error)
        else (do
          begin_stream
          x ← get
          result ← call env (start x.duo_role)
          (if is_zero result then start_agc else start_failed result)))

  unfoldable pub reach_daemon : Bool → M D ErrT
  reach_daemon has_b = do
    connected ← connect
    (if not connected then (do free_stream_buffers; return hw_error) else (do
      result ← send_configuration
      (if is_nonneg result
          then (do modify (λ x. record x { has_callbacks = true; has_callback_b = has_b }); launch)
          else (do close_single; free_stream_buffers; return hw_error))))

  unfoldable pub init : Bool → Bool → M D ErrT
  init has_a has_b x =
      if not (is_success (init_refusal has_a has_b x))
      then (init_refusal has_a has_b x, x)
      else (do
        made ← call env make_buffers
        modify (λ y. record y { buffers = is_zero made })
        (if not (is_zero made) then return hw_error else (do
          prepared ← prepare_all
          (if is_success prepared
              then reach_daemon has_b
              else (do free_stream_buffers; return prepared)))))
          x

  -- What is left of Uninit once a role has been stopped.
  unfoldable pub finish_uninit : M D ErrT
  finish_uninit = do
    join_agc
    x ← get
    when (x.duo_role == 0) (do
      when x.thread_started (discard (call env (stop 0)))
      discard (call env close_backend)
      modify (λ y. record y { backend = false }))
    forget_stream
    clear_callbacks
    return success

  -- Uninit of a receiver that streams.
  unfoldable pub stop_running : M D ErrT
  stop_running x =
      (if x.duo_role == 0 then finish_uninit else (do
        result ← call env (stop x.duo_role)
        (if eq_ℤ result (negsuc 5)
            then return stop_pending
            else if is_zero result
            then finish_uninit
            else return hw_error)))
        x

  unfoldable pub uninit : M D ErrT
  uninit x = if x.initialized then stop_running x else (not_initialised, x)
