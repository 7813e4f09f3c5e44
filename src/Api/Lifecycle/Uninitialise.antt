-- ===== src/Api/Lifecycle/Uninitialise.antt =====
-- `sdrplay_api_Uninit` of src/compat/sdrplay_api_compat.c.
use openrsp.Base.{
  true, false, ◌≡◌, ◌==◌, Bool-cases, inl, inr, pos, eq_ℤ, not, List, negsuc, ◌∷◌, arith,
}
use openrsp.Api.{is_success}
use openrsp.Api.Params.{Doubles}
use openrsp.Api.Stream.{stop_callbacks}
use openrsp.Api.Context.{Context, Env, Call, stop}
use openrsp.Api.Prepare.{free_stream_buffers, stop_stream_callback_thread, join_agc}
use openrsp.Api.Init.{clear_callbacks, forget_stream, finish_uninit, stop_running, uninit}
use openrsp.Api.Lifecycle.{Valid}

module _ {D : Doubles} (env : Env) where
  forgotten :
      (x : Context D)
      → x.api_open ≡ true
      → x.selected ≡ true
      → Valid (clear_callbacks env (forget_stream env x).1).1
        × ((clear_callbacks env (forget_stream env x).1).1.initialized ≡ false)
  unfolding forget_stream stop_stream_callback_thread free_stream_buffers stop_callbacks
      clear_callbacks
  forgotten x o s = ground arith

  finish-Valid :
      (x : Context D)
      → x.api_open ≡ true
      → x.selected ≡ true
      → Valid (finish_uninit env x).1
        × ((finish_uninit env x).1.initialized ≡ not (is_success (finish_uninit env x).0))
  unfolding finish_uninit join_agc
  finish-Valid x o s = elim (Bool-cases (x.duo_role == 0)) [
    | inr role ↦ rw role (forgotten (record x { agc_stop = true; agc_thread_started = false }) o s)
    | inl single ↦ elim (Bool-cases x.thread_started) [
      | inl thread ↦ rw (single, thread) (forgotten _ o s)
      | inr none_runs ↦ rw (single, none_runs) (forgotten _ o s)
    ]
  ]

  kept : (asked : List Call) (x : Context D) → Valid x → Valid (record x { trace = asked })
  kept asked x v = record {
    selected = v.selected;
    backend = v.backend;
    needs = v.needs;
    buffers = v.buffers;
    callbacks = v.callbacks;
    reader = v.reader;
    agc = v.agc;
  }

  stop_running-Valid :
      (x : Context D)
      → Valid x
      → x.initialized ≡ true
      → Valid (stop_running env x).1
        × ((stop_running env x).1.initialized ≡ not (is_success (stop_running env x).0))
  unfolding stop_running
  stop_running-Valid x v streams =
      (let s = v.backend (ground (arith, v.needs streams)) in
        let o = v.selected s in
        let asked = stop x.duo_role ∷ x.trace in
        let result = env x.trace (stop x.duo_role) in
        elim (Bool-cases (x.duo_role == 0)) [
          | inl single ↦ rw single (finish-Valid x o s)
          | inr role ↦ elim (Bool-cases (eq_ℤ result (negsuc 5))) [
            | inl pending ↦ rw (role, pending) (kept asked x v, streams)
            | inr answered ↦ elim (Bool-cases (eq_ℤ result (pos 0))) [
              | inl stopped ↦
                  rw (role, answered, stopped) (finish-Valid (record x { trace = asked }) o s)
              | inr refused ↦ rw (role, answered, refused) (kept asked x v, streams)
            ]
          ]
        ])

  -- Uninit of a receiver that streams is answered "success" exactly if it does not stream then; its
  -- buffers and threads are gone in that case, and kept on every other answer.
  pub uninit-Valid :
      (x : Context D)
      → Valid x
      → x.initialized ≡ true
      → Valid (uninit env x).1 × ((uninit env x).1.initialized ≡ not (is_success (uninit env x).0))
  unfolding uninit
  uninit-Valid x v streams = simp streams (stop_running-Valid x v streams)
