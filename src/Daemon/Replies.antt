-- ===== src/Daemon/Replies.antt =====
-- What follows a handler in `serve_request` of daemon/openrspd.c leaves alone who owns what.
use openrsp.Base.{ℕ, Bool, true, false, refl, ◌∙◌, ◌&&◌, ◌||◌, ℤ, arith, List, [], ◌∷◌}
use openrsp.Protocol.{DeviceRecord}
use openrsp.Duo.{DuoEvent}
use openrsp.Daemon.State.{Env, Frame, device_event, response, is_ok, M}
use openrsp.Daemon.Stream.{create_stream_thread}
use openrsp.Daemon.Serve.{Request, Reply}
use openrsp.Daemon.Serve.Dispatch.{
  send, send_devices, send_event, run_thread, start_duo_stream, start_single_stream, restart_stream,
  is_list, is_start, finish_request, and_also, if_asked,
}
use openrsp.Daemon.Core.{core, if-core, core-send_duo_event}
use openrsp.Daemon.Upkeep.{Keeps}

module _ (env : Env) where
  core-send : (fd : ℤ) (f : Frame) → Keeps (send env fd f)
  unfolding send
  core-send fd f d = refl

  core-send_devices : (fd : ℤ) (n : ℕ) (rs : List DeviceRecord) → Keeps (send_devices env fd n rs)
  unfolding send_devices
  core-send_devices fd n [] d = refl
  core-send_devices fd n (r ∷ rs) d =
      (let sent = send env fd (device_event n r) d in
        if-core (core d) sent.0 (send_devices env fd n rs sent.1) (false, sent.1)
          (core-send_devices fd n rs sent.1 ∙ core-send fd (device_event n r) d)
          (core-send fd (device_event n r) d))

  core-send_event : (e : DuoEvent) → Keeps (send_event env e)
  unfolding send_event
  core-send_event e d = core-send_duo_event env e d

  core-start_duo_stream : Keeps (start_duo_stream env)
  unfolding start_duo_stream run_thread create_stream_thread
  core-start_duo_stream d = ground arith

  core-start_single_stream : Keeps (start_single_stream env)
  unfolding start_single_stream run_thread create_stream_thread
  core-start_single_stream d = ground arith

  core-restart_stream : Keeps (restart_stream env)
  unfolding restart_stream run_thread create_stream_thread
  core-restart_stream d = ground arith

  core-if_asked : (b : Bool) (m : M Bool) → Keeps m → Keeps (if_asked env b m)
  core-if_asked true m k d = k d
  core-if_asked false m k d = refl

  core-and_also : (m n : M Bool) → Keeps m → Keeps n → Keeps (and_also env m n)
  core-and_also m n k l d = ground (arith, k d, l (m d).1)

  pub core-finish_request : (fd : ℤ) (r : Request) (a : Reply) → Keeps (finish_request env fd r a)
  unfolding finish_request
  core-finish_request fd r a d =
      (let m1 = send env fd (response r.sequence a.status a.changed_flags) in
        let lists = is_list env r.body && is_ok a.status in
        let m2 = if_asked env lists (send_devices env fd r.sequence a.listed) in
        let m3 = if_asked env (is_ok a.status) (send_event env a.event) in
        let duo = a.duo_start_stream && is_ok a.status in
        let m4 = if_asked env duo (start_duo_stream env) in
        let single = is_start env r.body && is_ok a.status in
        let m5 = if_asked env single (start_single_stream env) in
        let again = a.start_stream && (is_ok a.status || a.start_after_error) in
        let m6 = if_asked env again (restart_stream env) in
        let k2 =
          core-if_asked lists (send_devices env fd r.sequence a.listed)
            (core-send_devices fd r.sequence a.listed) in
        let k3 =
          core-if_asked (is_ok a.status) (send_event env a.event) (core-send_event a.event) in
        let k4 = core-if_asked duo (start_duo_stream env) core-start_duo_stream in
        let k5 = core-if_asked single (start_single_stream env) core-start_single_stream in
        let k6 = core-if_asked again (restart_stream env) core-restart_stream in
        let n5 = and_also env m5 m6 in
        let n4 = and_also env m4 n5 in
        let n3 = and_also env m3 n4 in
        core-and_also m1 (and_also env m2 n3)
          (core-send fd (response r.sequence a.status a.changed_flags))
          (core-and_also m2 n3 k2
            (core-and_also m3 n4 k3 (core-and_also m4 n5 k4 (core-and_also m5 m6 k5 k6))))
          d)
