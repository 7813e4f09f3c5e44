-- ===== src/Daemon/Tests.antt =====
-- A small world for daemon/openrspd.c: one RSPduo, whose driver and clients answer 0 to everything.
use openrsp.Base.{
  ℕ, true, false, ◌≡◌, refl, pos, List, ℤ, negsuc, [], ◌∷◌, some, none, ◌==◌, arith, if◌then◌else◌,
  eq_ℤ,
}
use openrsp.Protocol.{AcquireRequest, RadioConfig, DualConfig, ModeSwapRequest, UpdateRequest}
use openrsp.Identity.{resolve, resolve_from, matches, str_eq, terminated}
use openrsp.Duo.{role_for_descriptor, role_none}
use openrsp.Daemon.Config.{config_valid, valid_dual_config}
use openrsp.Daemon.State.{
  Effect, configure_rspduo, is_ok, Env, Daemon, daemon_init, blank_config, RawDevice, busy,
  cancel_async, streaming_stop, read_async, thread_join,
}
use openrsp.Daemon.Stream.{
  stop_stream, send_stream, join_stream_thread, stream_main_end, close_radio,
}
use openrsp.Daemon.Snapshot.{
  resolve_acquired_device, snapshot_sdrplay_devices, fresh_inventory, boot_cold, boot_once,
  count_devices, first_cold, inventory,
}
use openrsp.Daemon.Radio.{
  configure_radio, leave_mode, configure_attempts, ensure_open, open_radio, apply_config,
}
use openrsp.Daemon.Release.{remove_client}
use openrsp.Daemon.Serve.{Body, acquire, configure, start, Request, reply}
use openrsp.Daemon.Serve.Duo.{prepared}
use openrsp.Daemon.Serve.Owner.{serve_swap_mode, take_down, roll_back, serve_update}
use openrsp.Daemon.Serve.Dispatch.{handle}
use openrsp.Daemon.Core.{core}
use openrsp.Daemon.Ownership.{Exclusive, daemon_init-Exclusive}
use openrsp.Daemon.Exclusion.{
  request, hang_up, upkeep, thread_end, shut_down, transfer, turns, turns-Exclusive,
}
use openrsp.Daemon.Access.{intruder}
use openrsp.Daemon.Streaming.{Sent, stop_stream_lem, send_stream_lem}
use openrsp.Daemon.Lanes.{prepared_lem}
use openrsp.Duo.Invariant.{session_init-IsValid}
use openrsp.Daemon.Tuning.{Closes, Opens, Single, configure_radio_lem}
use openrsp.Daemon.Updating.{serve_update_lem}
use openrsp.Daemon.Swapping.{Swapped, Restored, serve_swap_mode_lem, serve_swap_mode_restores}
use openrsp.Daemon.Leaving.{remove_client_lem}

abbrev duo_serial : List ℕ
duo_serial = 49 ∷ 50 ∷ 0 ∷ []

abbrev rsp_duo : RawDevice
rsp_duo = record {
  vendor_id = 0x1df7;
  product_id = 0x3020;
  product = 68 ∷ 0 ∷ [];
  serial = duo_serial;
}

abbrev world : Env
world = record {
  answer = λ asked effect. pos 0;
  device_count = λ asked. 1;
  device_info = λ asked i. if◌then◌else◌ (i == 0) (some rsp_duo) none;
  is_cold = λ asked i. false;
  clock = λ asked. none;
}

abbrev identity : AcquireRequest
identity = record { device_index = 0; vendor_id = 0x1df7; product_id = 0x3020; serial = duo_serial }

abbrev fm : RadioConfig
fm = record blank_config {
  sample_rate_hz = 2000000;
  center_frequency_hz = 100000000;
  bandwidth_hz = 1536000;
  gain_reduction_db = pos 40;
  tuner = 1;
}

-- Client 5 owns the receiver and streams.
abbrev owned : Daemon
owned = record daemon_init { owner = pos 5 }

abbrev streams : Daemon
streams = record owned {
  radio = true;
  configured = true;
  config = fm;
  streaming = true;
  stream_thread_started = true;
  thread_live = true;
}

intruder_example : handle world (pos 6) (configure fm) owned ≡ (reply busy, owned)
intruder_example = intruder world (pos 6) (configure fm) owned refl refl refl refl

stop_stream_lem_example :
    ((stop_stream world streams).1.trace
      ≡ read_async ∷ thread_join ∷ cancel_async ∷ streaming_stop ∷ [])
    × ((stop_stream world streams).1.thread_live ≡ false)
    × ((stop_stream world streams).1.stream_thread_started ≡ false)
    × ((stop_stream world streams).1.streaming ≡ false)
    × ((stop_stream world streams).1.radio ≡ true)
stop_stream_lem_example = stop_stream_lem world streams refl refl refl refl

send_stream_lem_example :
    Sent world 1 (7 ∷ 8 ∷ []) streams (send_stream world 1 (7 ∷ 8 ∷ []) streams).1
send_stream_lem_example = send_stream_lem world 1 (7 ∷ 8 ∷ []) streams session_init-IsValid

prepared_lem_example :
    valid_dual_config (
      prepared true false 6000000
        (record { sample_rate_hz = 0; channel_a = fm; channel_b = blank_config }))
    ≡ true
unfolding config_valid
prepared_lem_example =
    prepared_lem 6000000 (record { sample_rate_hz = 0; channel_a = fm; channel_b = blank_config })
      true false refl (λ e. refl) (λ e. ground arith) refl

abbrev header : Body → Request
header b = record { well_formed = true; sequence = 1; body = b }

abbrev closes : Closes world
closes asked = refl

-- Client 5 takes the receiver, configures and starts it; client 6 asks for it, then 5 goes.
turns-Exclusive_example : Exclusive (
    core (
      turns world
        (request (pos 5) (header (acquire identity))
          ∷ request (pos 5) (header (configure fm))
          ∷ request (pos 5) (header start)
          ∷ request (pos 6) (header (acquire identity))
          ∷ transfer 1 (7 ∷ 8 ∷ [])
          ∷ thread_end
          ∷ upkeep (pos 5 ∷ pos 6 ∷ [])
          ∷ hang_up (pos 5)
          ∷ shut_down (pos 6 ∷ [])
          ∷ [])
        daemon_init))
turns-Exclusive_example = turns-Exclusive world (
    request (pos 5) (header (acquire identity))
    ∷ request (pos 5) (header (configure fm))
    ∷ request (pos 5) (header start)
    ∷ request (pos 6) (header (acquire identity))
    ∷ transfer 1 (7 ∷ 8 ∷ [])
    ∷ thread_end
    ∷ upkeep (pos 5 ∷ pos 6 ∷ [])
    ∷ hang_up (pos 5)
    ∷ shut_down (pos 6 ∷ [])
    ∷ [])

configure_radio_lem_example :
    Opens (configure_radio world fm owned) × Single (configure_radio world fm owned)
unfolding config_valid
configure_radio_lem_example = configure_radio_lem world closes fm owned refl

abbrev both : DualConfig
both = record {
  sample_rate_hz = 6000000;
  channel_a = record fm { sample_rate_hz = 6000000; if_frequency_hz = pos 1620000 };
  channel_b = record fm { sample_rate_hz = 6000000; if_frequency_hz = pos 1620000; tuner = 2 };
}

remove_client_lem_example :
    (eq_ℤ (remove_client world (pos 5) daemon_init).1.owner (pos 5) ≡ false)
    × (eq_ℤ (remove_client world (pos 5) daemon_init).1.api_lock_owner (pos 5) ≡ false)
    × (role_for_descriptor (remove_client world (pos 5) daemon_init).1.duo (pos 5) ≡ role_none)
remove_client_lem_example = remove_client_lem world (pos 5) daemon_init daemon_init-Exclusive refl

abbrev to_single : ModeSwapRequest
to_single = record { mode = 1; single = fm; dual = both }

abbrev swapping : Daemon
swapping = record streams { acquired_identity = identity; dual_mode = true }

serve_swap_mode_lem_example :
    Swapped world to_single (serve_swap_mode world to_single swapping).1
    × ((serve_swap_mode world to_single swapping).1.mode_swap_paused ≡ true)
    × ((serve_swap_mode world to_single swapping).0.start_stream ≡ false)
unfolding serve_swap_mode take_down stop_stream join_stream_thread stream_main_end close_radio
    configure_radio leave_mode configure_attempts ensure_open open_radio apply_config config_valid
    resolve_acquired_device snapshot_sdrplay_devices fresh_inventory boot_cold boot_once
    count_devices first_cold inventory resolve resolve_from matches str_eq terminated
serve_swap_mode_lem_example = serve_swap_mode_lem world to_single swapping closes refl

abbrev retuned : RadioConfig
retuned = record fm { center_frequency_hz = 200000000 }

abbrev later : UpdateRequest
later = record { changed_flags = 2; config = retuned }

serve_update_lem_example : (serve_update world later owned).1.config ≡ retuned
unfolding serve_update config_valid
serve_update_lem_example = serve_update_lem world later owned refl refl

-- The receiver cannot be tuned to 200 MHz.
abbrev refuses : List Effect → Effect → ℤ
refuses asked (configure_rspduo rate f if_hz bandwidth gain lna) =
    if f == 200000000 then negsuc 0 else pos 0
refuses asked _ = pos 0

abbrev narrow : Env
narrow = record world { answer = refuses }

abbrev to_retuned : ModeSwapRequest
to_retuned = record { mode = 1; single = retuned; dual = both }

abbrev playing : Daemon
playing = record streams { acquired_identity = identity }

serve_swap_mode_restores_example :
    Restored narrow playing (serve_swap_mode narrow to_retuned playing).1
    × ((serve_swap_mode narrow to_retuned playing).0.start_after_error ≡ true)
    × (playing.stream_thread_started ≡ true)
    × (is_ok (serve_swap_mode narrow to_retuned playing).0.status ≡ false)
unfolding serve_swap_mode take_down roll_back stop_stream join_stream_thread stream_main_end
    close_radio configure_radio leave_mode configure_attempts ensure_open open_radio apply_config
    config_valid resolve_acquired_device snapshot_sdrplay_devices fresh_inventory boot_cold
    boot_once count_devices first_cold inventory resolve resolve_from matches str_eq terminated
serve_swap_mode_restores_example =
    serve_swap_mode_restores narrow (λ asked. refl) to_retuned playing refl
