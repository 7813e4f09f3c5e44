-- ===== src/Lib.antt =====
-- OpenRSP drives SDRplay receivers. A daemon owns the receiver and its USB driver; a library that has
-- the vendor's API lets programs use the receiver through the daemon's socket. One client owns the
-- receiver, or, for an RSPduo, a master and a slave share its two tuners.
--
-- The parts, the files that model them, and the code they follow:
--
--   Protocol.antt    include/openrsp/protocol.h: the payloads of the requests.
--   Identity.antt    src/identity.c: which attached receiver a request means.
--   Removal.antt     daemon/removal_tracker.c: when an absent receiver is reported as removed.
--   Duo.antt         daemon/duo_session.c: the master/slave session, operation by operation. Duo/Spec
--                    has the three phases that a client can rely on, Duo/Refine the refinement,
--                    Duo/Invariant the consistent sessions, Duo/Routing who receives which tuner, and
--                    Duo/Lifecycle what becomes of a session.
--   Sync.antt        compat/sync_update.c: settings that take effect at a sample number. The uint32
--                    counters keep their wrap-around.
--   Daemon/          daemon/openrspd.c and daemon/config_validation.c.
--     Config         what a valid configuration is, and the flag words.
--     State          `daemon_state` as the record `Daemon`, and a step as `M`, a function from a state
--                    to an answer and the next state.
--     Stream         stream_main, stop_stream, close_radio, send_stream, send_duo_event.
--     Snapshot       snapshot_sdrplay_devices, resolve_acquired_device.
--     Radio          configure_radio, configure_dual_radio, apply_update.
--     Release        release_client, release_api_lock, shutdown_radio, remove_client.
--     Serve/         serve_request: Duo and Owner have the handlers, Dispatch the choice of the handler,
--                    the response and what follows it.
--     Recovery       recover_failed_stream, finish_recovery_config, report_removed_device.
--     Exclusion      the turns of run_server's loop and of the streaming thread.
--     Programmed     which settings the driver was asked for last, read off the list of the calls.
--   The other modules of Daemon/ have the proofs: Inventory, Core, Handlers, Upkeep, Replies, Ownership
--   and Turns what each step keeps of who owns what; Transfer what one transfer asks for and marks; Access,
--   Streaming, Lanes, Tuning, Swapping, Updating and Leaving the properties of single requests.
--
--   Client           src/client_posix.c: how a message is written to a socket and read from it. Transfer
--                    has the transfer in parts, Messages the sending and receiving.
--   Api/             compat/sdrplay_api_compat.c, the library with the vendor's API.
--     Context        `compat_device_context` as the record `Context`, and a step as `M`; Params has the
--                    parameters that the application sets, Reason the words of reasons.
--     Events         queue_api_event, event_thread_main, stop_event_thread. Events/Refine has the
--                    abstract queue, Events/Drain the delivery.
--     Stream         queue_stream_callback, stream_callback_thread_main, and their threads' start, pause
--                    and stop. Stream/Queue and Stream/Chunks have the proofs.
--     Receive        daemon_stream_callback and the other callbacks of the daemon's client.
--                    Receive/Timeline has the count of samples.
--     Dsp, Gain      the checks of compat/iq_correction.c, compat/adsb_filter.c and compat/gain_values.c.
--     Processing     how a tuner's signal processing is set up.
--     Settings       fill_radio_config_tuner and the flag words.
--     Validate       validate_update.
--     Steps, Update  sdrplay_api_Update for one tuner. Update/Rollback and Update/Retune have the proofs.
--     Select         sdrplay_api_SelectDevice, sdrplay_api_ReleaseDevice, sdrplay_api_Close.
--     Prepare, Init  sdrplay_api_Init and sdrplay_api_Uninit. Lifecycle/ has the proofs, and Calls the
--                    sequences of calls.
--     Whole          whole numbers in place of doubles, for the tests.
--
-- The daemon calls the USB driver (third_party/libmirisdr), the sockets, the threads and the clock.
-- These are not modelled: each call is an `Effect`, the state carries the list of the effects so far,
-- and an `Env` answers a call as any function of that list and of the call. So an answer can be
-- anything and can change, and a theorem holds for every driver unless it names what the driver does.
--
-- Bounds: the daemon tries to configure a receiver three times and loads the firmware of at most 32
-- receivers in one inventory. Both numbers are the code's, so the recursion on them needs no further
-- bound. The inventory goes through as many raw indices as the driver counts, and every other loop is a
-- recursion on a list.
--
-- The model is the POSIX build. A turn of the loop, a transfer of the streaming thread and the end of
-- that thread are atomic steps: the locks and the two threads' interleaving inside a step are left out.
-- A request is its header's validity, its type and its payload; the reading of bytes from a socket, the
-- table of connected sockets, the polling, the signals and the log lines are left out. Not modelled are
-- also the daemon's client in the library (compat/daemon_backend.c), the library's sessions and discovery
-- (src/session.c, src/discovery.c, src/device_db.c), the Windows recovery
-- (daemon/windows_device_recovery.c), and the tools.
--
-- The library asks the daemon and the operating system by `Call`s, and an `Env` of its own answers them
-- as any function of the calls so far. Its doubles are a parameter, the record `Doubles`; what it names
-- are C's operations, and no theorem assumes more of them. The filters' coefficients, the processing of
-- samples and the calibrated gains, which are floating-point arithmetic, are left out, and so are
-- the AGC loop, sdrplay_api_Update for both tuners at once, sdrplay_api_Open, sdrplay_api_GetDevices and
-- the three swaps. What the filters make of a frame is an argument of `daemon_stream_callback`. A call of the API is one atomic step. The
-- loops of the library's model are recursions on lists, or on the number of queued frames and events.
pub mod Base
pub mod Duo
pub mod Sync
pub mod Removal
pub mod Protocol
pub mod Identity
pub mod Daemon
mod Tests
pub mod Client
pub mod Api
