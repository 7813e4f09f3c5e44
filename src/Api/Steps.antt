-- ===== src/Api/Steps.antt =====
-- What `sdrplay_api_Update` of src/compat/sdrplay_api_compat.c does beside asking the daemon: the
-- bookkeeping of synchronised updates, of overloads and of what changed, and what a failure puts back.
use openrsp.Base.{
  ℕ, ℤ, pos, negsuc, Bool, true, false, not, ◌&&◌, ◌||◌, if◌then◌else◌, eq_ℤ, has_bit, add_u32, [],
  ◌∷◌,
}
use openrsp.Sync
use openrsp.Api.{Tuner, ErrT, gain_update_error, rf_update_error, fs_update_error, hw_error}
use openrsp.Api.Params.{Doubles, DevParams, Channel}
use openrsp.Api.Dsp.{is_set}
use openrsp.Api.Gain.{gain_has_values}
use openrsp.Api.Reason
use openrsp.Api.Reason.{any_of}
use openrsp.Api.Settings.{when_set}
use openrsp.Api.Stream.{queue_stream_callback}
use openrsp.Api.Events.{queue_api_event, power_overload_change}
use openrsp.Api.Context.{
  overload_params, Context, M, ◌>>=◌, ◌>>◌, return, get, modify, when, lane, on_lane,
  channel_for_tuner, set_channel,
}

unfoldable pub update_failure_code : ℕ → ErrT
unfolding any_of
update_failure_code reason =
    if any_of (Reason.tuner_gr ∷ Reason.tuner_gr_limits ∷ []) reason
    then gain_update_error
    else if has_bit Reason.tuner_frf reason
    then rf_update_error
    else if any_of (Reason.dev_fs ∷ Reason.dev_ppm ∷ []) reason
    then fs_update_error
    else hw_error

-- `fs_changed`, `rf_changed` and `gr_changed`
abbrev pub fs_changed : ℕ → Bool
fs_changed reason = any_of (Reason.dev_fs ∷ Reason.dev_ppm ∷ []) reason

abbrev pub rf_changed : ℕ → Bool
rf_changed reason = has_bit Reason.tuner_frf reason

abbrev pub gr_changed : ℕ → Bool
gr_changed reason =
    any_of (Reason.tuner_gr ∷ Reason.tuner_gr_limits ∷ []) reason || rf_changed reason

-- `dsp_reasons`
abbrev pub dsp_changes : ℕ → Bool
dsp_changes reason =
    any_of
      (Reason.ctrl_dc_offset_iq_imbalance ∷ Reason.tuner_lo_mode ∷ Reason.ctrl_adsb_mode
        ∷ Reason.ctrl_decimation ∷ Reason.dev_fs ∷ Reason.tuner_if_type ∷ [])
      reason

abbrev pub differs : Bool → Bool → Bool
differs a b = if a then not b else b

-- All three categories of synchronised updates.
abbrev all_categories : ℕ
all_categories = 7

-- The time of a clock, in milliseconds.
abbrev pub nat_of : ℤ → ℕ
nat_of (pos n) = n
nat_of (negsuc n) = 0

module _ {D : Doubles} where
  unfoldable pub schedule_sync : Tuner → ℕ → M D (Unit {0})
  schedule_sync tuner reason = when (has_bit Reason.dev_sync_update reason) (
      modify (λ x.
        on_lane tuner
          (λ l. record l {
            sync_update =
                Sync.schedule l.sync_update all_categories x.dev_params.sync_sample_num
                  x.dev_params.sync_period;
          })
          x))

  -- The categories whose flags the application asks to reset.
  abbrev reset_categories : Context D → ℕ
  reset_categories x = when_set (is_set x.dev_params.reset_fs_update) 2 (
      when_set (is_set x.dev_params.reset_rf_update) 1
        (when_set (is_set x.dev_params.reset_gain_update) 0 0))

  abbrev cleared_channel : ℕ → Channel D → Channel D
  cleared_channel categories c = record c {
    gain_sync_update = if has_bit 0 categories then 0 else c.gain_sync_update;
    agc_sync_update = if has_bit 0 categories then pos 0 else c.agc_sync_update;
    rf_sync_update = if has_bit 1 categories then 0 else c.rf_sync_update;
  }

  abbrev cleared_dev : ℕ → DevParams D → DevParams D
  cleared_dev categories dev = record dev {
    fs_sync_update = if has_bit 2 categories then 0 else dev.fs_sync_update;
    reset_gain_update = 0;
    reset_rf_update = 0;
    reset_fs_update = 0;
  }

  unfoldable pub reset_sync : Tuner → ℕ → M D (Unit {0})
  reset_sync tuner reason = when (has_bit Reason.dev_reset_flags reason) (
      modify (λ x.
        (let categories = reset_categories x in
          set_channel tuner (cleared_channel categories (channel_for_tuner tuner x))
            (record (on_lane tuner
              (λ l. record l { sync_update = Sync.reset l.sync_update categories }) x) {
                dev_params = cleared_dev categories x.dev_params;
              }))))

  unfoldable pub reset_slave_latch : Tuner → ℕ → M D (Unit {0})
  reset_slave_latch tuner extension = when (has_bit Reason.reset_slave_flags extension) (
      modify (λ x.
        set_channel tuner
          (record (channel_for_tuner tuner x) {
            reset_slave_gain_update = 0;
            reset_slave_rf_update = 0;
          })
          x))

  -- The categories that wait for their boundary.
  unfoldable pub synchronous_categories : Tuner → ℕ → Context D → ℕ
  synchronous_categories tuner reason x =
      (let c = channel_for_tuner tuner x in
        when_set (has_bit Reason.dev_fs reason && is_set x.dev_params.fs_sync_update) 2 (
          when_set (has_bit Reason.tuner_frf reason && is_set c.rf_sync_update) 1 (
            when_set
              ((has_bit Reason.tuner_gr reason && is_set c.gain_sync_update)
                || (has_bit Reason.ctrl_agc reason && not (eq_ℤ c.agc_sync_update (pos 0))))
              0 0)))

  -- `atomic_store(&rspduo.callback_samples, ...)`
  unfoldable pub set_callback_samples : ℕ → M D (Unit {0})
  set_callback_samples reason = when (fs_changed reason) (
      modify (λ x. record x {
        callback_samples = if D.less (D.of_ℕ 9216000) x.dev_params.fs_hz then 2016 else 1344;
      }))

  -- The reported state of an overload follows the state when its event is queued.
  abbrev pub emit_overload_event : Tuner → Bool → M D (Unit {0})
  emit_overload_event tuner overloaded x =
      (let (queued, events) =
          queue_api_event power_overload_change tuner (overload_params overloaded) x.events in
        (
          tt,
          on_lane tuner
              (λ l. record l {
                overload_reported_state = if queued then overloaded else l.overload_reported_state;
                overload_event_pending = queued;
              })
              (record x { events = events }),
        ))

  unfoldable pub acknowledge_overload : Tuner → ℕ → M D (Unit {0})
  acknowledge_overload tuner reason = when (has_bit Reason.ctrl_overload_msg_ack reason) (do
    modify (on_lane tuner (λ l. record l { overload_event_pending = false }))
    x ← get
    when (differs (lane tuner x).overload_state (lane tuner x).overload_reported_state)
        (emit_overload_event tuner (lane tuner x).overload_state))

  -- A frame without samples that tells what changed.
  unfoldable pub emit_update_ack : Tuner → ℕ → M D (Unit {0})
  emit_update_ack tuner reason = modify (λ x. record x {
    stream =
        queue_stream_callback
          (record {
            iq = [];
            tuner = tuner;
            first_sample = (lane tuner x).sample_number;
            reset = false;
            gr_changed = gr_changed reason;
            rf_changed = rf_changed reason;
            fs_changed = fs_changed reason;
          })
          x.stream;
  })

  unfoldable pub count_changes : Tuner → ℕ → M D (Unit {0})
  count_changes tuner reason = modify (
      on_lane tuner (λ l. record l {
        pending_fs_changed =
            if fs_changed reason then add_u32 l.pending_fs_changed 1 else l.pending_fs_changed;
        pending_rf_changed =
            if rf_changed reason then add_u32 l.pending_rf_changed 1 else l.pending_rf_changed;
        pending_gr_changed =
            if gr_changed reason then add_u32 l.pending_gr_changed 1 else l.pending_gr_changed;
      }))

  -- After an update that the daemon took (0) or queued (above 0): are there gains for the settings?
  unfoldable pub after_accept : Tuner → ℕ → ℤ → M D ℤ
  after_accept tuner reason result = do
    x ← get
    let gains =
        if gr_changed reason || rf_changed reason || has_bit Reason.rspduo_am_port_select reason
        then gain_has_values D (channel_for_tuner tuner x) tuner
        else true
    let outcome = if gains then result else negsuc 0
    (if gains && not (eq_ℤ result (pos 0))
        then emit_update_ack tuner reason
        else count_changes tuner reason)
    return outcome

  -- What an update that fails puts back.
  unfoldable pub restore : Tuner → ℕ → Context D → M D (Unit {0})
  restore tuner reason saved = do
    when (has_bit Reason.ctrl_agc reason) (
        modify (
          on_lane tuner (λ l. record l {
            agc_mode = (lane tuner saved).agc_mode;
            agc_setpoint = (lane tuner saved).agc_setpoint;
            agc_last_adjust_ms = 0;
            agc_decay_since_ms = 0;
          })))
    when (dsp_changes reason) (
        modify (λ x. record (on_lane tuner (λ l. record l { dsp = (lane tuner saved).dsp }) x) {
          callback_samples = saved.callback_samples;
        }))

  -- `if (result >= 0 && test) result = step`
  abbrev pub also : Bool → Bool → M D Bool → M D Bool
  also done test step = if done && test then step else return done
