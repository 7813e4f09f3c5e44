-- ===== src/Api/Update/Retune.antt =====
-- A retune of `sdrplay_api_Update` of src/compat/sdrplay_api_compat.c into a band that has no such LNA
-- state.
use openrsp.Base.{ℕ, negsuc, true, false, ◌≡◌, ◌∷◌, is_nonneg, arith, has_bit, clear_bit, set_bit}
use openrsp.Api.{Tuner, success, rf_update_error}
use openrsp.Api.Params.{Doubles}
use openrsp.Api.Gain.{gain_has_values}
use openrsp.Api.Settings.{fill_radio_config_tuner, protocol_change_flags}
use openrsp.Api.Validate.{validate_update}
use openrsp.Api.Context.{Context, Env, Call, update, channel_for_tuner}
use openrsp.Api.Steps.{
  schedule_sync, reset_sync, reset_slave_latch, synchronous_categories, set_callback_samples,
  acknowledge_overload, after_accept, restore, count_changes, update_failure_code,
}
use openrsp.Api.Reason.{any_of}
use openrsp.Api.Update.{
  set_agc, set_processing, send_update, try_update, apply_update, wait_boundary, update_tuner,
}

-- sdrplay_api_Update_Tuner_Frf, and nothing else.
abbrev pub retune : ℕ
retune = 0x20000

-- The request that a retune makes.
abbrev pub retune_call : {D : Doubles} → Tuner → Context D → Call
retune_call {D} tuner x =
    update x.duo_role
      (fill_radio_config_tuner D x.dev_params (channel_for_tuner tuner x) x.duo_role tuner)
      (protocol_change_flags retune)

module _ {D : Doubles} (env : Env) where
  try_retune :
      (tuner : Tuner) (x : Context D)
      → is_nonneg (env x.trace (retune_call tuner x)) ≡ true
      → gain_has_values D (channel_for_tuner tuner x) tuner ≡ false
      → ((try_update env tuner retune x).0 ≡ negsuc 0)
        × ((try_update env tuner retune x).1.trace ≡ retune_call tuner x ∷ x.trace)
  unfolding try_update set_callback_samples set_processing set_agc acknowledge_overload any_of
      has_bit send_update after_accept count_changes
  try_retune tuner x taken no_gains = ground arith

  -- An application that only retunes, by a valid update and without a sample boundary, to a frequency for
  -- whose LNA state there is no gain, is told that the update failed; but the daemon was asked for the new
  -- frequency, and accepted.
  pub update_tuner-retune :
      (tuner : Tuner) (x : Context D)
      → validate_update D x.mode x.duo_role x.dev_params (channel_for_tuner tuner x) tuner retune 0
        ≡ success
      → (channel_for_tuner tuner x).rf_sync_update ≡ 0
      → is_nonneg (env x.trace (retune_call tuner x)) ≡ true
      → gain_has_values D (channel_for_tuner tuner x) tuner ≡ false
      → ((update_tuner env tuner retune 0 x).0 ≡ rf_update_error)
        × ((update_tuner env tuner retune 0 x).1.trace ≡ retune_call tuner x ∷ x.trace)
  unfolding update_tuner schedule_sync reset_sync reset_slave_latch synchronous_categories
      wait_boundary apply_update restore any_of has_bit clear_bit set_bit update_failure_code
  update_tuner-retune tuner x valid at_once taken no_gains =
      ground (arith, try_retune tuner x taken no_gains)
