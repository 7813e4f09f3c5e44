-- ===== src/Api/Update/Rollback.antt =====
-- What a failed `sdrplay_api_Update` of src/compat/sdrplay_api_compat.c leaves behind.
use openrsp.Base.{
  ℕ, negsuc, Bool, true, false, not, if◌then◌else◌, ◌≡◌, ◌≢◌, ◌∙◌, refl, Bool-cases, inl, inr, ◌==◌,
  is_nonneg, has_bit, clear_bit, [], ◌∷◌, arith,
}
use openrsp.Api.{Tuner, success, service_not_responding, is_success}
use openrsp.Api.Params.{Doubles}
use openrsp.Api.Dsp.{factor_of}
use openrsp.Api.Reason
use openrsp.Api.Reason.{any_of}
use openrsp.Api.Validate.{validate_update}
use openrsp.Api.Context.{Context, Env, channel_for_tuner, return}
use openrsp.Api.Processing.{
  configure_iq_correction, configure_adsb, configure_decimator, configure_low_if,
}
use openrsp.Api.Steps.{
  dsp_changes, fs_changed, schedule_sync, reset_sync, reset_slave_latch, set_callback_samples,
  acknowledge_overload, synchronous_categories, after_accept, restore, also,
}
use openrsp.Api.Update.{
  set_agc, set_processing, send_update, try_update, apply_update, wait_boundary, update_tuner,
  left_reason,
}
use openrsp.Api.Update.Changes.{
  dsp_of, agc_of, other_lane, Keeps, schedule-Keeps, reset-Keeps, latch-Keeps, overload-Keeps,
  accept-Keeps, Within, Within-trans, Keeps-Within, iq-Sets, adsb-Sets, decimator-Sets, low_if-Sets,
  samples-Within, Asks-iq, Asks-adsb, Asks-decimation, Asks-low_if, also-Within, if-Within,
  same-Within,
}

-- What a failed update leaves as it was. The size of the callbacks may have followed a sample rate
-- that came with a correction in ppm.
pub record Unchanged {D : Doubles} (reason : ℕ) (tuner : Tuner) (x y : Context D) : Type 0 where
  pub dsp : dsp_of tuner y ≡ dsp_of tuner x
  pub agc : agc_of tuner y ≡ agc_of tuner x
  pub other : other_lane tuner y ≡ other_lane tuner x
  pub samples : has_bit Reason.dev_ppm reason ≡ false → y.callback_samples ≡ x.callback_samples

dsp_of_fs :
    (reason : ℕ)
    → has_bit Reason.dev_ppm reason ≡ false
    → dsp_changes reason ≡ false
    → fs_changed reason ≡ false
unfolding any_of
dsp_of_fs reason p q = ground arith

restore-Unchanged :
    {D : Doubles} (reason : ℕ) (tuner : Tuner) (x y : Context D)
    → Within reason tuner x y
    → Unchanged reason tuner x (restore tuner reason x y).1
unfolding restore
restore-Unchanged reason tuner x y w = elim (Bool-cases (dsp_changes reason)) [
  | inl d ↦ elim (Bool-cases (has_bit Reason.ctrl_agc reason)) [
    | inl a ↦ record {
      dsp = ground (arith, d, a);
      agc = ground (arith, d, a);
      other = ground (arith, d, a, w.other);
      samples = λ h. ground (arith, d, a);
    }
    | inr a ↦ record {
      dsp = ground (arith, d, a);
      agc = ground (arith, d, a, w.agc a);
      other = ground (arith, d, a, w.other);
      samples = λ h. ground (arith, d, a);
    }
  ]
  | inr d ↦ elim (Bool-cases (has_bit Reason.ctrl_agc reason)) [
    | inl a ↦ record {
      dsp = ground (arith, d, a, w.dsp d);
      agc = ground (arith, d, a);
      other = ground (arith, d, a, w.other);
      samples = λ h. ground (arith, d, a, w.samples (dsp_of_fs reason h d));
    }
    | inr a ↦ record {
      dsp = ground (arith, d, a, w.dsp d);
      agc = ground (arith, d, a, w.agc a);
      other = ground (arith, d, a, w.other);
      samples = λ h. ground (arith, d, a, w.samples (dsp_of_fs reason h d));
    }
  ]
]

Keeps-Unchanged :
    {D : Doubles} (reason : ℕ) (tuner : Tuner) (x y z : Context D)
    → Keeps tuner x y
    → Unchanged reason tuner y z
    → Unchanged reason tuner x z
Keeps-Unchanged reason tuner x y z k u = record {
  dsp = u.dsp ∙ k.dsp;
  agc = u.agc ∙ k.agc;
  other = u.other ∙ k.other;
  samples = λ h. u.samples h ∙ k.samples;
}

Keeps-trans :
    {D : Doubles} (tuner : Tuner) (x y z : Context D)
    → Keeps tuner x y
    → Keeps tuner y z
    → Keeps tuner x z
Keeps-trans tuner x y z p q = record {
  dsp = q.dsp ∙ p.dsp;
  agc = q.agc ∙ p.agc;
  other = q.other ∙ p.other;
  samples = q.samples ∙ p.samples;
}

same-Unchanged :
    {D : Doubles} (reason : ℕ) (tuner : Tuner) (x : Context D) → Unchanged reason tuner x x
same-Unchanged reason tuner x = record { dsp = refl; agc = refl; other = refl; samples = λ h. refl }

-- The flags that are scheduled and reset are not the correction in ppm.
ppm-left_reason :
    (reason : ℕ) → has_bit Reason.dev_ppm (left_reason reason) ≡ has_bit Reason.dev_ppm reason
unfolding has_bit clear_bit
ppm-left_reason reason = ground arith

module _ {D : Doubles} (env : Env) where
  agc-Within :
      (tuner : Tuner) (reason : ℕ) (x : Context D)
      → Within reason tuner x (set_agc env tuner reason x).1
  unfolding set_agc
  agc-Within tuner reason x = ground arith

  processing-Within :
      (tuner : Tuner) (reason : ℕ) (x : Context D)
      → Within reason tuner x (set_processing env tuner reason x).1
  unfolding set_processing
  processing-Within tuner reason x =
      (let agc = set_agc env tuner reason x in
        let iq_test =
          any_of (Reason.ctrl_dc_offset_iq_imbalance ∷ Reason.tuner_lo_mode ∷ Reason.dev_fs ∷ [])
            reason in
        let iq = also agc.0 iq_test (configure_iq_correction D tuner) agc.1 in
        let adsb_test = any_of (Reason.ctrl_adsb_mode ∷ Reason.dev_fs ∷ []) reason in
        let adsb = also iq.0 adsb_test (configure_adsb D tuner) iq.1 in
        let acked = (acknowledge_overload tuner reason adsb.1).1 in
        let factor = factor_of D (channel_for_tuner tuner acked) in
        let decimated =
          also adsb.0 (has_bit Reason.ctrl_decimation reason) (configure_decimator D tuner factor)
            acked in
        let low_if_test = any_of (Reason.dev_fs ∷ Reason.tuner_if_type ∷ []) reason in
        let done = also decimated.0 low_if_test (configure_low_if D tuner) decimated.1 in
        Within-trans reason tuner x agc.1 done.1 (agc-Within tuner reason x) (
          Within-trans reason tuner agc.1 iq.1 done.1
            (also-Within reason tuner agc.0 iq_test (configure_iq_correction D tuner) agc.1
              (Asks-iq reason) (iq-Sets tuner agc.1))
            (Within-trans reason tuner iq.1 adsb.1 done.1
              (also-Within reason tuner iq.0 adsb_test (configure_adsb D tuner) iq.1
                (Asks-adsb reason) (adsb-Sets tuner iq.1))
              (Within-trans reason tuner adsb.1 acked done.1
                (Keeps-Within reason tuner adsb.1 acked (overload-Keeps tuner reason adsb.1))
                (Within-trans reason tuner acked decimated.1 done.1
                  (also-Within reason tuner adsb.0 (has_bit Reason.ctrl_decimation reason)
                    (configure_decimator D tuner factor) acked (Asks-decimation reason)
                    (decimator-Sets tuner factor acked))
                  (also-Within reason tuner decimated.0 low_if_test (configure_low_if D tuner)
                    decimated.1 (Asks-low_if reason) (low_if-Sets tuner decimated.1)))))))

  send-Keeps :
      (tuner : Tuner) (reason : ℕ) (x : Context D)
      → Keeps tuner x (send_update env tuner reason x).1
  unfolding send_update
  send-Keeps tuner reason x = record { dsp = refl; agc = refl; other = refl; samples = refl }

  try-Within :
      (tuner : Tuner) (reason : ℕ) (x : Context D)
      → Within reason tuner x (try_update env tuner reason x).1
  unfolding try_update
  try-Within tuner reason x =
      (let sized = (set_callback_samples reason x).1 in
        let ready = set_processing env tuner reason sized in
        let asked = (if ready.0 then send_update env tuner reason else return (negsuc 0)) ready.1 in
        let done =
          (if is_nonneg asked.0 then after_accept tuner reason asked.0 else return asked.0)
            asked.1 in
        Within-trans reason tuner x sized done.1 (samples-Within tuner reason x) (
          Within-trans reason tuner sized ready.1 done.1 (processing-Within tuner reason sized) (
            Within-trans reason tuner ready.1 asked.1 done.1
              (if-Within reason tuner ready.0 (send_update env tuner reason) (return (negsuc 0))
                ready.1
                (Keeps-Within reason tuner ready.1 (send_update env tuner reason ready.1).1
                  (send-Keeps tuner reason ready.1))
                (same-Within reason tuner ready.1))
              (if-Within reason tuner (is_nonneg asked.0) (after_accept tuner reason asked.0)
                (return asked.0) asked.1
                (Keeps-Within reason tuner asked.1 (after_accept tuner reason asked.0 asked.1).1
                  (accept-Keeps tuner reason asked.0 asked.1))
                (same-Within reason tuner asked.1)))))

  apply-Unchanged :
      (tuner : Tuner) (reason categories : ℕ) (x : Context D)
      → (apply_update env tuner reason categories x).0 ≢ success
      → Unchanged reason tuner x (apply_update env tuner reason categories x).1
  unfolding apply_update
  apply-Unchanged tuner reason categories x h =
      elim (Bool-cases (is_nonneg (try_update env tuner reason x).0)) [
        | inl fine ↦ absurd (h (rw fine refl))
        | inr bad ↦ rw bad (
            restore-Unchanged reason tuner x (try_update env tuner reason x).1
              (try-Within tuner reason x))
      ]

  wait-Keeps :
      (tuner : Tuner) (categories : ℕ) (x : Context D)
      → Keeps tuner x (wait_boundary env tuner categories x).1
  unfolding wait_boundary
  wait-Keeps tuner categories x = ground arith

  -- The steps before the settings are applied.
  before : Tuner → ℕ → ℕ → Context D → Context D
  before tuner reason extension x =
      (reset_slave_latch tuner extension
        (reset_sync tuner reason (schedule_sync tuner reason x).1).1).1

  before-Keeps :
      (tuner : Tuner) (reason extension : ℕ) (x : Context D)
      → Keeps tuner x (before tuner reason extension x)
  unfolding before
  before-Keeps tuner reason extension x =
      (let a = (schedule_sync tuner reason x).1 in
        let b = (reset_sync tuner reason a).1 in
        Keeps-trans tuner x a (reset_slave_latch tuner extension b).1
          (schedule-Keeps tuner reason x)
          (Keeps-trans tuner a b (reset_slave_latch tuner extension b).1
            (reset-Keeps tuner reason a) (latch-Keeps tuner extension b)))

  finish-Unchanged :
      (tuner : Tuner) (reason categories : ℕ) (waited none_left : Bool) (x : Context D)
      → let finish =
          if not waited
          then return service_not_responding
          else if none_left
          then return success
          else apply_update env tuner reason categories in
        (finish x).0 ≢ success → Unchanged reason tuner x (finish x).1
  finish-Unchanged tuner reason categories false none_left x h = same-Unchanged reason tuner x
  finish-Unchanged tuner reason categories true true x h = absurd (h refl)
  finish-Unchanged tuner reason categories true false x h =
      apply-Unchanged tuner reason categories x h

  left-Unchanged :
      (tuner : Tuner) (reason : ℕ) (x y : Context D)
      → Unchanged (left_reason reason) tuner x y
      → Unchanged reason tuner x y
  left-Unchanged tuner reason x y u = record {
    dsp = u.dsp;
    agc = u.agc;
    other = u.other;
    samples = λ h. u.samples (ppm-left_reason reason ∙ h);
  }

  -- Whatever the daemon answers, an update of one tuner that is not answered "success" leaves that
  -- tuner's signal processing, its AGC mode and setpoint, everything of the other tuner and, unless it
  -- names the correction in ppm, the size of the callbacks as they were.
  pub update_tuner_failed :
      (tuner : Tuner) (reason extension : ℕ) (x : Context D)
      → (update_tuner env tuner reason extension x).0 ≢ success
      → Unchanged reason tuner x (update_tuner env tuner reason extension x).1
  unfolding update_tuner before
  update_tuner_failed tuner reason extension x h =
      (let checked =
          validate_update D x.mode x.duo_role x.dev_params (channel_for_tuner tuner x) tuner reason
            extension in
        elim (Bool-cases (is_success checked)) [
          | inr bad ↦ rw bad (same-Unchanged reason tuner x)
          | inl fine ↦
              (let y = before tuner reason extension x in
                let categories = synchronous_categories tuner (left_reason reason) y in
                let waited = wait_boundary env tuner categories y in
                rw fine (
                  left-Unchanged tuner reason x _ (
                    Keeps-Unchanged (left_reason reason) tuner x waited.1 _
                      (Keeps-trans tuner x y waited.1 (before-Keeps tuner reason extension x)
                        (wait-Keeps tuner categories y))
                      (finish-Unchanged tuner (left_reason reason) categories waited.0
                        (left_reason reason == 0) waited.1 (λ e. h (rw fine e))))))
        ])
