-- ===== src/Api/Update/Changes.antt =====
-- What each step of `sdrplay_api_Update` of src/compat/sdrplay_api_compat.c may change.
use openrsp.Base.{ℕ, ℤ, Bool, true, false, if◌then◌else◌, ◌≡◌, ◌∙◌, refl, has_bit, [], ◌∷◌, arith}
use openrsp.Api.{Tuner, is_b}
use openrsp.Api.Params.{Doubles}
use openrsp.Api.Reason
use openrsp.Api.Reason.{any_of}
use openrsp.Api.Context.{Dsp, Lane, Context, M, lane}
use openrsp.Api.Processing.{
  configure_iq_correction, configure_adsb, configure_decimator, configure_low_if,
}
use openrsp.Api.Steps.{
  dsp_changes, fs_changed, schedule_sync, reset_sync, reset_slave_latch, set_callback_samples,
  acknowledge_overload, after_accept, emit_update_ack, count_changes, also,
}

-- The settings that an update may change, of the tuner and of its stream.
abbrev pub dsp_of : {D : Doubles} → Tuner → Context D → Dsp D
dsp_of tuner x = (lane tuner x).dsp

abbrev pub agc_of : {D : Doubles} → Tuner → Context D → ℕ × ℤ
agc_of tuner x = ((lane tuner x).agc_mode, (lane tuner x).agc_setpoint)

-- The other tuner's.
abbrev pub other_lane : {D : Doubles} → Tuner → Context D → Lane D
other_lane tuner x = if is_b tuner then x.lane_a else x.lane_b

module _ {D : Doubles} where
  -- A step that keeps the tuner's processing, its AGC, the other tuner and the size of the callbacks.
  pub record Keeps (tuner : Tuner) (x y : Context D) : Type 0 where
    pub dsp : dsp_of tuner y ≡ dsp_of tuner x
    pub agc : agc_of tuner y ≡ agc_of tuner x
    pub other : other_lane tuner y ≡ other_lane tuner x
    pub samples : y.callback_samples ≡ x.callback_samples

  pub schedule-Keeps :
      (tuner : Tuner) (reason : ℕ) (x : Context D) → Keeps tuner x (schedule_sync tuner reason x).1
  unfolding schedule_sync
  schedule-Keeps tuner reason x = ground arith

  pub reset-Keeps :
      (tuner : Tuner) (reason : ℕ) (x : Context D) → Keeps tuner x (reset_sync tuner reason x).1
  unfolding reset_sync
  reset-Keeps tuner reason x = ground arith

  pub latch-Keeps :
      (tuner : Tuner) (extension : ℕ) (x : Context D)
      → Keeps tuner x (reset_slave_latch tuner extension x).1
  unfolding reset_slave_latch
  latch-Keeps tuner reason x = ground arith

  pub overload-Keeps :
      (tuner : Tuner) (reason : ℕ) (x : Context D)
      → Keeps tuner x (acknowledge_overload tuner reason x).1
  unfolding acknowledge_overload
  overload-Keeps tuner reason x = ground arith

  pub accept-Keeps :
      (tuner : Tuner) (reason : ℕ) (r : ℤ) (x : Context D)
      → Keeps tuner x (after_accept tuner reason r x).1
  unfolding after_accept emit_update_ack count_changes
  accept-Keeps tuner reason r x = ground arith

  -- A step for these reasons: it changes the processing, the AGC and the size of the callbacks only if
  -- one of the reasons asks for it.
  pub record Within (reason : ℕ) (tuner : Tuner) (x y : Context D) : Type 0 where
    pub dsp : dsp_changes reason ≡ false → dsp_of tuner y ≡ dsp_of tuner x
    pub agc : has_bit Reason.ctrl_agc reason ≡ false → agc_of tuner y ≡ agc_of tuner x
    pub other : other_lane tuner y ≡ other_lane tuner x
    pub samples : fs_changed reason ≡ false → y.callback_samples ≡ x.callback_samples

  pub Within-trans :
      (reason : ℕ) (tuner : Tuner) (x y z : Context D)
      → Within reason tuner x y
      → Within reason tuner y z
      → Within reason tuner x z
  Within-trans reason tuner x y z p q = record {
    dsp = λ h. q.dsp h ∙ p.dsp h;
    agc = λ h. q.agc h ∙ p.agc h;
    other = q.other ∙ p.other;
    samples = λ h. q.samples h ∙ p.samples h;
  }

  pub Keeps-Within :
      (reason : ℕ) (tuner : Tuner) (x y : Context D) → Keeps tuner x y → Within reason tuner x y
  Keeps-Within reason tuner x y k = record {
    dsp = λ h. k.dsp;
    agc = λ h. k.agc;
    other = k.other;
    samples = λ h. k.samples;
  }

  -- A step that sets up the processing.
  pub record Sets (tuner : Tuner) (x y : Context D) : Type 0 where
    pub agc : agc_of tuner y ≡ agc_of tuner x
    pub other : other_lane tuner y ≡ other_lane tuner x
    pub samples : y.callback_samples ≡ x.callback_samples

  pub iq-Sets : (tuner : Tuner) (x : Context D) → Sets tuner x (configure_iq_correction D tuner x).1
  unfolding configure_iq_correction
  iq-Sets tuner x = ground arith

  pub adsb-Sets : (tuner : Tuner) (x : Context D) → Sets tuner x (configure_adsb D tuner x).1
  unfolding configure_adsb
  adsb-Sets tuner x = ground arith

  pub decimator-Sets :
      (tuner : Tuner) (n : ℕ) (x : Context D) → Sets tuner x (configure_decimator D tuner n x).1
  unfolding configure_decimator
  decimator-Sets tuner n x = ground arith

  pub low_if-Sets : (tuner : Tuner) (x : Context D) → Sets tuner x (configure_low_if D tuner x).1
  unfolding configure_low_if
  low_if-Sets tuner x = ground arith

  pub samples-Within :
      (tuner : Tuner) (reason : ℕ) (x : Context D)
      → Within reason tuner x (set_callback_samples reason x).1
  unfolding set_callback_samples
  samples-Within tuner reason x = ground arith

-- One of the reasons of a step is one of the reasons of the processing.
abbrev pub Asks : ℕ → Bool → Type 0
Asks reason test = test ≡ true → dsp_changes reason ≡ true

pub Asks-iq :
    (reason : ℕ)
    → Asks reason (
        any_of
          (Reason.ctrl_dc_offset_iq_imbalance ∷ Reason.tuner_lo_mode ∷ Reason.dev_fs ∷ [])
          reason)
unfolding any_of
Asks-iq reason h = ground arith

pub Asks-adsb :
    (reason : ℕ) → Asks reason (any_of (Reason.ctrl_adsb_mode ∷ Reason.dev_fs ∷ []) reason)
unfolding any_of
Asks-adsb reason h = ground arith

pub Asks-decimation : (reason : ℕ) → Asks reason (has_bit Reason.ctrl_decimation reason)
unfolding any_of
Asks-decimation reason h = ground arith

pub Asks-low_if :
    (reason : ℕ) → Asks reason (any_of (Reason.dev_fs ∷ Reason.tuner_if_type ∷ []) reason)
unfolding any_of
Asks-low_if reason h = ground arith

pub also-Within :
    {D : Doubles} (reason : ℕ) (tuner : Tuner) (done test : Bool) (step : M D Bool) (x : Context D)
    → Asks reason test
    → Sets tuner x (step x).1
    → Within reason tuner x (also done test step x).1
also-Within reason tuner true true step x asks s = record {
  dsp = λ h. absurd (ground (arith, asks refl));
  agc = λ h. s.agc;
  other = s.other;
  samples = λ h. s.samples;
}
also-Within reason tuner true false step x asks s = record {
  dsp = λ h. refl;
  agc = λ h. refl;
  other = refl;
  samples = λ h. refl;
}
also-Within reason tuner false test step x asks s = record {
  dsp = λ h. refl;
  agc = λ h. refl;
  other = refl;
  samples = λ h. refl;
}

pub if-Within :
    {D : Doubles} {A : Type 0} (reason : ℕ) (tuner : Tuner) (b : Bool) (m n : M D A) (x : Context D)
    → Within reason tuner x (m x).1
    → Within reason tuner x (n x).1
    → Within reason tuner x ((if b then m else n) x).1
if-Within reason tuner true m n x p q = p
if-Within reason tuner false m n x p q = q

pub same-Within :
    {D : Doubles} (reason : ℕ) (tuner : Tuner) (x : Context D) → Within reason tuner x x
same-Within reason tuner x = record {
  dsp = λ h. refl;
  agc = λ h. refl;
  other = refl;
  samples = λ h. refl;
}
