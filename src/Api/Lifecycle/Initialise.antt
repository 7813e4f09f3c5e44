-- ===== src/Api/Lifecycle/Initialise.antt =====
-- `sdrplay_api_Init` of src/compat/sdrplay_api_compat.c, from its checks to the start of the stream.
use openrsp.Base.{
  ℕ, Bool, true, false, if◌then◌else◌, ◌≡◌, ◌∙◌, refl, sym, Bool-cases, inl, inr, pos, eq_ℤ, List,
  ◌∷◌, is_nonneg, arith,
}
use openrsp.Api.{Tuner, tuner_b, ErrT, is_success, hw_error}
use openrsp.Api.Params.{Doubles, Channel}
use openrsp.Api.Dsp.{factor_of}
use openrsp.Api.Context.{Context, M, Env, Call, make_buffers}
use openrsp.Api.Processing.{
  configure_iq_correction, configure_adsb, configure_decimator, configure_low_if,
}
use openrsp.Api.Prepare.{
  and_then, prepare, prepare_all, init_refusal, active_channel, free_stream_buffers,
}
use openrsp.Api.Init.{connect, send_configuration, close_single, launch, reach_daemon, init}
use openrsp.Api.Lifecycle.{Valid, Outcome}
use openrsp.Api.Lifecycle.Launch.{Prepared, launch-Outcome}

module _ {D : Doubles} (env : Env) where
  connect-Prepared : (x : Context D) → Prepared x → Prepared (connect env x).1
  unfolding connect
  connect-Prepared x p = ground arith

  connect-backend : (x : Context D) → (connect env x).1.backend ≡ (connect env x).0
  unfolding connect
  connect-backend x = ground arith

  configured-Prepared :
      (x : Context D)
      → Prepared x
      → Prepared (send_configuration env x).1 × ((send_configuration env x).1.backend ≡ x.backend)
  unfolding send_configuration
  configured-Prepared x p = ground arith

  given_up : (x : Context D) → Prepared x → Outcome (hw_error, (free_stream_buffers x).1)
  unfolding free_stream_buffers
  given_up x p = ground arith

  closed_up :
      (x : Context D)
      → Prepared x
      → Outcome (hw_error, (free_stream_buffers (close_single env x).1).1)
  unfolding free_stream_buffers close_single
  closed_up x p = ground arith

  -- From a configured receiver on.
  configured :
      (has_b : Bool) (x : Context D)
      → Prepared x
      → x.backend ≡ true
      → Outcome (launch env (record x { has_callbacks = true; has_callback_b = has_b }))
  configured has_b x p b =
      launch-Outcome env (record x { has_callbacks = true; has_callback_b = has_b })
        (record { ready = p.ready; silent = p.silent }) (ground arith)

  reach-Outcome : (has_b : Bool) (x : Context D) → Prepared x → Outcome (reach_daemon env has_b x)
  unfolding reach_daemon
  reach-Outcome has_b x p =
      (let y = (connect env x).1 in
        let connected = connect-Prepared x p in
        let z = (send_configuration env y).1 in
        let sent = configured-Prepared y connected in
        elim (Bool-cases (connect env x).0) [
          | inr no_backend ↦ rw no_backend (given_up y connected)
          | inl backend ↦ elim (Bool-cases (is_nonneg (send_configuration env y).0)) [
            | inr refused ↦ rw (backend, refused) (closed_up z sent.0)
            | inl accepted ↦
                rw (backend, accepted)
                  (configured has_b z sent.0 (sent.1 ∙ connect-backend x ∙ backend))
          ]
        ])

-- A step that keeps a receiver prepared.
abbrev Safe : {D : Doubles} {A : Type 0} → M D A → Type 0
Safe {D} m = (x : Context D) → Prepared x → Prepared (m x).1

and_then-Safe : {D : Doubles} (a b : M D Bool) → Safe a → Safe b → Safe (and_then a b)
and_then-Safe a b p q x h = elim (Bool-cases (a x).0) [
  | inl done ↦ rw done (q (a x).1 (p x h))
  | inr failed ↦ rw failed (p x h)
]

module _ {D : Doubles} where
  iq-Safe : (tuner : Tuner) → Safe (configure_iq_correction D tuner)
  unfolding configure_iq_correction
  iq-Safe tuner x p = ground arith

  adsb-Safe : (tuner : Tuner) → Safe (configure_adsb D tuner)
  unfolding configure_adsb
  adsb-Safe tuner x p = ground arith

  low_if-Safe : (tuner : Tuner) → Safe (configure_low_if D tuner)
  unfolding configure_low_if
  low_if-Safe tuner x p = ground arith

  decimator-Safe : (tuner : Tuner) (n : ℕ) → Safe (configure_decimator D tuner n)
  unfolding configure_decimator
  decimator-Safe tuner n x p = ground arith

  prepare-Prepared : (tuner : Tuner) (c : Channel D) → Safe (prepare tuner c)
  unfolding prepare
  prepare-Prepared tuner c =
      and_then-Safe (configure_iq_correction D tuner)
        (and_then (configure_adsb D tuner)
          (and_then (configure_low_if D tuner) (configure_decimator D tuner (factor_of D c))))
        (iq-Safe tuner)
        (and_then-Safe (configure_adsb D tuner)
          (and_then (configure_low_if D tuner) (configure_decimator D tuner (factor_of D c)))
          (adsb-Safe tuner)
          (and_then-Safe (configure_low_if D tuner) (configure_decimator D tuner (factor_of D c))
            (low_if-Safe tuner) (decimator-Safe tuner (factor_of D c))))

  prepare_all-Prepared : (x : Context D) → Prepared x → Prepared (prepare_all x).1
  unfolding prepare_all
  prepare_all-Prepared x p =
      (let first = prepare-Prepared x.tuner (active_channel x) x p in
        ground (
          arith,
          first,
          prepare-Prepared tuner_b x.channel_b (prepare x.tuner (active_channel x) x).1 first,
        ))

module _ {D : Doubles} (env : Env) where
  prepared_or_not :
      (has_b : Bool) (r : ErrT) (x : Context D)
      → Prepared x
      → Outcome (
          (if is_success r then reach_daemon env has_b else (λ y. (r, (free_stream_buffers y).1)))
            x)
  unfolding free_stream_buffers
  prepared_or_not has_b r x p = elim (Bool-cases (is_success r)) [
    | inl done ↦ rw done (reach-Outcome env has_b x p)
    | inr failed ↦ rw failed (ground (arith, failed))
  ]

  refusal-selected :
      (has_a has_b : Bool) (x : Context D)
      → is_success (init_refusal has_a has_b x) ≡ true
      → x.selected ≡ true
  unfolding init_refusal
  refusal-selected has_a has_b x h = ground arith

  no_buffers :
      (x : Context D) (asked : List Call)
      → Valid x
      → x.initialized ≡ false
      → Outcome (hw_error, record x { buffers = false; trace = asked })
  no_buffers x asked v idle = record {
    valid = record {
      selected = v.selected;
      backend = v.backend;
      needs = λ h. cc;
      buffers = λ h. refl;
      callbacks = v.callbacks;
      reader = v.reader;
      agc = v.agc;
    };
    told = idle;
  }

  with_buffers :
      (x : Context D) (asked : List Call)
      → Valid x
      → x.initialized ≡ false
      → x.selected ≡ true
      → Prepared (record x { buffers = true; trace = asked })
  with_buffers x asked v idle selected =
      ground (arith, v.selected selected, v.callbacks idle, v.reader idle, v.agc idle)

  -- Whatever the daemon and the system answer, Init of a receiver that is selected and does not stream
  -- is answered "success" exactly if the receiver streams then, with all that a stream needs; on every
  -- other answer the buffers and threads of the stream are gone.
  pub init-Outcome :
      (has_a has_b : Bool) (x : Context D)
      → Valid x
      → x.initialized ≡ false
      → Outcome (init env has_a has_b x)
  unfolding init
  init-Outcome has_a has_b x v idle =
      (let ready = record x { buffers = true; trace = make_buffers ∷ x.trace } in
        elim (Bool-cases (is_success (init_refusal has_a has_b x))) [
          | inr refused ↦ rw refused (record { valid = v; told = idle ∙ sym refused })
          | inl fine ↦ elim (Bool-cases (eq_ℤ (env x.trace make_buffers) (pos 0))) [
            | inr none_made ↦ rw (fine, none_made) (no_buffers x (make_buffers ∷ x.trace) v idle)
            | inl made ↦
                rw (fine, made)
                  (prepared_or_not has_b (prepare_all ready).0 (prepare_all ready).1 (
                    prepare_all-Prepared ready (
                      with_buffers x (make_buffers ∷ x.trace) v idle
                        (refusal-selected has_a has_b x fine))))
          ]
        ])
