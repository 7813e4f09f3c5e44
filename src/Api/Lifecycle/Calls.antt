-- ===== src/Api/Lifecycle/Calls.antt =====
-- Sequences of calls of the application, of src/compat/sdrplay_api_compat.c.
use openrsp.Base.{
  ℕ, Bool, true, false, ◌≡◌, refl, Bool-cases, inl, inr, eq_ℤ, pos, List, [], ◌∷◌, not, ◌||◌, ◌==◌,
  ◌∙◌, arith, none, some, Option,
}
use openrsp.Api.{mode_dual, is_success}
use openrsp.Api.Params.{Doubles}
use openrsp.Api.Context.{Context, Env, Call, open_duo}
use openrsp.Api.Prepare.{init_refusal}
use openrsp.Api.Init.{init, uninit}
use openrsp.Api.Select.{
  DiscoveryHandle, DeviceT, select_refusal, acquire_device, select_device, release_device, close,
  handle_at, known_tuner, with_handle, chosen, with_role, with_dual, shown, role_rate,
}
use openrsp.Api.Settings.{protocol_tuner}
use openrsp.Api.Lifecycle.{Valid}
use openrsp.Api.Lifecycle.Initialise.{init-Outcome}
use openrsp.Api.Lifecycle.Uninitialise.{uninit-Valid}

-- A call of the application: with the receivers listed last and a device, with its callback functions,
-- with a device, and with the depth of the device lock.
pub data Step (D : Doubles) : Type 0 where
  selects : List DiscoveryHandle → DeviceT D → Step D
  initialises : Bool → Bool → Step D
  uninitialises : Step D
  releases : DeviceT D → Step D
  closes : ℕ → Step D

unfoldable pub run_call : {D : Doubles} → Env → Step D → Context D → Context D
run_call env (selects handles d) x = (select_device env handles d x).2
run_call env (initialises has_a has_b) x = (init env has_a has_b x).1
run_call env uninitialises x = (uninit env x).1
run_call env (releases d) x = (release_device env d x).2
run_call env (closes depth) x = (close depth x).1

unfoldable pub run_calls : {D : Doubles} → Env → List (Step D) → Context D → Context D
run_calls env [] x = x
run_calls env (c ∷ rest) x = run_calls env rest (run_call env c x)

module _ {D : Doubles} (env : Env) where
  refused :
      (has_a has_b : Bool) (x : Context D)
      → x.initialized ≡ true
      → is_success (init_refusal has_a has_b x) ≡ false
  unfolding init_refusal
  refused has_a has_b x h = ground arith

  init-Valid : (has_a has_b : Bool) (x : Context D) → Valid x → Valid (init env has_a has_b x).1
  unfolding init
  init-Valid has_a has_b x v = elim (Bool-cases x.initialized) [
    | inr idle ↦ (init-Outcome env has_a has_b x v idle).valid
    | inl streams ↦ rw (refused has_a has_b x streams) v
  ]

  uninit_any-Valid : (x : Context D) → Valid x → Valid (uninit env x).1
  unfolding uninit
  uninit_any-Valid x v = elim (Bool-cases x.initialized) [
    | inl streams ↦ (uninit-Valid env x v streams).0
    | inr idle ↦ simp idle v
  ]

  -- A receiver that is not selected.
  record Free (x : Context D) : Type 0 where
    initialized : x.initialized ≡ false
    backend : x.backend ≡ false
    rest :
        x.buffers || (x.stream.thread_started || (x.thread_started || x.agc_thread_started)) ≡ false

  Valid-Free : (x : Context D) → Valid x → x.selected ≡ false → Free x
  Valid-Free x v s =
      (let no_backend : x.backend ≡ false = ground (arith, v.backend) in
        let idle : x.initialized ≡ false = ground (arith, no_backend, v.needs) in
        record {
          initialized = idle;
          backend = no_backend;
          rest = ground (arith, v.buffers idle, v.callbacks idle, v.reader idle, v.agc idle);
        })

  -- A receiver that does not stream, with or without a backend.
  record Idle (backend : Bool) (x : Context D) : Type 0 where
    api_open : x.api_open ≡ true
    initialized : x.initialized ≡ false
    held : x.backend ≡ backend
    rest :
        x.buffers || (x.stream.thread_started || (x.thread_started || x.agc_thread_started)) ≡ false

  Idle-Valid : (backend : Bool) (x : Context D) → Idle backend x → x.selected ≡ true → Valid x
  Idle-Valid backend x i s = record {
    selected = λ h. i.api_open;
    backend = λ h. s;
    needs = ground (arith, i.initialized);
    buffers = ground (arith, i.rest);
    callbacks = ground (arith, i.rest);
    reader = ground (arith, i.rest);
    agc = ground (arith, i.rest);
  }

  unselected-Valid :
      (x : Context D) (asked : List Call)
      → Idle false x
      → Valid (record x { selected = false; duo_role = 0; trace = asked })
  unselected-Valid x asked i = record {
    selected = λ h. i.api_open;
    backend = λ h. absurd (ground (arith, i.held));
    needs = ground (arith, i.initialized);
    buffers = ground (arith, i.rest);
    callbacks = ground (arith, i.rest);
    reader = ground (arith, i.rest);
    agc = ground (arith, i.rest);
  }

  chosen-Idle :
      (handle : DiscoveryHandle) (d : DeviceT D) (x : Context D)
      → Idle false x
      → Idle false (chosen handle d x) × ((chosen handle d x).selected ≡ true)
  unfolding chosen
  chosen-Idle handle d x i = (
    record { api_open = i.api_open; initialized = i.initialized; held = i.held; rest = i.rest },
    refl,
  )

  role-Idle :
      (rate : ℕ) (d : DeviceT D) (x : Context D)
      → Idle false x
      → Idle false (with_role rate d x) × ((with_role rate d x).selected ≡ x.selected)
  unfolding with_role
  role-Idle rate d x i = (
    record { api_open = i.api_open; initialized = i.initialized; held = i.held; rest = i.rest },
    refl,
  )

  dual-Idle :
      (b : Bool) (d : DeviceT D) (x : Context D)
      → Idle b x
      → Idle b (with_dual d x) × ((with_dual d x).selected ≡ x.selected)
  unfolding with_dual
  dual-Idle b d x i = elim (Bool-cases (x.mode == mode_dual)) [
    | inl dual ↦ rw dual (
      record { api_open = i.api_open; initialized = i.initialized; held = i.held; rest = i.rest },
      refl,
    )
    | inr other ↦ rw other (i, refl)
  ]

  shown-Idle :
      (b : Bool) (d : DeviceT D) (x : Context D)
      → Idle b x
      → Idle b (shown d x) × ((shown d x).selected ≡ x.selected)
  unfolding shown
  shown-Idle b d x i = (
    record { api_open = i.api_open; initialized = i.initialized; held = i.held; rest = i.rest },
    refl,
  )

  finished-Valid :
      (b : Bool) (d : DeviceT D) (x : Context D)
      → Idle b x
      → x.selected ≡ true
      → Valid (shown d (with_dual d x))
  finished-Valid b d x i s =
      (let dual = dual-Idle b d x i in
        let visible = shown-Idle b d (with_dual d x) dual.0 in
        Idle-Valid b (shown d (with_dual d x)) visible.0 (visible.1 ∙ dual.1 ∙ s))

  acquire-Valid :
      (handle : DiscoveryHandle) (d : DeviceT D) (x : Context D)
      → Idle false x
      → Valid (acquire_device env handle d x).2
  unfolding acquire_device
  acquire-Valid handle d x i =
      (let y = chosen-Idle handle d x i in
        let z = role-Idle (role_rate handle d) d (chosen handle d x) y.0 in
        let open_call =
          open_duo handle.identity (chosen handle d x).duo_role (protocol_tuner d.tuner)
            (role_rate handle d) in
        elim (Bool-cases ((chosen handle d x).duo_role == 0)) [
          | inl single ↦ rw single (finished-Valid false d (chosen handle d x) y.0 y.1)
          | inr role ↦
              elim (Bool-cases (
                eq_ℤ (env (with_role (role_rate handle d) d (chosen handle d x)).trace open_call)
                  (pos 0))) [
                    | inl opened ↦
                        rw (role, opened)
                          (finished-Valid true _ _
                            (record {
                              api_open = z.0.api_open;
                              initialized = z.0.initialized;
                              held = refl;
                              rest = z.0.rest;
                            })
                            (z.1 ∙ y.1))
                    | inr failed ↦ rw (role, failed) (unselected-Valid _ _ z.0)
                  ]
        ])

  handle-Valid :
      (handle : Option DiscoveryHandle) (d : DeviceT D) (x : Context D)
      → Valid x
      → x.api_open ≡ true
      → x.selected ≡ false
      → Valid (with_handle env handle d x).2
  handle-Valid none d x v o s = v
  handle-Valid (some handle) d x v o s = elim (Bool-cases (is_success (select_refusal handle d))) [
    | inr bad ↦ rw bad v
    | inl fine ↦
        (let f = Valid-Free x v s in
          rw fine (
            acquire-Valid handle d x (record {
              api_open = o;
              initialized = f.initialized;
              held = f.backend;
              rest = f.rest;
            })))
  ]

  select-Valid :
      (handles : List DiscoveryHandle) (d : DeviceT D) (x : Context D)
      → Valid x
      → Valid (select_device env handles d x).2
  unfolding select_device
  select-Valid handles d x v = elim (Bool-cases x.api_open) [
    | inr closed ↦ simp closed v
    | inl o ↦ elim (Bool-cases (not (known_tuner d.tuner) || not d.valid)) [
      | inl bad ↦ simp (o, bad) v
      | inr fine ↦ elim (Bool-cases x.selected) [
        | inl taken ↦ simp (o, fine, taken) v
        | inr s ↦ simp (o, fine, s) (handle-Valid (handle_at handles d.dev) d x v o s)
      ]
    ]
  ]

  release-Valid : (d : DeviceT D) (x : Context D) → Valid x → Valid (release_device env d x).2
  unfolding release_device
  release-Valid d x v = ground arith

  close-Valid : (depth : ℕ) (x : Context D) → Valid x → Valid (close depth x).1
  unfolding close
  close-Valid depth x v = ground arith

  call-Valid : (c : Step D) (x : Context D) → Valid x → Valid (run_call env c x)
  unfolding run_call
  call-Valid (selects handles d) x v = select-Valid handles d x v
  call-Valid (initialises has_a has_b) x v = init-Valid has_a has_b x v
  call-Valid uninitialises x v = uninit_any-Valid x v
  call-Valid (releases d) x v = release-Valid d x v
  call-Valid (closes depth) x v = close-Valid depth x v

  -- After any sequence of the application's calls SelectDevice, Init, Uninit, ReleaseDevice and Close,
  -- whatever arguments they have and whatever the daemon and the system answer, a context that was valid
  -- is valid: a receiver is selected only in an open API, a backend is held only for a selected receiver,
  -- an initialised receiver has its backend, buffers, threads and callbacks, and one that is not
  -- initialised has no buffers and no threads of a stream.
  pub run_calls-Valid :
      (calls : List (Step D)) (x : Context D) → Valid x → Valid (run_calls env calls x)
  unfolding run_calls
  run_calls-Valid [] x v = v
  run_calls-Valid (c ∷ rest) x v = run_calls-Valid rest (run_call env c x) (call-Valid c x v)
