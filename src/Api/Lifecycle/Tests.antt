-- ===== src/Api/Lifecycle/Tests.antt =====
-- Init of a receiver that has been selected, and a session of calls.
use openrsp.Base.{pos, true, false, refl, List, [], ◌∷◌}
use openrsp.Api.{tuner_a}
use openrsp.Api.Whole.{whole, initial}
use openrsp.Api.Context.{Context, Env, await_first_iq}
use openrsp.Api.Init.{init}
use openrsp.Api.Lifecycle.{Valid, Outcome}
use openrsp.Api.Lifecycle.Initialise.{init-Outcome}
use openrsp.Api.Lifecycle.Calls.{
  Step, selects, initialises, uninitialises, releases, closes, run_calls, run_calls-Valid,
}
use openrsp.Api.Select.{DiscoveryHandle, Handle, discovered, opened, DeviceT}

abbrev streaming_env : Env
streaming_env asked await_first_iq = pos 1
streaming_env asked _ = pos 0

abbrev chosen_context : Context whole
chosen_context = record initial { selected = true }

closed-Valid : Valid initial
closed-Valid = record {
  selected = λ h. refl;
  backend = λ h. cc;
  needs = λ h. cc;
  buffers = λ h. refl;
  callbacks = λ h. refl;
  reader = λ h. refl;
  agc = λ h. refl;
}

chosen-Valid : Valid chosen_context
chosen-Valid = record {
  selected = λ h. refl;
  backend = λ h. refl;
  needs = λ h. cc;
  buffers = λ h. refl;
  callbacks = λ h. refl;
  reader = λ h. refl;
  agc = λ h. refl;
}

init-Outcome_example : Outcome (init streaming_env true false chosen_context)
init-Outcome_example = init-Outcome streaming_env true false chosen_context chosen-Valid refl

abbrev listed : List DiscoveryHandle
listed =
    record {
      valid = true;
      identity = record { device_index = 0; vendor_id = 0x1df7; product_id = 0x3020; serial = [] };
      hw_version = 3;
      rspduo_mode_mask = 7;
      rspduo_sample_rate_hz = 0;
    }
    ∷ []

abbrev device : Handle → DeviceT whole
device handle = record {
  ser_no = [];
  hw_ver = 3;
  tuner = tuner_a;
  rspduo_mode = 1;
  valid = true;
  rspduo_sample_freq = pos 0;
  dev = handle;
}

-- A whole session.
abbrev session : List (Step whole)
session =
    selects listed (device (discovered 0))
    ∷ initialises true false
    ∷ uninitialises
    ∷ releases (device opened)
    ∷ closes 0
    ∷ []

run_calls-Valid_example : Valid (run_calls streaming_env session initial)
run_calls-Valid_example = run_calls-Valid streaming_env session initial closed-Valid
