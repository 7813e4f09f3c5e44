-- ===== src/Api/Lifecycle.antt =====
-- What the calls of src/compat/sdrplay_api_compat.c keep of the receiver's state: which resources are held
-- while it is selected, and while it streams.
pub mod Launch
pub mod Initialise
pub mod Uninitialise
pub mod Calls
pub mod Tests
use openrsp.Base.{Bool, true, false, ◌&&◌, ◌≡◌}
use openrsp.Api.{ErrT, is_success}
use openrsp.Api.Params.{Doubles}
use openrsp.Api.Context.{Context}

-- A receiver streams with all that it needs, and holds nothing for a stream otherwise.
pub record Valid {D : Doubles} (x : Context D) : Type 0 where
  pub selected : x.selected ≡ true → x.api_open ≡ true
  pub backend : x.backend ≡ true → x.selected ≡ true
  pub needs :
      x.initialized ≡ true
      → x.backend
          && (x.buffers
              && (x.stream.thread_started
                  && (x.thread_started && (x.agc_thread_started && x.has_callbacks))))
        ≡ true
  pub buffers : x.initialized ≡ false → x.buffers ≡ false
  pub callbacks : x.initialized ≡ false → x.stream.thread_started ≡ false
  pub reader : x.initialized ≡ false → x.thread_started ≡ false
  pub agc : x.initialized ≡ false → x.agc_thread_started ≡ false

-- The answer of Init is "success" exactly if the receiver is initialised then.
pub record Outcome {D : Doubles} (r : ErrT × Context D) : Type 0 where
  pub valid : Valid r.1
  pub told : r.1.initialized ≡ is_success r.0
