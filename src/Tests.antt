-- ===== src/Tests.antt =====
-- Inputs on which the theorems on the removal tracker and on identities are applied.
use openrsp.Base.{ℕ, ◌≤◌, ◌≡◌, true, false, List, [], ◌∷◌, arith}
use openrsp.Protocol.{AcquireRequest, DeviceRecord}
use openrsp.Removal.{RemovalTracker, present, polls, reports, polls_once, polls_lem}
use openrsp.Identity.{resolve, matching, unique_index, resolve_lem}

abbrev tracker : RemovalTracker
tracker = record { absent_since_ms = 9; absence_active = true; removal_notified = true }

polls_once_example : reports (polls (present tracker) 5000 (10 ∷ 6000 ∷ 3 ∷ 9000 ∷ [])) ≤ 1
polls_once_example = polls_once tracker 5000 (10 ∷ 6000 ∷ 3 ∷ 9000 ∷ [])

polls_lem_example :
    polls (present tracker) 5000 (10 ∷ 900 ∷ 5010 ∷ 7000 ∷ []) ≡ false ∷ false ∷ true ∷ false ∷ []
polls_lem_example = polls_lem tracker 10 5000 (900 ∷ 5010 ∷ 7000 ∷ []) (omega arith)

abbrev wanted : AcquireRequest
wanted = record {
  device_index = 0;
  vendor_id = 0x1df7;
  product_id = 0x3020;
  serial = 65 ∷ 66 ∷ 0 ∷ [];
}

abbrev attached : ℕ → List ℕ → DeviceRecord
attached i serial = record {
  device_index = i;
  vendor_id = 0x1df7;
  product_id = 0x3020;
  serial = serial;
  model = [];
  rspduo_mode_mask = 0;
  rspduo_sample_rate_hz = 0;
}

abbrev both : List DeviceRecord
both = attached 0 (67 ∷ 0 ∷ []) ∷ attached 5 (65 ∷ 66 ∷ 0 ∷ []) ∷ []

resolve_lem_example : resolve wanted both ≡ unique_index (matching wanted both)
resolve_lem_example = resolve_lem wanted both
