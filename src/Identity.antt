-- ===== src/Identity.antt =====
-- src/identity.c: which of the attached receivers a request means. The pointers are present.
use openrsp.Base.{
  ℕ, ◌≡◌, refl, Bool, true, false, not, ◌&&◌, ◌||◌, ◌==◌, if◌then◌else◌, List, [], ◌∷◌, take, arith,
}
use openrsp.Protocol.{AcquireRequest, DeviceRecord}

abbrev has_zero : List ℕ → Bool
has_zero [] = false
has_zero (c ∷ cs) = c == 0 || has_zero cs

-- `memchr(serial, '\0', 64u) != NULL`
unfoldable pub terminated : List ℕ → Bool
terminated serial = has_zero (take 64 serial)

-- `strcmp(a, b) == 0`, where the end of a list is read as the terminator.
unfoldable pub str_eq : List ℕ → List ℕ → Bool
str_eq [] [] = true
str_eq [] (d ∷ ds) = d == 0
str_eq (c ∷ cs) [] = c == 0
str_eq (c ∷ cs) (d ∷ ds) = c == d && (c == 0 || str_eq cs ds)

-- `serial[0] != '\0'`
abbrev pub nonempty : List ℕ → Bool
nonempty [] = false
nonempty (c ∷ cs) = not (c == 0)

unfoldable pub matches : AcquireRequest → DeviceRecord → Bool
matches identity candidate =
    if not (terminated identity.serial)
      || not (terminated candidate.serial)
      || not (identity.vendor_id == candidate.vendor_id)
      || not (identity.product_id == candidate.product_id)
    then false
    else if nonempty identity.serial
    then str_eq identity.serial candidate.serial
    else identity.device_index == candidate.device_index

pub data Resolved : Type 0 where
  index : ℕ → Resolved
  not_found ambiguous : Resolved

-- The rest of the loop, with `found` and `resolved` as one option.
unfoldable pub resolve_from : AcquireRequest → List DeviceRecord → Resolved → Resolved
resolve_from identity [] r = r
resolve_from identity (d ∷ ds) not_found =
    resolve_from identity ds (if matches identity d then index d.device_index else not_found)
resolve_from identity (d ∷ ds) (index i) =
    let rest = resolve_from identity ds (index i) in if matches identity d then ambiguous else rest
resolve_from identity (d ∷ ds) ambiguous = ambiguous

unfoldable pub resolve : AcquireRequest → List DeviceRecord → Resolved
unfolding resolve_from
resolve identity devices = resolve_from identity devices not_found

-- The devices that match.
abbrev pub matching : AcquireRequest → List DeviceRecord → List DeviceRecord
matching identity [] = []
matching identity (d ∷ ds) =
    if matches identity d then d ∷ matching identity ds else matching identity ds

-- The only one, if there is just one.
abbrev pub unique_index : List DeviceRecord → Resolved
unique_index [] = not_found
unique_index (d ∷ []) = index d.device_index
unique_index (d ∷ e ∷ ds) = ambiguous

resolve_from_found :
    (identity : AcquireRequest) (ds : List DeviceRecord) (d : DeviceRecord)
    → resolve_from identity ds (index d.device_index) ≡ unique_index (d ∷ matching identity ds)
unfolding resolve_from
resolve_from_found identity [] d = refl
resolve_from_found identity (e ∷ ds) d = ground (arith, resolve_from_found identity ds d)

-- A request is resolved to a device index exactly when one of the attached receivers matches it,
-- is not found when none does, and is ambiguous when several do: no receiver is picked by order.
pub resolve_lem :
    (identity : AcquireRequest) (ds : List DeviceRecord)
    → resolve identity ds ≡ unique_index (matching identity ds)
unfolding resolve
resolve_lem identity [] = refl
resolve_lem identity (d ∷ ds) =
    ground (arith, resolve_lem identity ds, resolve_from_found identity ds d)

-- A request with a serial means a receiver whatever device index it has at the moment, so a receiver
-- is found again after it was plugged in elsewhere.
pub matches_renumbered :
    (identity : AcquireRequest) (candidate : DeviceRecord) (i j : ℕ)
    → nonempty identity.serial ≡ true
    → matches (record identity { device_index = i }) (record candidate { device_index = j })
      ≡ matches identity candidate
unfolding matches
matches_renumbered identity candidate i j h = ground arith
