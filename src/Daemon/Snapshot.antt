-- ===== src/Daemon/Snapshot.antt =====
-- The inventory of receivers in daemon/openrspd.c, cached for a second, and the receiver that the
-- daemon's client acquired. `records` is present and `capacity` is 32, as in every call.
use openrsp.Base.{
  ℕ, zero, suc, ◌+◌, Bool, true, false, not, ◌&&◌, ◌||◌, ltb, ◌==◌, if◌then◌else◌, List, [], ◌∷◌,
  ◌++◌, Option, none, some, take,
}
use openrsp.Protocol.{DeviceRecord}
use openrsp.Identity.{Resolved, index, not_found, ambiguous, resolve, nonempty}
use openrsp.Daemon.State.{
  Env, Daemon, RawDevice, M, ◌>>=◌, ◌>>◌, return, get, modify, when, discard, is_zero, call,
  clock_gettime, Effect, enumerate, open_cold, close_cold,
}

-- OPENRSPD_MAX_DEVICES
abbrev pub max_devices : ℕ
max_devices = 32

-- The text in front of the terminator.
abbrev c_string : List ℕ → List ℕ
c_string [] = []
c_string (c ∷ cs) = let rest = c_string cs in if c == 0 then [] else c ∷ rest

-- `snprintf(destination, 64, "%s", text)`
abbrev copy_text : List ℕ → List ℕ
copy_text text = take 63 (c_string text) ++ (0 ∷ [])

-- Less than a second old.
abbrev is_recent : ℕ × ℕ → ℕ × ℕ → Bool
is_recent (sec, nsec) (sec', nsec') =
    (sec' == sec && not (ltb nsec' nsec)) || (sec' == sec + 1 && ltb nsec' nsec)

abbrev pub is_recent? : ℕ × ℕ → Option (ℕ × ℕ) → Bool
is_recent? taken none = false
is_recent? taken (some now) = is_recent taken now

-- Mode bits: OPENRSP_MODE_CAP_SLAVE, or SINGLE | DUAL | MASTER.
abbrev mode_mask : Daemon → ℕ → ℕ
mode_mask d product =
    if product == 0x3020 then (if d.duo_active && d.duo.master_selected then 8 else 7) else 0

abbrev duo_rate : Daemon → ℕ → ℕ
duo_rate d product = if product == 0x3020 && d.duo_active then d.duo.sample_rate_hz else 0

-- The acquired receiver keeps its serial while it is open.
abbrev is_held : Daemon → ℕ → RawDevice → Bool
is_held d i raw =
    d.radio
    && i == d.acquired_identity.device_index
    && raw.vendor_id == d.acquired_identity.vendor_id
    && raw.product_id == d.acquired_identity.product_id
    && nonempty d.acquired_identity.serial

abbrev record_of : Daemon → ℕ → RawDevice → DeviceRecord
record_of d i raw = record {
  device_index = i;
  vendor_id = raw.vendor_id;
  product_id = raw.product_id;
  serial = if is_held d i raw then copy_text d.acquired_identity.serial else copy_text raw.serial;
  model = copy_text raw.product;
  rspduo_mode_mask = mode_mask d raw.product_id;
  rspduo_sample_rate_hz = duo_rate d raw.product_id;
}

abbrev record_of? : Daemon → ℕ → Option RawDevice → List DeviceRecord
record_of? d i none = []
record_of? d i (some raw) = if raw.vendor_id == 0x1df7 then record_of d i raw ∷ [] else []

module _ (env : Env) where
  -- The rest of the raw indices from `i` on, `left` of them.
  unfoldable pub inventory : Daemon → List Effect → ℕ → ℕ → List DeviceRecord
  inventory d asked zero i = []
  inventory d asked (suc left) i =
      record_of? d i (env.device_info asked i) ++ inventory d asked left (i + 1)

  unfoldable pub first_cold : List Effect → ℕ → ℕ → Option ℕ
  first_cold asked zero i = none
  first_cold asked (suc left) i =
      let later = first_cold asked left (i + 1) in if env.is_cold asked i then some i else later

  unfoldable pub count_devices : M ℕ
  count_devices = do discard (call env enumerate); d ← get; return (env.device_count d.trace)

  -- Loads the firmware of one cold receiver; `true` if the indices may have changed.
  abbrev pub boot_at : Option ℕ → M Bool
  boot_at none = return false
  boot_at (some i) = do
    opened ← call env (open_cold i)
    when (is_zero opened) (discard (call env (close_cold i)))
    return (is_zero opened)

  unfoldable pub boot_once : M Bool
  boot_once = do n ← count_devices; d ← get; boot_at (first_cold d.trace n 0)

  -- At most `passes` receivers, and none while one is held open.
  unfoldable pub boot_cold : ℕ → M (Unit {0})
  boot_cold zero d = (tt, d)
  boot_cold (suc passes) d =
      let rest = boot_cold passes (boot_once d).1 in
      if d.radio then (tt, d) else if (boot_once d).0 then rest else (tt, (boot_once d).1)

  -- Without a clock the inventory is not kept for the next request.
  abbrev pub stamp : Option (ℕ × ℕ) → Daemon → Daemon
  stamp none d = d
  stamp (some t) d = record d { device_snapshot_time = t; device_snapshot_valid = true }

  unfoldable pub fresh_inventory : M (List DeviceRecord)
  fresh_inventory = do
    boot_cold max_devices
    n ← count_devices
    d ← get
    let found = take max_devices (inventory d d.trace n 0)
    modify (λ s. record s { device_snapshot = found })
    now ← clock_gettime env
    modify (stamp now)
    return found

  unfoldable pub snapshot_sdrplay_devices : M (List DeviceRecord)
  snapshot_sdrplay_devices d =
      if d.radio && d.device_snapshot_valid
      then (d.device_snapshot, d)
      else if d.device_snapshot_valid
      then (do
        now ← clock_gettime env
        if is_recent? d.device_snapshot_time now then return d.device_snapshot else fresh_inventory)
          d
      else fresh_inventory d

  abbrev pub keep_index : Resolved → M (Unit {0})
  keep_index (index i) =
      modify
        (λ d. record d { acquired_identity = record (d.acquired_identity) { device_index = i } })
  keep_index not_found = return tt
  keep_index ambiguous = return tt

  -- On success the acquired identity follows the receiver to its present index.
  unfoldable pub resolve_acquired_device : M Resolved
  resolve_acquired_device = do
    devices ← snapshot_sdrplay_devices
    d ← get
    let found = resolve d.acquired_identity devices
    keep_index found
    return found
