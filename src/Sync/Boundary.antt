-- ===== src/Sync/Boundary.antt =====
-- The boundary that `openrsp_sync_update_next` finds, with uint32_t counters that wrap.
use openrsp.Base.{
  ◌⊎◌, false, ℕ, ◌+◌, ◌*◌, ◌%◌, ◌^◌, ◌≤◌, ◌<◌, ◌≡◌, true, not, ◌&&◌, ◌==◌, if◌then◌else◌, Option,
  none, some, sub_u32,
}
use openrsp.Sync.{Category, SyncUpdate, reached, catch_up, names, slot}
use openrsp.Sync.Bits.{same}
use openrsp.Sync.Schedule.{Entry, entry, Past, Before}

-- How far ahead of `a` the counter value `b` lies.
abbrev pub ahead : ℕ → ℕ → ℕ
ahead a b = sub_u32 b a

-- What `next` makes of a pending entry, and the boundary that it hands out.
abbrev moved : Option Entry → ℕ → Option Entry
moved none current = none
moved (some e) current =
    if not (e.every == 0) && reached current e.boundary
    then some (record e { boundary = catch_up current e.boundary e.every })
    else some e

abbrev boundary_of : Option Entry → Option ℕ
boundary_of none = none
boundary_of (some e) = some e.boundary

-- The boundary `t` that is handed out for a category with this boundary and period at sample `current`:
-- the boundary itself while it lies ahead or if it is for once, and the next one after `current` if it
-- is periodic and was reached.
abbrev pub Handed : ℕ → ℕ → ℕ → ℕ → Type 0
Handed current boundary every t =
    ((t ≡ boundary) × ((every ≡ 0) ⊎ Before boundary current))
    ⊎ ((0 < every)
        × Past boundary current
        × (0 < ahead current t)
        × (ahead current t ≤ every)
        × ((m : ℕ) × (t ≡ (boundary + m * every) % 2 ^ 32)))

-- What a call of `next` does for category `k`.
abbrev pub Next : SyncUpdate → ℕ → Category → Option ℕ × SyncUpdate → Type 0
Next s current k result =
    ((names s.pending k ≡ false) × (result ≡ (none, s)))
    ⊎ ((names s.pending k ≡ true)
        × ((t : ℕ) × (result.0 ≡ some t)
            × Handed current (slot s.due_at k) (slot s.period k) t
            × ((j : Category)
                → entry result.1 j ≡ (
                    if same k j
                    then some (record { boundary = t; every = slot s.period k })
                    else entry s j))))
