-- ===== src/Sync.antt =====
-- compat/sync_update.h and compat/sync_update.c: gain, RF and sample-rate updates that wait for a
-- sample boundary. `state` and `target_sample` are present, as in every call of the library.
mod Bits
pub mod Schedule
pub mod Boundary
mod Tests
use openrsp.Base.{
  ℕ, ◌+◌, ◌-◌, ◌/◌, ◌%◌, ◌^◌, Bool, true, false, not, ◌&&◌, ltb, ◌==◌, if◌then◌else◌, Option, none,
  some, has_bit, set_bit, clear_bit, add_u32, sub_u32, mul_u32,
}

-- OPENRSP_SYNC_GAIN, OPENRSP_SYNC_RF and OPENRSP_SYNC_FS.
pub data Category : Type 0 where
  gain rf fs : Category

-- `index_for`, which is also the number of the category's bit.
abbrev pub index_for : Category → ℕ
index_for gain = 0
index_for rf = 1
index_for fs = 2

-- The checks of `openrsp_sync_update_next` on its argument.
abbrev pub category_of : ℕ → Option Category
category_of c =
    if c == 1 then some gain else if c == 2 then some rf else if c == 4 then some fs else none

-- An array of one uint32_t for each category.
pub record Slots : Type 0 where
  pub at_gain : ℕ
  pub at_rf : ℕ
  pub at_fs : ℕ

abbrev pub slot : Slots → Category → ℕ
slot a gain = a.at_gain
slot a rf = a.at_rf
slot a fs = a.at_fs

abbrev pub set_slot : Slots → Category → ℕ → Slots
set_slot a gain v = record a { at_gain = v }
set_slot a rf v = record a { at_rf = v }
set_slot a fs v = record a { at_fs = v }

pub record SyncUpdate : Type 0 where
  pub pending : ℕ
  pub due_at : Slots
  pub period : Slots

-- `(categories & bit) != 0u`
unfoldable pub names : ℕ → Category → Bool
unfolding has_bit
names categories k = has_bit (index_for k) categories

-- `x |= bit` and `x &= ~bit`
unfoldable pub with_bit : Category → ℕ → ℕ
unfolding set_bit
with_bit k x = set_bit (index_for k) x

unfoldable pub without_bit : Category → ℕ → ℕ
unfolding clear_bit
without_bit k x = clear_bit (index_for k) x

-- `categories & (OPENRSP_SYNC_GAIN | OPENRSP_SYNC_RF | OPENRSP_SYNC_FS)`
unfoldable pub known : ℕ → ℕ
known categories = categories % 8

-- The loop over the three bits, which all the operations share.
abbrev pub each_bit {ℓ} : {S : Type ℓ} → (Category → S → S) → S → S
each_bit body s = body fs (body rf (body gain s))

-- `(int32_t)(sample - due) >= 0`
abbrev pub reached : ℕ → ℕ → Bool
reached sample target = ltb (sub_u32 sample target) (2 ^ 31)

abbrev zeros : Slots
zeros = record { at_gain = 0; at_rf = 0; at_fs = 0 }

pub init : SyncUpdate
init = record { pending = 0; due_at = zeros; period = zeros }

schedule_bit : ℕ → ℕ → ℕ → Category → SyncUpdate → SyncUpdate
schedule_bit categories sample every k s =
    if names categories k
    then record {
      pending = with_bit k s.pending;
      due_at = set_slot s.due_at k sample;
      period = set_slot s.period k every;
    }
    else s

pub schedule : SyncUpdate → ℕ → ℕ → ℕ → SyncUpdate
schedule s categories sample every = each_bit (schedule_bit (known categories) sample every) s

-- The next boundary of a periodic category that is past `target` at `current`.
pub catch_up : ℕ → ℕ → ℕ → ℕ
catch_up current target every =
    add_u32 target (mul_u32 (add_u32 (sub_u32 current target / every) 1) every)

abbrev next_in : SyncUpdate → Category → ℕ → Option ℕ × SyncUpdate
next_in s k current =
    if not (names s.pending k)
    then (none, s)
    else (let target = slot s.due_at k in
        let every = slot s.period k in
        let later = catch_up current target every in
        if not (every == 0) && reached current target
        then (some later, record s { due_at = set_slot s.due_at k later })
        else (some target, s))

-- `none` is the return of -1; otherwise the boundary that goes to `*target_sample`.
pub next : SyncUpdate → ℕ → ℕ → Option ℕ × SyncUpdate
next s category current = elim (category_of category) [
  | none ↦ (none, s)
  | some k ↦ next_in s k current
]

reset_bit : ℕ → Category → SyncUpdate → SyncUpdate
reset_bit categories k s =
    if names categories k
    then record s { pending = without_bit k s.pending; period = set_slot s.period k 0 }
    else s

pub reset : SyncUpdate → ℕ → SyncUpdate
reset s categories = each_bit (reset_bit (known categories)) s

abbrev pub is_due : SyncUpdate → ℕ → Category → Bool
is_due s sample k = names s.pending k && reached sample (slot s.due_at k)

due_bit : SyncUpdate → ℕ → Category → ℕ → ℕ
due_bit s sample k result = if is_due s sample k then with_bit k result else result

pub due : SyncUpdate → ℕ → ℕ
due s sample = each_bit (due_bit s sample) 0

-- `pending &= ~bit`, and again `|= bit` for a periodic category.
consume_bit : ℕ → Category → SyncUpdate → SyncUpdate
consume_bit categories k s =
    if not (names categories k)
    then s
    else (let cleared = without_bit k s.pending in
        let every = slot s.period k in
        if not (every == 0)
        then record s {
          due_at = set_slot s.due_at k (add_u32 (slot s.due_at k) every);
          pending = with_bit k cleared;
        }
        else record s { pending = cleared })

-- `a & b` of two sets of categories.
both_bit : ℕ → ℕ → Category → ℕ → ℕ
both_bit a b k r = if names a k && names b k then with_bit k r else r

pub both : ℕ → ℕ → ℕ
both a b = each_bit (both_bit a b) 0

pub consume : SyncUpdate → ℕ → ℕ → SyncUpdate
consume s categories sample = each_bit (consume_bit (both categories (due s sample))) s
