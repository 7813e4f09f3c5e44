-- ===== src/Sync/Schedule.antt =====
-- The state of compat/sync_update.c as a map from each category to its boundary and period.
use openrsp.Base.{
  ◌+◌, ◌%◌, ◌^◌, ◌<◌, ◌≤◌, ◌↔◌, sub_u32, ltb→lt, sym, ℕ, ◌≡◌, Bool, false, true, ◌&&◌, ◌==◌,
  if◌then◌else◌, Option, none, some, arith, add_u32, refl, ap, ◌∙◌,
}
use openrsp.Sync.{
  Category, gain, rf, fs, slot, SyncUpdate, names, reached, init, schedule_bit, schedule, reset_bit,
  reset, is_due, due, both, without_bit, consume_bit, consume,
}
use openrsp.Sync.Bits.{
  same, names-with_bit, names-without_bit, names-known, names-zero, names-both, names-due,
}

pub record Entry : Type 0 where
  pub boundary : ℕ
  pub every : ℕ

-- What is pending for a category.
abbrev pub entry : SyncUpdate → Category → Option Entry
entry s k =
    if names s.pending k
    then some (record { boundary = slot s.due_at k; every = slot s.period k })
    else none

abbrev pub entry_due : Option Entry → ℕ → Bool
entry_due none sample = false
entry_due (some e) sample = reached sample e.boundary

-- A fired entry: gone if it was for once, one period later otherwise.
abbrev pub fired : Option Entry → Option Entry
fired none = none
fired (some e) =
    if e.every == 0 then none else some (record e { boundary = add_u32 e.boundary e.every })

entry-init : (k : Category) → entry init k ≡ none
unfolding init
entry-init gain = rw (names-zero gain)
entry-init rf = rw (names-zero rf)
entry-init fs = rw (names-zero fs)

module _ (s : SyncUpdate) (categories : ℕ) where
  module _ (sample every : ℕ) where
    entry-schedule_bit :
        (k j : Category)
        → entry (schedule_bit categories sample every j s) k ≡ (
            if names categories j && same j k
            then some (record { boundary = sample; every = every })
            else entry s k)
    unfolding schedule_bit
    entry-schedule_bit gain gain = ground (arith, names-with_bit gain gain s.pending)
    entry-schedule_bit gain rf = ground (arith, names-with_bit gain rf s.pending)
    entry-schedule_bit gain fs = ground (arith, names-with_bit gain fs s.pending)
    entry-schedule_bit rf gain = ground (arith, names-with_bit rf gain s.pending)
    entry-schedule_bit rf rf = ground (arith, names-with_bit rf rf s.pending)
    entry-schedule_bit rf fs = ground (arith, names-with_bit rf fs s.pending)
    entry-schedule_bit fs gain = ground (arith, names-with_bit fs gain s.pending)
    entry-schedule_bit fs rf = ground (arith, names-with_bit fs rf s.pending)
    entry-schedule_bit fs fs = ground (arith, names-with_bit fs fs s.pending)

  entry-reset_bit :
      (k j : Category)
      → entry (reset_bit categories j s) k
        ≡ (if names categories j && same j k then none else entry s k)
  unfolding reset_bit
  entry-reset_bit gain gain = ground (arith, names-without_bit gain gain s.pending)
  entry-reset_bit gain rf = ground (arith, names-without_bit gain rf s.pending)
  entry-reset_bit gain fs = ground (arith, names-without_bit gain fs s.pending)
  entry-reset_bit rf gain = ground (arith, names-without_bit rf gain s.pending)
  entry-reset_bit rf rf = ground (arith, names-without_bit rf rf s.pending)
  entry-reset_bit rf fs = ground (arith, names-without_bit rf fs s.pending)
  entry-reset_bit fs gain = ground (arith, names-without_bit fs gain s.pending)
  entry-reset_bit fs rf = ground (arith, names-without_bit fs rf s.pending)
  entry-reset_bit fs fs = ground (arith, names-without_bit fs fs s.pending)

-- `schedule` gives each named category the boundary and the period, also a period of zero, and leaves the
-- others alone.
pub entry-schedule :
    (s : SyncUpdate) (categories sample every : ℕ) (k : Category)
    → entry (schedule s categories sample every) k ≡ (
        if names categories k
        then some (record { boundary = sample; every = every })
        else entry s k)
unfolding schedule
entry-schedule s categories sample every gain =
    simp (entry-schedule_bit, names-known) (ground arith)
entry-schedule s categories sample every rf = simp (entry-schedule_bit, names-known) (ground arith)
entry-schedule s categories sample every fs = simp (entry-schedule_bit, names-known) (ground arith)

-- `reset` cancels exactly the named categories.
pub entry-reset :
    (s : SyncUpdate) (categories : ℕ) (k : Category)
    → entry (reset s categories) k ≡ (if names categories k then none else entry s k)
unfolding reset
entry-reset s categories gain = simp (entry-reset_bit, names-known) (ground arith)
entry-reset s categories rf = simp (entry-reset_bit, names-known) (ground arith)
entry-reset s categories fs = simp (entry-reset_bit, names-known) (ground arith)

-- One category of the state, pending or not.
record Cell : Type 0 where
  on : Bool
  at : ℕ
  every : ℕ

abbrev cell : SyncUpdate → Category → Cell
cell s k = record { on = names s.pending k; at = slot s.due_at k; every = slot s.period k }

abbrev fire : Cell → Cell
fire c =
    if c.every == 0
    then record c { on = false }
    else record c { on = true; at = add_u32 c.at c.every }

module _ (s : SyncUpdate) (m : ℕ) where
  cell-consume_bit_self :
      (k : Category)
      → cell (consume_bit m k s) k ≡ (if names m k then fire (cell s k) else cell s k)
  unfolding consume_bit
  cell-consume_bit_self gain = ground (
    arith,
    names-without_bit gain gain s.pending,
    names-with_bit gain gain (without_bit gain s.pending),
  )
  cell-consume_bit_self rf =
      ground
        (arith, names-without_bit rf rf s.pending, names-with_bit rf rf (without_bit rf s.pending))
  cell-consume_bit_self fs =
      ground
        (arith, names-without_bit fs fs s.pending, names-with_bit fs fs (without_bit fs s.pending))

  cell-consume_bit_other :
      (k j : Category) → same j k ≡ false → cell (consume_bit m j s) k ≡ cell s k
  unfolding consume_bit
  cell-consume_bit_other gain gain h = cc
  cell-consume_bit_other rf rf h = cc
  cell-consume_bit_other fs fs h = cc
  cell-consume_bit_other gain rf h = ground (
    arith,
    names-without_bit gain rf s.pending,
    names-with_bit gain rf (without_bit rf s.pending),
  )
  cell-consume_bit_other gain fs h = ground (
    arith,
    names-without_bit gain fs s.pending,
    names-with_bit gain fs (without_bit fs s.pending),
  )
  cell-consume_bit_other rf gain h = ground (
    arith,
    names-without_bit rf gain s.pending,
    names-with_bit rf gain (without_bit gain s.pending),
  )
  cell-consume_bit_other rf fs h =
      ground
        (arith, names-without_bit rf fs s.pending, names-with_bit rf fs (without_bit fs s.pending))
  cell-consume_bit_other fs gain h = ground (
    arith,
    names-without_bit fs gain s.pending,
    names-with_bit fs gain (without_bit gain s.pending),
  )
  cell-consume_bit_other fs rf h =
      ground
        (arith, names-without_bit fs rf s.pending, names-with_bit fs rf (without_bit rf s.pending))

cell-consume :
    (s : SyncUpdate) (categories sample : ℕ) (k : Category)
    → cell (consume s categories sample) k
      ≡ (if names categories k && is_due s sample k then fire (cell s k) else cell s k)
unfolding consume
cell-consume s categories sample k = go k
  where
    m : ℕ
    m = both categories (due s sample)

    named : (j : Category) → names m j ≡ (names categories j && is_due s sample j)
    named j =
        names-both j categories (due s sample)
        ∙ ap (λ b. names categories j && b) (names-due j s sample)

    go :
        (j : Category)
        → cell (consume s categories sample) j
          ≡ (if names categories j && is_due s sample j then fire (cell s j) else cell s j)
    go gain = rw (← named gain) (
        cell-consume_bit_other _ m gain fs refl
        ∙ cell-consume_bit_other _ m gain rf refl
        ∙ cell-consume_bit_self s m gain)
    go rf = rw (← named rf) (
        cell-consume_bit_other _ m rf fs refl
        ∙ cell-consume_bit_self _ m rf
        ∙ ap (λ c. if names m rf then fire c else c) (cell-consume_bit_other s m rf gain refl))
    go fs = rw (← named fs) (
        cell-consume_bit_self _ m fs
        ∙ ap (λ c. if names m fs then fire c else c)
            (cell-consume_bit_other _ m fs rf refl ∙ cell-consume_bit_other s m fs gain refl))

abbrev of_cell : Cell → Option Entry
of_cell c = if c.on then some (record { boundary = c.at; every = c.every }) else none

-- `consume` fires exactly the named categories that are due: what was scheduled once is gone, what
-- is periodic moves by one period; nothing else changes.
pub entry-consume :
    (s : SyncUpdate) (categories sample : ℕ) (k : Category)
    → entry (consume s categories sample) k ≡ (
        if names categories k && entry_due (entry s k) sample then fired (entry s k) else entry s k)
entry-consume s categories sample k = ap of_cell (cell-consume s categories sample k) ∙ ground arith

-- `sample` lies at a boundary or fewer than 2^31 samples after it, modulo 2^32.
abbrev pub Past : ℕ → ℕ → Type 0
Past boundary sample = (n : ℕ) × (n < 2 ^ 31) × (sample ≡ (boundary + n) % 2 ^ 32)

-- `sample` lies before a boundary, by at most 2^31 samples.
abbrev pub Before : ℕ → ℕ → Type 0
Before boundary sample = (n : ℕ) × (0 < n) × (n ≤ 2 ^ 31) × (boundary ≡ (sample + n) % 2 ^ 32)

pub reached-Past :
    (sample boundary : ℕ)
    → sample < 2 ^ 32
    → boundary < 2 ^ 32
    → reached sample boundary ≡ true
    → Past boundary sample
reached-Past sample boundary hs hb h = (sub_u32 sample boundary, ltb→lt _ _ h, omega arith)

pub reached-Before :
    (sample boundary : ℕ)
    → sample < 2 ^ 32
    → boundary < 2 ^ 32
    → reached sample boundary ≡ false
    → Before boundary sample
reached-Before sample boundary hs hb h =
    (let far : 2 ^ 31 ≤ sub_u32 sample boundary = ground (arith, h) in
      (sub_u32 boundary sample, omega (arith, far), omega (arith, far), omega arith))

Past-reached :
    (sample boundary : ℕ)
    → sample < 2 ^ 32
    → boundary < 2 ^ 32
    → Past boundary sample
    → reached sample boundary ≡ true
Past-reached sample boundary hs hb (n, few, e) =
    (let d : sub_u32 sample boundary ≡ n = omega (arith, e, few) in rw d (ground arith))

-- A sample number at or after the boundary of something that is pending.
abbrev pub Due : SyncUpdate → ℕ → Category → Type 0
Due s sample k = (names s.pending k ≡ true) × Past (slot s.due_at k) sample

and→Due :
    (s : SyncUpdate) (sample : ℕ) (k : Category)
    → sample < 2 ^ 32
    → slot s.due_at k < 2 ^ 32
    → is_due s sample k ≡ true
    → Due s sample k
and→Due s sample k hs hb h =
    (ground arith, reached-Past sample (slot s.due_at k) hs hb (ground arith))

-- `due` reports a category exactly when something is pending for it and the sample number is at its
-- boundary or fewer than 2^31 samples past it, also when the uint32 counters wrap.
pub due-entry :
    (s : SyncUpdate) (sample : ℕ) (k : Category)
    → sample < 2 ^ 32
    → slot s.due_at k < 2 ^ 32
    → (names (due s sample) k ≡ true) ↔ Due s sample k
due-entry s sample k hs hb = (
  λ h. and→Due s sample k hs hb (sym (names-due k s sample) ∙ h),
  λ (on, past).
      names-due k s sample
      ∙ ap (λ b. b && reached sample (slot s.due_at k)) on
      ∙ Past-reached sample (slot s.due_at k) hs hb past,
)
