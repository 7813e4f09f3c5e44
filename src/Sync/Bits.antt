-- ===== src/Sync/Bits.antt =====
-- The three category bits of a word of compat/sync_update.c, and one round of each loop over them.
use openrsp.Base.{ℕ, ◌≡◌, refl, Bool, true, false, not, ◌&&◌, ◌||◌, if◌then◌else◌, arith}
use openrsp.Sync.{
  Category, gain, rf, fs, SyncUpdate, names, with_bit, without_bit, known, both_bit, both, is_due,
  due_bit, due,
}

abbrev pub same : Category → Category → Bool
same gain gain = true
same rf rf = true
same fs fs = true
same gain rf = false
same gain fs = false
same rf gain = false
same rf fs = false
same fs gain = false
same fs rf = false

pub names-with_bit : (k j : Category) (x : ℕ) → names (with_bit j x) k ≡ (same j k || names x k)
unfolding names with_bit
names-with_bit gain gain x = ground arith
names-with_bit gain rf x = ground arith
names-with_bit gain fs x = ground arith
names-with_bit rf gain x = ground arith
names-with_bit rf rf x = ground arith
names-with_bit rf fs x = ground arith
names-with_bit fs gain x = ground arith
names-with_bit fs rf x = ground arith
names-with_bit fs fs x = ground arith

pub names-without_bit :
    (k j : Category) (x : ℕ) → names (without_bit j x) k ≡ (not (same j k) && names x k)
unfolding names without_bit
names-without_bit gain gain x = ground arith
names-without_bit gain rf x = ground arith
names-without_bit gain fs x = ground arith
names-without_bit rf gain x = ground arith
names-without_bit rf rf x = ground arith
names-without_bit rf fs x = ground arith
names-without_bit fs gain x = ground arith
names-without_bit fs rf x = ground arith
names-without_bit fs fs x = ground arith

pub names-known : (k : Category) (x : ℕ) → names (known x) k ≡ names x k
unfolding names known
names-known gain x = ground arith
names-known rf x = ground arith
names-known fs x = ground arith

pub names-zero : (k : Category) → names 0 k ≡ false
unfolding names
names-zero gain = refl
names-zero rf = refl
names-zero fs = refl

-- A round that sets bit `j` when `b` holds.
names-maybe :
    (k j : Category) (b : Bool) (x : ℕ)
    → names (if b then with_bit j x else x) k ≡ (same j k && b || names x k)
names-maybe k j true x = ground (arith, names-with_bit k j x)
names-maybe k j false x = ground arith

pub names-both : (k : Category) (a b : ℕ) → names (both a b) k ≡ (names a k && names b k)
unfolding both both_bit
names-both gain a b = simp (names-maybe, names-zero) (ground arith)
names-both rf a b = simp (names-maybe, names-zero) (ground arith)
names-both fs a b = simp (names-maybe, names-zero) (ground arith)

pub names-due :
    (k : Category) (s : SyncUpdate) (sample : ℕ) → names (due s sample) k ≡ is_due s sample k
unfolding due due_bit
names-due gain s sample = simp (names-maybe, names-zero) (ground arith)
names-due rf s sample = simp (names-maybe, names-zero) (ground arith)
names-due fs s sample = simp (names-maybe, names-zero) (ground arith)
