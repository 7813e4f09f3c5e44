-- ===== src/Base/Rings.antt =====
-- A C ring: an array, the index of its oldest entry and how many there are. The sums of indices stay
-- below twice the capacity, so they do not wrap in unsigned int.
use Prim.Native.Nat.{ℕ, zero, suc, ◌+◌, ◌-◌, ◌%◌, ◌≤◌, ◌<◌}
use mathlib.Core.Path.{◌≡◌, refl, sym, ap, ◌∙◌}
use mathlib.Core.Logic.{◌≢◌}
use mathlib.Core.Bool.{Bool, true, false}
use mathlib.Core.List.{List, [], ◌∷◌, ◌++◌}
use native.Mathlib.Nat.{mod-eq_of_lt, mod-eq-sub-mod, mod-add-mod, mod-lt}
use native.Mathlib.Decide.{dec_lt}
use native.Mathlib.Omega.{arith}
use openrsp.Base.Tests.{◌==◌, if◌then◌else◌}
use openrsp.Base.Lists.{length}

pub record Ring {ℓ} (A : Type ℓ) : Type ℓ where
  pub slots : ℕ → A
  pub head : ℕ
  pub count : ℕ

module _ {ℓ} {A : Type ℓ} where
  -- `slots[i] = x`
  abbrev pub write : (ℕ → A) → ℕ → A → ℕ → A
  write slots i x j = if j == i then x else slots j

  -- f 0, f 1, ..., f (n - 1)
  abbrev pub tabulate : ℕ → (ℕ → A) → List A
  tabulate zero f = []
  tabulate (suc n) f = f 0 ∷ tabulate n (λ k. f (suc k))

  pub length-tabulate : (n : ℕ) (f : ℕ → A) → length (tabulate n f) ≡ n
  length-tabulate zero f = refl
  length-tabulate (suc n) f = ap suc (length-tabulate n (λ k. f (suc k)))

  tabulate-suc : (n : ℕ) (f : ℕ → A) → tabulate (suc n) f ≡ tabulate n f ++ (f n ∷ [])
  tabulate-suc zero f = refl
  tabulate-suc (suc n) f = ap (λ l. f 0 ∷ l) (tabulate-suc n (λ k. f (suc k)))

  pub tabulate_ext :
      (n : ℕ) (f g : ℕ → A) → ((k : ℕ) → k < n → f k ≡ g k) → tabulate n f ≡ tabulate n g
  tabulate_ext zero f g e = refl
  tabulate_ext (suc n) f g e =
      ap (λ x. x ∷ tabulate n (λ k. f (suc k))) (e 0 (omega arith))
      ∙ ap (λ l. g 0 ∷ l)
          (tabulate_ext n (λ k. f (suc k)) (λ k. g (suc k)) (λ k h. e (suc k) (omega arith)))

  -- `queue[(head + count) % capacity] = x; ++count`
  abbrev pub put : ℕ → A → Ring A → Ring A
  put capacity x r = record r {
    slots = write r.slots ((r.head + r.count) % capacity) x;
    count = r.count + 1;
  }

  -- `head = (head + 1) % capacity; --count`, for a ring that is not empty
  abbrev pub drop_head : ℕ → Ring A → Ring A
  drop_head capacity r = record r { head = (r.head + 1) % capacity; count = r.count - 1 }

  -- `queue[head]`
  abbrev pub front : Ring A → A
  front r = r.slots r.head

  -- What is queued, the oldest first.
  abbrev pub contents : ℕ → Ring A → List A
  contents capacity r = tabulate r.count (λ k. r.slots ((r.head + k) % capacity))

  pub length-contents : (capacity : ℕ) (r : Ring A) → length (contents capacity r) ≡ r.count
  length-contents capacity r = length-tabulate r.count (λ k. r.slots ((r.head + k) % capacity))

  -- The indices are those of an array of `capacity` entries.
  pub record InBounds (capacity : ℕ) (r : Ring A) : Type 0 where
    pub head : r.head < capacity
    pub count : r.count ≤ capacity

mod-ne :
    (capacity h k n : ℕ)
    → h < capacity
    → k < n
    → n < capacity
    → (h + k) % capacity ≢ (h + n) % capacity
mod-ne capacity h k n a b c = elim (dec_lt (h + k) capacity) [
  | yes p ↦ elim (dec_lt (h + n) capacity) [
    | yes q ↦ omega (arith, mod-eq_of_lt p, mod-eq_of_lt q)
    | no q ↦ omega (
      arith,
      mod-eq_of_lt p,
      mod-eq-sub-mod {n = h + n} {m = capacity} (omega arith),
      mod-eq_of_lt {n = h + n - capacity} {m = capacity} (omega arith),
    )
  ]
  | no p ↦ omega (
    arith,
    mod-eq-sub-mod {n = h + k} {m = capacity} (omega arith),
    mod-eq_of_lt {n = h + k - capacity} {m = capacity} (omega arith),
    mod-eq-sub-mod {n = h + n} {m = capacity} (omega arith),
    mod-eq_of_lt {n = h + n - capacity} {m = capacity} (omega arith),
  )
]

write_other {ℓ} :
    {A : Type ℓ} (slots : ℕ → A) (i j : ℕ) (x : A) → j ≢ i → write slots i x j ≡ slots j
write_other slots i j x h = ground arith

write_self {ℓ} : {A : Type ℓ} (slots : ℕ → A) (i : ℕ) (x : A) → write slots i x i ≡ x
write_self slots i x = ground arith

pub put-InBounds {ℓ} :
    {A : Type ℓ} (capacity : ℕ) (x : A) (r : Ring A)
    → InBounds capacity r
    → r.count < capacity
    → InBounds capacity (put capacity x r)
put-InBounds capacity x r b h = record { head = b.head; count = omega arith }

pub drop_head-InBounds {ℓ} :
    {A : Type ℓ} (capacity : ℕ) (r : Ring A)
    → InBounds capacity r
    → InBounds capacity (drop_head capacity r)
drop_head-InBounds capacity r b = record {
  head = mod-lt (r.head + 1) (omega (arith, b.head));
  count = omega (arith, b.count);
}

-- A put adds at the end and moves no other entry.
pub contents-put {ℓ} :
    {A : Type ℓ} (capacity : ℕ) (x : A) (r : Ring A)
    → InBounds capacity r
    → r.count < capacity
    → contents capacity (put capacity x r) ≡ contents capacity r ++ (x ∷ [])
contents-put {A = A} capacity x r b h =
    ap (λ n. tabulate n new) grown
    ∙ tabulate-suc r.count new
    ∙ ap (λ l. l ++ (new r.count ∷ []))
        (tabulate_ext r.count new (λ k. r.slots ((r.head + k) % capacity))
          (λ k less.
            write_other r.slots last ((r.head + k) % capacity) x
              (mod-ne capacity r.head k r.count b.head less h)))
    ∙ ap (λ y. contents capacity r ++ (y ∷ [])) (write_self r.slots last x)
  where
    grown : r.count + 1 ≡ suc r.count
    grown = omega arith

    last : ℕ
    last = (r.head + r.count) % capacity

    new : ℕ → A
    new k = write r.slots last x ((r.head + k) % capacity)

-- Dropping the head takes the first entry away.
pub contents-drop_head {ℓ} :
    {A : Type ℓ} (capacity : ℕ) (r : Ring A)
    → InBounds capacity r
    → 0 < r.count
    → contents capacity r ≡ front r ∷ contents capacity (drop_head capacity r)
contents-drop_head {A = A} capacity r b h =
    ap (λ n. tabulate n old) one_more
    ∙ ap (λ x. x ∷ tabulate (r.count - 1) (λ k. old (suc k)))
        (ap r.slots (ap (λ i. i % capacity) start ∙ mod-eq_of_lt b.head))
    ∙ ap (λ l. front r ∷ l)
        (tabulate_ext (r.count - 1) (λ k. old (suc k))
          (λ k. r.slots (((r.head + 1) % capacity + k) % capacity))
          (λ k less. ap r.slots (shift k)))
  where
    old : ℕ → A
    old k = r.slots ((r.head + k) % capacity)

    one_more : r.count ≡ suc (r.count - 1)
    one_more = omega arith

    start : r.head + 0 ≡ r.head
    start = omega arith

    next : (k : ℕ) → r.head + suc k ≡ r.head + 1 + k
    next k = omega arith

    shift : (k : ℕ) → (r.head + suc k) % capacity ≡ ((r.head + 1) % capacity + k) % capacity
    shift k = ap (λ i. i % capacity) (next k) ∙ sym (mod-add-mod (r.head + 1) capacity k)

module _ {ℓ} {A : Type ℓ} where
  -- What a bounded queue keeps when it drops its oldest entry for a new one.
  abbrev pub rest : List A → List A
  rest [] = []
  rest (x ∷ xs) = xs

  abbrev pub trimmed : ℕ → List A → List A
  trimmed capacity xs = if length xs == capacity then rest xs else xs

  -- Before an entry is put into a full ring its oldest one goes.
  abbrev pub make_room : ℕ → Ring A → Ring A
  make_room capacity r = if r.count == capacity then drop_head capacity r else r

  rest-contents :
      (capacity : ℕ) (r : Ring A)
      → InBounds capacity r
      → r.count ≡ capacity
      → rest (contents capacity r) ≡ contents capacity (drop_head capacity r)
  rest-contents capacity r b h = ap rest (contents-drop_head capacity r b (omega (arith, b.head)))

  room :
      (capacity : ℕ) (r : Ring A) (full long : Bool)
      → full ≡ long
      → (full ≡ true → rest (contents capacity r) ≡ contents capacity (drop_head capacity r))
      → contents capacity (if full then drop_head capacity r else r)
        ≡ (if long then rest (contents capacity r) else contents capacity r)
  room capacity r true true e h = sym (h refl)
  room capacity r false false e h = refl
  room capacity r true false e h = absurd cc
  room capacity r false true e h = absurd cc

  pub contents-make_room :
      (capacity : ℕ) (r : Ring A)
      → InBounds capacity r
      → contents capacity (make_room capacity r) ≡ trimmed capacity (contents capacity r)
  contents-make_room capacity r b =
      room capacity r (r.count == capacity) (length (contents capacity r) == capacity)
        (ap (λ n. n == capacity) (sym (length-contents capacity r)))
        (λ full. rest-contents capacity r b (full_of full))
    where
      full_of : (r.count == capacity) ≡ true → r.count ≡ capacity
      full_of h = ground arith

  pub make_room-InBounds :
      (capacity : ℕ) (r : Ring A)
      → InBounds capacity r
      → InBounds capacity (make_room capacity r) × ((make_room capacity r).count < capacity)
  make_room-InBounds capacity r b = ground (arith, b.head, b.count, drop_head-InBounds capacity r b)

  -- A put that drops the oldest entry of a full ring.
  abbrev pub put_newest : ℕ → A → Ring A → Ring A
  put_newest capacity x r = put capacity x (make_room capacity r)

  pub put_newest-InBounds :
      (capacity : ℕ) (x : A) (r : Ring A)
      → InBounds capacity r
      → InBounds capacity (put_newest capacity x r)
  put_newest-InBounds capacity x r b =
      (let roomy = make_room-InBounds capacity r b in
        put-InBounds capacity x (make_room capacity r) roomy.0 roomy.1)

  pub contents-put_newest :
      (capacity : ℕ) (x : A) (r : Ring A)
      → InBounds capacity r
      → contents capacity (put_newest capacity x r)
        ≡ trimmed capacity (contents capacity r) ++ (x ∷ [])
  contents-put_newest capacity x r b =
      (let roomy = make_room-InBounds capacity r b in
        contents-put capacity x (make_room capacity r) roomy.0 roomy.1
        ∙ ap (λ l. l ++ (x ∷ [])) (contents-make_room capacity r b))
