-- ===== src/Client/Transfer.antt =====
-- `transfer_exact` of src/client_posix.c: when it returns, and with what.
use openrsp.Base.{
  ℕ, zero, suc, ◌+◌, ◌-◌, ◌≤◌, ◌<◌, Bool, false, ltb, if◌then◌else◌, ◌≡◌, ◌≢◌, ◌∙◌, refl, subst,
  List, [], ◌∷◌, Option, some, none, arith,
}
use openrsp.Client.{Io, moved, interrupted, timed_out, broken, ok, timeout, Moved, transfer_exact}

-- The answers that end a call or move the transfer on.
abbrev pub answers : List Io → ℕ
answers [] = 0
answers (interrupted ∷ script) = answers script
answers (moved n ∷ script) = suc (answers script)
answers (timed_out ∷ script) = suc (answers script)
answers (broken ∷ script) = suc (answers script)

-- What a transfer that returns has done.
pub record Finished (writing : Bool) (bytes transferred : ℕ) (m : Moved) : Type 0 where
  pub complete : m.code ≡ ok → m.count ≡ transferred + bytes
  pub partial : m.code ≢ ok → m.count < transferred + bytes
  pub forward : transferred ≤ m.count
  pub idle : m.code ≡ timeout → (writing ≡ false) × (m.count ≡ 0)

-- The same of a transfer that may wait for ever.
abbrev Sound : Bool → ℕ → ℕ → Option Moved → Type 0
Sound writing bytes transferred none = Unit {0}
Sound writing bytes transferred (some m) = Finished writing bytes transferred m

further :
    (writing : Bool) (left n t : ℕ) (o : Option Moved)
    → Sound writing (left - n) (t + (if ltb left n then suc left else suc n)) o
    → Sound writing (suc left) t o
further writing left n t none f = tt
further writing left n t (some m) f = ground arith

sound :
    (writing : Bool) (script : List Io) (bytes transferred : ℕ)
    → Sound writing bytes transferred (transfer_exact writing script bytes transferred)
unfolding transfer_exact
sound w script zero t = ground arith
sound w [] (suc left) t = tt
sound w (interrupted ∷ script) (suc left) t = sound w script (suc left) t
sound w (broken ∷ script) (suc left) t = ground arith
sound w (timed_out ∷ script) (suc left) t = ground arith
sound w (moved zero ∷ script) (suc left) t = ground arith
sound w (moved (suc n) ∷ script) (suc left) t =
    further w left n t
      (transfer_exact w script (left - n) (t + (if ltb left n then suc left else suc n)))
      (sound w script (left - n) (t + (if ltb left n then suc left else suc n)))

pub transfer_exact-Finished :
    (writing : Bool) (script : List Io) (bytes transferred : ℕ) (m : Moved)
    → transfer_exact writing script bytes transferred ≡ some m
    → Finished writing bytes transferred m
transfer_exact-Finished w script bytes t m e = subst (Sound w bytes t) e (sound w script bytes t)

transfer_exact-ne-none :
    (writing : Bool) (script : List Io) (bytes transferred : ℕ)
    → bytes ≤ answers script
    → transfer_exact writing script bytes transferred ≢ none
unfolding transfer_exact
transfer_exact-ne-none w script zero t h = cc
transfer_exact-ne-none w [] (suc left) t h = absurd (omega arith)
transfer_exact-ne-none w (interrupted ∷ script) (suc left) t h =
    transfer_exact-ne-none w script (suc left) t h
transfer_exact-ne-none w (broken ∷ script) (suc left) t h = cc
transfer_exact-ne-none w (timed_out ∷ script) (suc left) t h = cc
transfer_exact-ne-none w (moved zero ∷ script) (suc left) t h = cc
transfer_exact-ne-none w (moved (suc n) ∷ script) (suc left) t h =
    transfer_exact-ne-none w script (left - n) (t + (if ltb left n then suc left else suc n))
      (omega arith)

returned : (o : Option Moved) → o ≢ none → (m : Moved) × (o ≡ some m)
returned none h = absurd (h refl)
returned (some m) h = (m, refl)

-- A transfer of `bytes` bytes returns once the socket has answered so often without being
-- interrupted. It succeeds exactly when all bytes were moved, and it reports a timeout only for a
-- read that moved none.
pub transfer_exact_lem :
    (writing : Bool) (script : List Io) (bytes : ℕ)
    → bytes ≤ answers script
    → (m : Moved) × (transfer_exact writing script bytes 0 ≡ some m) × Finished writing bytes 0 m
transfer_exact_lem w script bytes h =
    (let done =
        returned (transfer_exact w script bytes 0) (transfer_exact-ne-none w script bytes 0 h) in
      (done.0, done.1, transfer_exact-Finished w script bytes 0 done.0 done.1))

-- A socket that moves bytes whenever it is asked.
abbrev pub Steady : List Io → Type 0
Steady [] = Unit {0}
Steady (interrupted ∷ script) = Steady script
Steady (moved n ∷ script) = (0 < n) × Steady script
Steady (timed_out ∷ script) = ⊥
Steady (broken ∷ script) = ⊥

-- Over such a socket a transfer succeeds and uses at most one answer a byte.
pub transfer_exact-Steady :
    (writing : Bool) (script : List Io) (bytes transferred spare : ℕ)
    → Steady script
    → bytes + spare ≤ answers script
    → (left : List Io) × (transfer_exact writing script bytes transferred
        ≡ some (record { code = ok; count = transferred + bytes; left = left }))
      × Steady left
      × (spare ≤ answers left)
unfolding transfer_exact
transfer_exact-Steady w script zero t k s h = (script, ground arith, s, omega arith)
transfer_exact-Steady w [] (suc left) t k s h = absurd (omega arith)
transfer_exact-Steady w (interrupted ∷ script) (suc left) t k s h =
    transfer_exact-Steady w script (suc left) t k s h
transfer_exact-Steady w (timed_out ∷ script) (suc left) t k s h = absurd s
transfer_exact-Steady w (broken ∷ script) (suc left) t k s h = absurd s
transfer_exact-Steady w (moved zero ∷ script) (suc left) t k s h = absurd (omega arith)
transfer_exact-Steady w (moved (suc n) ∷ script) (suc left) t k s h =
    (let step = if ltb left n then suc left else suc n in
      let rest = transfer_exact-Steady w script (left - n) (t + step) k s.1 (omega arith) in
      (rest.0, rest.1 ∙ ground arith, rest.2, rest.3))
