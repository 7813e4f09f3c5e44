-- ===== src/Daemon/Transfer.antt =====
-- What one transfer of `send_stream` in daemon/openrspd.c asks for and marks, by the code's own choices.
use openrsp.Base.{
  Bool-cases, inl, inr, ℕ, ◌+◌, ◌%◌, ◌^◌, Bool, true, false, not, ◌&&◌, ◌||◌, ◌==◌, refl, ltb,
  if◌then◌else◌, ◌≡◌, ℤ, is_nonneg, List, ◌∷◌, length, arith,
}
use openrsp.Duo.{write_failure_stops_stream}
use openrsp.Daemon.State.{M, modify, when, Env, Daemon, Effect, iq, is_zero, cancel_async, write}
use openrsp.Daemon.Stream.{
  send_stream, stream_target, stream_slot_bytes, cancel_if_open, next_sequence, bumped,
  write_failed, deliver,
}

abbrev pub cancelled : Daemon → List Effect → List Effect
cancelled d asked = if d.radio then cancel_async ∷ asked else asked

abbrev pub iq_write : ℕ → List ℕ → Daemon → Effect
iq_write tuner buffer d = write (stream_target tuner d) (iq tuner (next_sequence tuner d) buffer)

-- Whether a failed write to a client ends the USB stream.
abbrev pub is_fatal : ℤ → Daemon → Bool
is_fatal target d = not d.duo_active || write_failure_stops_stream d.duo target

abbrev pub asked_after : Env → ℕ → List ℕ → Daemon → List Effect
asked_after env tuner buffer d =
    if not (is_nonneg (stream_target tuner d))
    then d.trace
    else if is_zero (env.answer d.trace (iq_write tuner buffer d))
        || not (is_fatal (stream_target tuner d) d)
    then iq_write tuner buffer d ∷ d.trace
    else cancelled d (iq_write tuner buffer d ∷ d.trace)

abbrev logged : Daemon → Daemon
logged d = record d { logged_usb_iq = true; first_iq_seen = true }

module _ (env : Env) where
  cancel_if_open-trace : (d : Daemon) → (cancel_if_open env d).1.trace ≡ cancelled d d.trace
  unfolding cancel_if_open
  cancel_if_open-trace d = ground arith

  write_failed-trace :
      (target : ℤ) (d : Daemon)
      → (write_failed env target d).1.trace
        ≡ (if is_fatal target d then cancelled d d.trace else d.trace)
  unfolding write_failed cancel_if_open
  write_failed-trace target d = ground arith

  deliver-trace :
      (tuner : ℕ) (buffer : List ℕ) (d : Daemon)
      → (deliver env tuner buffer d).1.trace ≡ asked_after env tuner buffer d
  unfolding deliver stream_target
  deliver-trace tuner buffer d = ground (
    arith,
    write_failed-trace (stream_target tuner d)
        (record (bumped tuner d) { trace = iq_write tuner buffer d ∷ d.trace }),
  )

  -- What follows the log of the first transfer, by whether the transfer is too large.
  abbrev transfer : Bool → ℕ → List ℕ → M (Unit {0})
  transfer large tuner buffer = if large then cancel_if_open env else deliver env tuner buffer

  transfer-trace :
      (large : Bool) (tuner : ℕ) (buffer : List ℕ) (d : Daemon)
      → (transfer large tuner buffer d).1.trace
        ≡ (if large then cancelled d d.trace else asked_after env tuner buffer d)
  transfer-trace true tuner buffer d = cancel_if_open-trace d
  transfer-trace false tuner buffer d = deliver-trace tuner buffer d

  abbrev first_logged : Bool → Daemon → Daemon
  first_logged seen d = (when (not seen) (modify logged) d).1

  first_logged-trace :
      (seen large : Bool) (tuner : ℕ) (buffer : List ℕ) (d : Daemon)
      → (transfer large tuner buffer (first_logged seen d)).1.trace
        ≡ (if large then cancelled d d.trace else asked_after env tuner buffer d)
  unfolding stream_target
  first_logged-trace true large tuner buffer d = transfer-trace large tuner buffer d
  first_logged-trace false large tuner buffer d = transfer-trace large tuner buffer (logged d)

  pub send_stream-trace :
      (tuner : ℕ) (buffer : List ℕ) (d : Daemon)
      → (send_stream env tuner buffer d).1.trace ≡ (
          if ltb stream_slot_bytes (length buffer)
          then cancelled d d.trace
          else asked_after env tuner buffer d)
  unfolding send_stream
  send_stream-trace tuner buffer d =
      first_logged-trace d.logged_usb_iq (ltb stream_slot_bytes (length buffer)) tuner buffer d

-- The numbers of the last frames, and whether a failed write waits for the main loop.
abbrev pub Marks : Type 0
Marks = ℕ × ℕ × Bool

abbrev pub marks : Daemon → Marks
marks d = (d.sequence_a, d.sequence_b, d.client_write_error)

abbrev pub marks_after : Env → ℕ → List ℕ → Daemon → Marks
marks_after env tuner buffer d = (
  if tuner == 2 then d.sequence_a else (d.sequence_a + 1) % 2 ^ 32,
  if tuner == 2 then (d.sequence_b + 1) % 2 ^ 32 else d.sequence_b,
  d.client_write_error
      || (is_nonneg (stream_target tuner d)
          && not (is_zero (env.answer d.trace (iq_write tuner buffer d)))),
)

pub or_false : (b : Bool) → (b || false) ≡ b
or_false true = refl
or_false false = refl

or_true : (b : Bool) → (b || true) ≡ true
or_true true = refl
or_true false = refl

module _ (env : Env) where
  marks-cancel_if_open : (d : Daemon) → marks (cancel_if_open env d).1 ≡ marks d
  unfolding cancel_if_open
  marks-cancel_if_open d = ground arith

  marks-write_failed :
      (target : ℤ) (d : Daemon)
      → marks (write_failed env target d).1 ≡ (d.sequence_a, d.sequence_b, true)
  unfolding write_failed cancel_if_open
  marks-write_failed target d = ground arith

  marks-deliver :
      (tuner : ℕ) (buffer : List ℕ) (d : Daemon)
      → marks (deliver env tuner buffer d).1 ≡ marks_after env tuner buffer d
  unfolding deliver stream_target
  marks-deliver tuner buffer d = elim (Bool-cases (is_nonneg (stream_target tuner d))) [
    | inr nobody ↦ rw (nobody, or_false d.client_write_error) refl
    | inl client ↦ elim (Bool-cases (is_zero (env.answer d.trace (iq_write tuner buffer d)))) [
      | inl whole ↦ rw (client, whole, or_false d.client_write_error) refl
      | inr failed ↦
          rw (client, failed, or_true d.client_write_error)
            (marks-write_failed (stream_target tuner d)
              (record (bumped tuner d) { trace = iq_write tuner buffer d ∷ d.trace }))
    ]
  ]

  marks-transfer :
      (large : Bool) (tuner : ℕ) (buffer : List ℕ) (d : Daemon)
      → marks (transfer env large tuner buffer d).1
        ≡ (if large then marks d else marks_after env tuner buffer d)
  marks-transfer true tuner buffer d = marks-cancel_if_open d
  marks-transfer false tuner buffer d = marks-deliver tuner buffer d

  marks-first_logged :
      (seen large : Bool) (tuner : ℕ) (buffer : List ℕ) (d : Daemon)
      → marks (transfer env large tuner buffer (first_logged env seen d)).1
        ≡ (if large then marks d else marks_after env tuner buffer d)
  unfolding stream_target
  marks-first_logged true large tuner buffer d = marks-transfer large tuner buffer d
  marks-first_logged false large tuner buffer d = marks-transfer large tuner buffer (logged d)

  pub marks-send_stream :
      (tuner : ℕ) (buffer : List ℕ) (d : Daemon)
      → marks (send_stream env tuner buffer d).1
        ≡ (if ltb 262144 (length buffer) then marks d else marks_after env tuner buffer d)
  unfolding send_stream
  marks-send_stream tuner buffer d =
      marks-first_logged d.logged_usb_iq (ltb stream_slot_bytes (length buffer)) tuner buffer d
