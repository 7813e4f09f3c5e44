-- ===== src/Daemon/Streaming.antt =====
-- What daemon/openrspd.c asks of the driver and the sockets while it streams and when it stops.
use openrsp.Base.{
  ap, sym, ◌∙◌, eq_ℤ_refl, ℕ, ◌+◌, ◌%◌, ◌^◌, Bool, true, false, not, ◌&&◌, ◌||◌, ◌==◌, negsuc, refl,
  ltb, if◌then◌else◌, ◌≡◌, ℤ, is_nonneg, List, ◌∷◌, length, arith,
}
use openrsp.Duo.{write_failure_stops_stream, route, role_for_descriptor}
use openrsp.Duo.Invariant.{IsValid}
use openrsp.Daemon.State.{
  Env, Daemon, Effect, iq, is_zero, streaming_stop, cancel_async, read_async, thread_join, write,
}
use openrsp.Daemon.Stream.{
  stop_stream, join_stream_thread, stream_main_end, send_stream, stream_target, next_sequence,
}
use openrsp.Daemon.Transfer.{
  cancelled, iq_write, is_fatal, asked_after, Marks, or_false, send_stream-trace, marks-send_stream,
}

module _ (env : Env) (d : Daemon) where
  -- Stopping a stream whose thread runs asks the driver to stop the bulk transfers, then to cancel
  -- the read, and joins the thread, in this order; the thread's read returns before the join does.
  -- Provided that the join succeeds, no thread is left and nothing is marked as streaming.
  pub stop_stream_lem :
      d.radio ≡ true
      → d.stream_thread_started ≡ true
      → d.thread_live ≡ true
      → is_zero (env.answer (cancel_async ∷ streaming_stop ∷ d.trace) thread_join) ≡ true
      → ((stop_stream env d).1.trace
          ≡ read_async ∷ thread_join ∷ cancel_async ∷ streaming_stop ∷ d.trace)
        × ((stop_stream env d).1.thread_live ≡ false)
        × ((stop_stream env d).1.stream_thread_started ≡ false)
        × ((stop_stream env d).1.streaming ≡ false)
        × ((stop_stream env d).1.radio ≡ true)
  unfolding stop_stream join_stream_thread stream_main_end
  stop_stream_lem r s l j = ground arith

abbrev pub is_masters : ℕ → Daemon → Bool
is_masters tuner d = d.duo.master_initialised && d.duo.master_tuner == tuner

abbrev pub is_slaves : ℕ → Daemon → Bool
is_slaves tuner d = d.duo.slave_initialised && d.duo.slave_tuner == tuner

-- Who receives a tuner's IQ: the owner, or in master/slave mode the client that holds the tuner and has
-- been initialised.
abbrev pub recipient : ℕ → Daemon → ℤ
recipient tuner d =
    if not d.duo_active
    then d.owner
    else if is_masters tuner d
    then d.duo.master_fd
    else if is_slaves tuner d
    then d.duo.slave_fd
    else negsuc 0

-- The number of the last frame of a tuner, and of the next one.
abbrev pub last_sequence : ℕ → Daemon → ℕ
last_sequence tuner d = if tuner == 2 then d.sequence_b else d.sequence_a

abbrev pub following : ℕ → Daemon → ℕ
following tuner d = (last_sequence tuner d + 1) % 2 ^ 32

abbrev pub iq_frame : ℕ → List ℕ → Daemon → Effect
iq_frame tuner buffer d = write (recipient tuner d) (iq tuner (following tuner d) buffer)

-- A transfer that has a recipient, and one whose write fails.
abbrev pub has_recipient : ℕ → Daemon → Bool
has_recipient tuner d = is_nonneg (recipient tuner d)

abbrev pub is_lost : Env → ℕ → List ℕ → Daemon → Bool
is_lost env tuner buffer d =
    has_recipient tuner d && not (is_zero (env.answer d.trace (iq_frame tuner buffer d)))

-- What a transfer asks for.
abbrev pub sent : Env → ℕ → List ℕ → Daemon → List Effect
sent env tuner buffer d =
    if not (has_recipient tuner d)
    then d.trace
    else if is_lost env tuner buffer d && (not d.duo_active || is_masters tuner d)
    then cancelled d (iq_frame tuner buffer d ∷ d.trace)
    else iq_frame tuner buffer d ∷ d.trace

-- In a consistent session these are the code's choices.
stream_target-recipient :
    (tuner : ℕ) (d : Daemon) → IsValid d.duo → stream_target tuner d ≡ recipient tuner d
unfolding stream_target route
stream_target-recipient tuner d v = ground arith

fatal_if :
    (tuner : ℕ) (d : Daemon)
    → IsValid d.duo
    → has_recipient tuner d ≡ true
    → is_fatal (recipient tuner d) d ≡ (not d.duo_active || is_masters tuner d)
unfolding write_failure_stops_stream role_for_descriptor
fatal_if tuner d v h = ground (arith, eq_ℤ_refl d.duo.master_fd, eq_ℤ_refl d.duo.slave_fd)

next_sequence-following : (tuner : ℕ) (d : Daemon) → next_sequence tuner d ≡ following tuner d
next_sequence-following tuner d = ground arith

-- The two ways to say what a transfer asks for agree.
choices :
    {A : Type 0} (has fine fatal ends : Bool) (none_asked asked cancels : A)
    → (has ≡ true → fatal ≡ ends)
    → (if not has then none_asked else if fine || not fatal then asked else cancels)
      ≡ (if not has then none_asked else if (has && not fine) && ends then cancels else asked)
choices has fine fatal ends none_asked asked cancels e = ground (arith, e)

module _ (env : Env) where
  sent-eq :
      (tuner : ℕ) (buffer : List ℕ) (d : Daemon)
      → IsValid d.duo
      → asked_after env tuner buffer d ≡ sent env tuner buffer d
  sent-eq tuner buffer d v =
      rw (stream_target-recipient tuner d v, next_sequence-following tuner d)
        (choices (has_recipient tuner d) (is_zero (env.answer d.trace (iq_frame tuner buffer d)))
          (is_fatal (recipient tuner d) d) (not d.duo_active || is_masters tuner d) d.trace
          (iq_frame tuner buffer d ∷ d.trace) (cancelled d (iq_frame tuner buffer d ∷ d.trace))
          (fatal_if tuner d v))

module _ (env : Env) where
  lost-eq :
      (tuner : ℕ) (buffer : List ℕ) (d : Daemon)
      → IsValid d.duo
      → (is_nonneg (stream_target tuner d)
          && not (is_zero (env.answer d.trace (iq_write tuner buffer d))))
        ≡ is_lost env tuner buffer d
  lost-eq tuner buffer d v =
      rw (stream_target-recipient tuner d v, next_sequence-following tuner d) refl

fields_of :
    (large for_b : Bool) (a b a' b' : ℕ) (e lost : Bool)
    → let m : Marks =
        if large
        then (a, b, e)
        else (if for_b then a else a', if for_b then b' else b, e || lost) in
      (m.0 ≡ (if large || for_b then a else a'))
      × (m.1 ≡ (if not large && for_b then b' else b))
      × (m.2 ≡ (e || (not large && lost)))
fields_of true for_b a b a' b' e lost = (refl, refl, sym (or_false e))
fields_of false true a b a' b' e lost = (refl, refl, refl)
fields_of false false a b a' b' e lost = (refl, refl, refl)

-- What a transfer of a tuner asks for, and what it leaves behind.
pub record Sent (env : Env) (tuner : ℕ) (buffer : List ℕ) (d y : Daemon) : Type 0 where
  pub asked :
      y.trace
      ≡ (if ltb 262144 (length buffer) then cancelled d d.trace else sent env tuner buffer d)
  pub number_a : y.sequence_a ≡ (
      if ltb 262144 (length buffer) || tuner == 2
      then d.sequence_a
      else (d.sequence_a + 1) % 2 ^ 32)
  pub number_b : y.sequence_b ≡ (
      if not (ltb 262144 (length buffer)) && tuner == 2
      then (d.sequence_b + 1) % 2 ^ 32
      else d.sequence_b)
  pub reported :
      y.client_write_error
      ≡ (d.client_write_error || (not (ltb 262144 (length buffer)) && is_lost env tuner buffer d))

module _ (env : Env) where
  -- In a consistent session, one transfer has one recipient: a transfer of at most 262144 bytes is
  -- written to the owner or, in master/slave mode, to the initialised client that holds the tuner, as one
  -- frame whose number is one more, modulo 2^32, than that of the tuner's last, and to no other client;
  -- with no such client nothing is asked. That number is kept as the tuner's last one. A failed write
  -- is reported to the main loop; one to the owner or to the master also cancels the USB stream if the
  -- receiver is open, one to the slave does not. A longer transfer cancels the stream of an open receiver and
  -- has no number.
  pub send_stream_lem :
      (tuner : ℕ) (buffer : List ℕ) (d : Daemon)
      → IsValid d.duo
      → Sent env tuner buffer d (send_stream env tuner buffer d).1
  send_stream_lem tuner buffer d v =
      (let y = (send_stream env tuner buffer d).1 in
        let large = ltb 262144 (length buffer) in
        let m = marks-send_stream env tuner buffer d in
        let f =
          fields_of large (tuner == 2) d.sequence_a d.sequence_b ((d.sequence_a + 1) % 2 ^ 32)
            ((d.sequence_b + 1) % 2 ^ 32) d.client_write_error
            (is_nonneg (stream_target tuner d)
              && not (is_zero (env.answer d.trace (iq_write tuner buffer d)))) in
        record {
          asked =
              send_stream-trace env tuner buffer d
              ∙ ap (λ t. if large then cancelled d d.trace else t) (sent-eq env tuner buffer d v);
          number_a = ap (λ k. k.0) m ∙ f.0;
          number_b = ap (λ k. k.1) m ∙ f.1;
          reported =
              ap (λ k. k.2) m
              ∙ f.2
              ∙ ap (λ l. d.client_write_error || (not large && l)) (lost-eq env tuner buffer d v);
        })
