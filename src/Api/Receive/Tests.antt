-- ===== src/Api/Receive/Tests.antt =====
-- Three frames after the last sequence number of uint32, two lost before the last of them.
use openrsp.Base.{ℤ, pos, true, ◌+◌, ◌^◌, ◌%◌, ◌≡◌, refl, List, [], ◌∷◌, arith}
use openrsp.Api.{tuner_a}
use openrsp.Api.Whole.{whole, running}
use openrsp.Api.Context.{Context, lane}
use openrsp.Api.Receive.{Received, tuner_of}
use openrsp.Api.Receive.Timeline.{Arrival, sum_samples, run, Follows, run-sum_samples}

abbrev arriving : List (ℤ × ℤ) → Received
arriving iq = record { iq = iq; sequence = 0; protocol_tuner = 1; filtered = iq; rms = 7 }

abbrev frames : List Arrival
frames =
    (0, arriving ((pos 1, pos 2) ∷ (pos 3, pos 4) ∷ []))
    ∷ (0, arriving ((pos 5, pos 6) ∷ []))
    ∷ (2, arriving ((pos 7, pos 8) ∷ (pos 9, pos 7) ∷ []))
    ∷ []

abbrev before_wrap : Context whole
before_wrap = record running {
  lane_a = record running.lane_a {
    last_iq_sequence = 0xffffffff;
    iq_sequence_seen = true;
    sample_number = 0xfffffffe;
  };
}

follows : Follows 0xffffffff tuner_a before_wrap
follows = record { buffers = refl; seen = refl; sequence = refl; small = omega arith }

run-sum_samples_example :
    (lane tuner_a (run 0xffffffff frames before_wrap)).sample_number
    ≡ (0xfffffffe + sum_samples frames) % 2 ^ 32
unfolding tuner_of
run-sum_samples_example = run-sum_samples 0xffffffff tuner_a frames before_wrap follows (
  refl,
  omega arith,
  omega arith,
  (refl, omega arith, omega arith, (refl, omega arith, omega arith, tt)),
)

samples_counted : (0xfffffffe + sum_samples frames) % 2 ^ 32 ≡ 7
unfolding sum_samples
samples_counted = refl
