-- ===== src/Daemon/Lanes.antt =====
-- `duo_prepare_config` of daemon/openrspd.c: one valid lane is enough for a valid dual setting.
use openrsp.Base.{ℕ, Bool, true, false, ◌||◌, ◌≡◌, refl, arith, ◌==◌, ◌&&◌, eq_ℤ_refl}
use openrsp.Protocol.{RadioConfig, DualConfig}
use openrsp.Duo.{valid_rate}
use openrsp.Daemon.Config.{config_valid, valid_dual_config, tuner_a, tuner_b, required_if}
use openrsp.Daemon.Serve.Duo.{prepared, shared, borrowed}

abbrev pub is_lane : ℕ → RadioConfig → Bool
is_lane tuner c = config_valid c && c.tuner == tuner

shared-is_valid :
    (c : RadioConfig) (rate : ℕ)
    → config_valid c ≡ true
    → valid_rate rate ≡ true
    → config_valid (shared c rate) ≡ true
unfolding config_valid
shared-is_valid c rate v r = grind arith

borrowed-is_valid :
    (c : RadioConfig) (tuner : ℕ)
    → config_valid c ≡ true
    → (tuner == tuner_a || tuner == tuner_b) ≡ true
    → config_valid (borrowed c tuner) ≡ true
unfolding config_valid
borrowed-is_valid c tuner v t = grind arith

shared_pair :
    (a b : RadioConfig) (rate : ℕ)
    → is_lane tuner_a a ≡ true
    → is_lane tuner_b b ≡ true
    → valid_rate rate ≡ true
    → valid_dual_config
        (record { sample_rate_hz = rate; channel_a = shared a rate; channel_b = shared b rate })
      ≡ true
unfolding valid_dual_config
shared_pair a b rate la lb r =
    simp (eq_ℤ_refl (required_if rate))
      (ground (arith, shared-is_valid a rate, shared-is_valid b rate))

borrowed-is_lane :
    (c : RadioConfig) (t u : ℕ)
    → is_lane u c ≡ true
    → (t == tuner_a || t == tuner_b) ≡ true
    → is_lane t (borrowed c t) ≡ true
borrowed-is_lane c t u l v = ground (arith, borrowed-is_valid c t)

module _ (rate : ℕ) (c : DualConfig) where
  -- Where at least one lane is configured, each configured lane is a valid configuration of its
  -- tuner, and the rate is a rate of the dual mode, the configuration that is made for both lanes
  -- passes the check of dual configurations, whatever the other lane held.
  pub prepared_lem :
      (has_a has_b : Bool)
      → (has_a || has_b) ≡ true
      → (has_a ≡ true → is_lane tuner_a c.channel_a ≡ true)
      → (has_b ≡ true → is_lane tuner_b c.channel_b ≡ true)
      → valid_rate rate ≡ true
      → valid_dual_config (prepared has_a has_b rate c) ≡ true
  unfolding prepared
  prepared_lem true true o a b r = shared_pair c.channel_a c.channel_b rate (a refl) (b refl) r
  prepared_lem true false o a b r =
      shared_pair c.channel_a (borrowed c.channel_a tuner_b) rate (a refl)
        (borrowed-is_lane c.channel_a tuner_b tuner_a (a refl) refl) r
  prepared_lem false true o a b r =
      shared_pair (borrowed c.channel_b tuner_a) c.channel_b rate
        (borrowed-is_lane c.channel_b tuner_a tuner_b (b refl) refl) (b refl) r
  prepared_lem false false o a b r = ground arith
