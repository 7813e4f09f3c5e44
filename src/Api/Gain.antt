-- ===== src/Api/Gain.antt =====
-- The gain of the RSPduo: the tables of LNA states of src/compat/sdrplay_api_compat.c, and which settings
-- `openrsp_rspduo_gain_values` of src/compat/gain_values.c has a calibration for. The calibrated gains,
-- which are floats, are not modelled.
use openrsp.Base.{
  ℕ, ℤ, pos, Bool, true, false, not, ◌&&◌, ◌||◌, ltb, ◌==◌, if◌then◌else◌, leb_ℤ, Option, none,
  some, List, [], ◌∷◌, get_elem?,
}
use openrsp.Api.{Tuner, is_a}
use openrsp.Api.Params.{Doubles, Channel}

-- `a < b` on int
abbrev pub less_ℤ : ℤ → ℤ → Bool
less_ℤ a b = not (leb_ℤ b a)

abbrev below_60mhz : List ℕ
below_60mhz = 0 ∷ 6 ∷ 12 ∷ 18 ∷ 37 ∷ 42 ∷ 61 ∷ []

abbrev below_420mhz : List ℕ
below_420mhz = 0 ∷ 6 ∷ 12 ∷ 18 ∷ 20 ∷ 26 ∷ 32 ∷ 38 ∷ 57 ∷ 62 ∷ []

abbrev below_1ghz : List ℕ
below_1ghz = 0 ∷ 7 ∷ 13 ∷ 19 ∷ 20 ∷ 27 ∷ 33 ∷ 39 ∷ 45 ∷ 64 ∷ []

abbrev below_2ghz : List ℕ
below_2ghz = 0 ∷ 6 ∷ 12 ∷ 20 ∷ 26 ∷ 32 ∷ 38 ∷ 43 ∷ 62 ∷ []

-- The frequencies of the calibration, in Hz, with the number of LNA states that each has.
abbrev gain_knots : List (ℕ × ℕ)
gain_knots =
    (0, 7)
    ∷ (1000, 7)
    ∷ (100000, 7)
    ∷ (1000000, 7)
    ∷ (5000000, 7)
    ∷ (10000000, 7)
    ∷ (11999000, 7)
    ∷ (12000000, 7)
    ∷ (20000000, 7)
    ∷ (29999000, 7)
    ∷ (30000000, 7)
    ∷ (50000000, 7)
    ∷ (59999000, 7)
    ∷ (60000000, 10)
    ∷ (80000000, 10)
    ∷ (100000000, 10)
    ∷ (101100000, 10)
    ∷ (119999000, 10)
    ∷ (120000000, 10)
    ∷ (150000000, 10)
    ∷ (200000000, 10)
    ∷ (249999000, 10)
    ∷ (250000000, 10)
    ∷ (299999000, 10)
    ∷ (300000000, 10)
    ∷ (350000000, 10)
    ∷ (379999000, 10)
    ∷ (380000000, 10)
    ∷ (400000000, 10)
    ∷ (419999000, 10)
    ∷ (420000000, 10)
    ∷ (500000000, 10)
    ∷ (700000000, 10)
    ∷ (853863000, 10)
    ∷ (900000000, 10)
    ∷ (999999000, 10)
    ∷ (1000000000, 9)
    ∷ (1200000000, 9)
    ∷ (1500000000, 9)
    ∷ (1800000000, 9)
    ∷ (2000000000, 9)
    ∷ []

abbrev high_impedance_gain_knots : List (ℕ × ℕ)
high_impedance_gain_knots =
    (0, 5)
    ∷ (1000, 5)
    ∷ (100000, 5)
    ∷ (1000000, 5)
    ∷ (5000000, 5)
    ∷ (10000000, 5)
    ∷ (11999000, 5)
    ∷ (12000000, 5)
    ∷ (15000000, 5)
    ∷ (20000000, 5)
    ∷ (25000000, 5)
    ∷ (29999000, 5)
    ∷ (29999500, 5)
    ∷ []

module _ (D : Doubles) where
  open D use {Double, of_ℕ, is_finite, less, at_most, same, add, mul, div, floor}

  -- The reduction of an LNA state in dB, where there is one.
  unfoldable pub rspduo_lna_gain_reduction : Double → ℕ → Option ℕ
  rspduo_lna_gain_reduction rf_hz state =
      if less rf_hz (of_ℕ 60000000)
      then get_elem? below_60mhz state
      else if less rf_hz (of_ℕ 420000000)
      then get_elem? below_420mhz state
      else if less rf_hz (of_ℕ 1000000000)
      then get_elem? below_1ghz state
      else if at_most rf_hz (of_ℕ 2000000000)
      then get_elem? below_2ghz state
      else none

  unfoldable pub rspduo_am_port_lna_state_valid : Channel D → Tuner → Bool
  rspduo_am_port_lna_state_valid c tuner =
      not (is_a tuner)
      || not (c.am_port_sel == 1)
      || at_most (of_ℕ 60000000) c.rf_hz
      || ltb c.lna_state 5

  -- The numbers of LNA states at the knots on both sides of a frequency; `low` is the knot before.
  unfoldable pub knots_at : Double → ℕ → List (ℕ × ℕ) → ℕ × ℕ
  knots_at lookup_hz low [] = (low, low)
  knots_at lookup_hz low ((rf_hz, states) ∷ knots) =
      if same lookup_hz (of_ℕ rf_hz)
      then (states, states)
      else if less lookup_hz (of_ℕ rf_hz)
      then (low, states)
      else knots_at lookup_hz states knots

  -- Below both numbers of states?
  abbrev has_state : ℕ → ℕ × ℕ → Bool
  has_state lna_state (low, high) = ltb lna_state low && ltb lna_state high

  -- Does `openrsp_rspduo_gain_values` give the gains?
  unfoldable pub gain_values : Double → ℕ → ℤ → ℕ → Bool → Bool
  gain_values rf_hz lna_state gain_reduction_db minimum_db high_impedance_input =
      if not (is_finite rf_hz)
        || less rf_hz (of_ℕ 0)
        || less (of_ℕ 2000000000) rf_hz
        || (not (minimum_db == 0) && not (minimum_db == 20))
        || less_ℤ gain_reduction_db (pos minimum_db)
        || less_ℤ (pos 59) gain_reduction_db
      then false
      else if high_impedance_input && at_most (of_ℕ 30000000) rf_hz
      then ltb lna_state 5
      else (let lookup_hz =
            if high_impedance_input || less rf_hz (of_ℕ 1000)
            then rf_hz
            else mul (floor (div (add rf_hz (of_ℕ 500)) (of_ℕ 1000))) (of_ℕ 1000) in
          has_state lna_state (
            if high_impedance_input
            then knots_at lookup_hz 5 high_impedance_gain_knots
            else knots_at lookup_hz 7 gain_knots))

  abbrev pub is_missing : Option ℕ → Bool
  is_missing none = true
  is_missing (some x) = false

  -- What `apply_rspduo_gain_locked` tests before it asks the daemon.
  unfoldable pub gain_in_range : Channel D → Tuner → Bool
  gain_in_range c tuner = not (
      less_ℤ c.gr_db (pos c.min_gr)
      || less_ℤ (pos 59) c.gr_db
      || is_missing (rspduo_lna_gain_reduction c.rf_hz c.lna_state)
      || not (rspduo_am_port_lna_state_valid c tuner))

  -- Does tuner A listen on its AM port?
  abbrev pub high_impedance : Channel D → Tuner → Bool
  high_impedance c tuner = is_a tuner && c.am_port_sel == 1

  -- `apply_rspduo_gain_locked` succeeds if this is so, and the daemon accepts the update before.
  unfoldable pub gain_has_values : Channel D → Tuner → Bool
  gain_has_values c tuner =
      gain_values c.rf_hz c.lna_state c.gr_db c.min_gr (high_impedance c tuner)
