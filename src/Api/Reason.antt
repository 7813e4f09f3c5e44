-- ===== src/Api/Reason.antt =====
-- sdrplay_api_ReasonForUpdateT and its extension, of src/compat/sdrplay_api_compat.h: words of bits. A
-- reason that the code tests is the number of its bit.
use openrsp.Base.{ℕ, Bool, false, ◌||◌, List, [], ◌∷◌, has_bit}

abbrev pub dev_fs : ℕ
dev_fs = 0

abbrev pub dev_ppm : ℕ
dev_ppm = 1

abbrev pub dev_sync_update : ℕ
dev_sync_update = 2

abbrev pub dev_reset_flags : ℕ
dev_reset_flags = 3

abbrev pub rsp1a_bias_t_control : ℕ
rsp1a_bias_t_control = 4

abbrev pub rsp1a_rf_notch_control : ℕ
rsp1a_rf_notch_control = 5

abbrev pub rsp1a_rf_dab_notch_control : ℕ
rsp1a_rf_dab_notch_control = 6

abbrev pub rsp2_bias_t_control : ℕ
rsp2_bias_t_control = 7

abbrev pub rsp2_am_port_select : ℕ
rsp2_am_port_select = 8

abbrev pub rsp2_antenna_control : ℕ
rsp2_antenna_control = 9

abbrev pub rsp2_rf_notch_control : ℕ
rsp2_rf_notch_control = 10

abbrev pub rsp2_ext_ref_control : ℕ
rsp2_ext_ref_control = 11

abbrev pub rspduo_ext_ref_control : ℕ
rspduo_ext_ref_control = 12

abbrev pub master_spare_1 : ℕ
master_spare_1 = 13

abbrev pub master_spare_2 : ℕ
master_spare_2 = 14

abbrev pub tuner_gr : ℕ
tuner_gr = 15

abbrev pub tuner_gr_limits : ℕ
tuner_gr_limits = 16

abbrev pub tuner_frf : ℕ
tuner_frf = 17

abbrev pub tuner_bw_type : ℕ
tuner_bw_type = 18

abbrev pub tuner_if_type : ℕ
tuner_if_type = 19

abbrev pub tuner_dc_offset : ℕ
tuner_dc_offset = 20

abbrev pub tuner_lo_mode : ℕ
tuner_lo_mode = 21

abbrev pub ctrl_dc_offset_iq_imbalance : ℕ
ctrl_dc_offset_iq_imbalance = 22

abbrev pub ctrl_decimation : ℕ
ctrl_decimation = 23

abbrev pub ctrl_agc : ℕ
ctrl_agc = 24

abbrev pub ctrl_adsb_mode : ℕ
ctrl_adsb_mode = 25

abbrev pub ctrl_overload_msg_ack : ℕ
ctrl_overload_msg_ack = 26

abbrev pub rspduo_bias_t_control : ℕ
rspduo_bias_t_control = 27

abbrev pub rspduo_am_port_select : ℕ
rspduo_am_port_select = 28

abbrev pub rspduo_tuner1_am_notch_control : ℕ
rspduo_tuner1_am_notch_control = 29

abbrev pub rspduo_rf_notch_control : ℕ
rspduo_rf_notch_control = 30

abbrev pub rspduo_rf_dab_notch_control : ℕ
rspduo_rf_dab_notch_control = 31

-- The bit of the extension that the RSPduo knows; the six below it are other models'.
abbrev pub reset_slave_flags : ℕ
reset_slave_flags = 6

-- `(reason & (A | B | ...)) != 0u`
unfoldable pub any_of : List ℕ → ℕ → Bool
any_of [] word = false
any_of (k ∷ ks) word = has_bit k word || any_of ks word
