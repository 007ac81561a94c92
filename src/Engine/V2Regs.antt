-- ===== src/Engine/V2Regs.antt =====
-- The registers and fields of drivers/net/ethernet/ralink/ra_ppe_v2_regs.h that the driver uses.
use ralink_fe.Base.{ℕ}
use ralink_fe.Base.Field.{Field, genmask, bit}

abbrev pub glo_cfg : ℕ
glo_cfg = 0x0e00

abbrev pub flow_cfg : ℕ
flow_cfg = 0x0e04

abbrev pub ip_prot_chk : ℕ
ip_prot_chk = 0x0e08

abbrev pub tb_cfg : ℕ
tb_cfg = 0x0e1c

abbrev pub tb_base : ℕ
tb_base = 0x0e20

abbrev pub bndr : ℕ
bndr = 0x0e28

abbrev pub bind_lmt_0 : ℕ
bind_lmt_0 = 0x0e2c

abbrev pub bind_lmt_1 : ℕ
bind_lmt_1 = 0x0e30

abbrev pub reg_ka : ℕ
reg_ka = 0x0e34

abbrev pub unb_age : ℕ
unb_age = 0x0e38

abbrev pub bnd_age_0 : ℕ
bnd_age_0 = 0x0e3c

abbrev pub bnd_age_1 : ℕ
bnd_age_1 = 0x0e40

abbrev pub reg_hash_seed : ℕ
reg_hash_seed = 0x0e44

abbrev pub fp_bmap_0 : ℕ
fp_bmap_0 = 0x0e48

abbrev pub fp_bmap_1 : ℕ
fp_bmap_1 = 0x0e4c

abbrev pub fp_bmap_2 : ℕ
fp_bmap_2 = 0x0e50

abbrev pub fp_bmap_3 : ℕ
fp_bmap_3 = 0x0e54

abbrev pub fp_bmap_4 : ℕ
fp_bmap_4 = 0x0e58

abbrev pub ttl0_drop : ℕ
ttl0_drop = bit 4

abbrev pub fbc_foe : ℕ
fbc_foe = bit 0

abbrev pub fmc_foe : ℕ
fmc_foe = bit 1

abbrev pub fuc_foe : ℕ
fuc_foe = bit 2

abbrev pub ipv6_3t_route_en : ℕ
ipv6_3t_route_en = bit 8

abbrev pub ipv6_5t_route_en : ℕ
ipv6_5t_route_en = bit 9

abbrev pub ipv6_6rd_en : ℕ
ipv6_6rd_en = bit 10

abbrev pub ipv4_nat_en : ℕ
ipv4_nat_en = bit 12

abbrev pub ipv4_napt_en : ℕ
ipv4_napt_en = bit 13

abbrev pub ipv4_dslite_en : ℕ
ipv4_dslite_en = bit 14

abbrev pub tb_entry_num : Field
tb_entry_num = genmask 2 0

abbrev pub tb_entry_size : ℕ
tb_entry_size = bit 3

abbrev pub tb_miss_action : Field
tb_miss_action = genmask 5 4

abbrev pub tb_unb_age_en : ℕ
tb_unb_age_en = bit 8

abbrev pub tb_tcp_age_en : ℕ
tb_tcp_age_en = bit 9

abbrev pub tb_udp_age_en : ℕ
tb_udp_age_en = bit 10

abbrev pub tb_fin_age_en : ℕ
tb_fin_age_en = bit 11

abbrev pub tb_ka_cfg : Field
tb_ka_cfg = genmask 13 12

abbrev pub tb_hash_mode : Field
tb_hash_mode = genmask 15 14

abbrev pub cah_ctrl_en : ℕ
cah_ctrl_en = bit 0

abbrev pub ka_timer : Field
ka_timer = genmask 15 0

abbrev pub ka_tcp : Field
ka_tcp = genmask 23 16

abbrev pub ka_udp : Field
ka_udp = genmask 31 24

abbrev pub unb_age_delta : Field
unb_age_delta = genmask 7 0

abbrev pub unb_age_min_pkt : Field
unb_age_min_pkt = genmask 31 16

abbrev pub bnd_age0_udp : Field
bnd_age0_udp = genmask 15 0

abbrev pub bnd_age0_ntu : Field
bnd_age0_ntu = genmask 31 16

abbrev pub bnd_age1_tcp : Field
bnd_age1_tcp = genmask 15 0

abbrev pub bnd_age1_fin : Field
bnd_age1_fin = genmask 31 16

abbrev pub bind_lmt0_quarter : Field
bind_lmt0_quarter = genmask 9 0

abbrev pub bind_lmt0_half : Field
bind_lmt0_half = genmask 25 16

abbrev pub bind_lmt1_full : Field
bind_lmt1_full = genmask 13 0

abbrev pub bind_rate : Field
bind_rate = genmask 15 0

abbrev pub hash_seed : ℕ
hash_seed = 0x12345678
