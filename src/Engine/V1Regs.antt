-- ===== src/Engine/V1Regs.antt =====
-- The registers and fields of drivers/net/ethernet/ralink/ra_ppe_v1_regs.h that the driver uses.
use ralink_fe.Base.{ℕ, ◌+◌, ◌*◌, ◌^◌, bit_or}
use ralink_fe.Base.Field.{Field, genmask, bit, mask}

abbrev pub gdma1_fwd_cfg : ℕ
gdma1_fwd_cfg = 0x0020

abbrev pub glo_cfg : ℕ
glo_cfg = 0x0200

abbrev pub flow_set : ℕ
flow_set = 0x0214

abbrev pub foe_cfg : ℕ
foe_cfg = 0x0230

abbrev pub foe_base : ℕ
foe_base = 0x0234

abbrev pub foe_bndr : ℕ
foe_bndr = 0x023c

abbrev pub foe_lmt1 : ℕ
foe_lmt1 = 0x0240

abbrev pub foe_lmt2 : ℕ
foe_lmt2 = 0x0244

abbrev pub foe_ka : ℕ
foe_ka = 0x0248

abbrev pub foe_unb_age : ℕ
foe_unb_age = 0x024c

abbrev pub foe_bnd_age0 : ℕ
foe_bnd_age0 = 0x0250

abbrev pub foe_bnd_age1 : ℕ
foe_bnd_age1 = 0x0254

abbrev pub glo_en : ℕ
glo_en = bit 0

abbrev pub ttl0_drop : ℕ
ttl0_drop = bit 4

abbrev pub vpri_en : ℕ
vpri_en = bit 8

abbrev pub dpri_en : ℕ
dpri_en = bit 9

abbrev pub red_mode_mask : Field
red_mode_mask = genmask 13 12

abbrev pub acl_pri_en : ℕ
acl_pri_en = bit 14

abbrev pub fbc_foe : ℕ
fbc_foe = bit 2

abbrev pub fmc_foe : ℕ
fmc_foe = bit 10

abbrev pub fuc_foe : ℕ
fuc_foe = bit 18

abbrev pub ipv4_nat_en : ℕ
ipv4_nat_en = bit 26

abbrev pub ipv4_napt_en : ℕ
ipv4_napt_en = bit 27

abbrev pub gdm_fwd_ppe : ℕ
gdm_fwd_ppe = 6

abbrev pub gdm_ofrc_shift : ℕ
gdm_ofrc_shift = 0

abbrev pub gdm_mfrc_shift : ℕ
gdm_mfrc_shift = 4

abbrev pub gdm_bfrc_shift : ℕ
gdm_bfrc_shift = 8

abbrev pub gdm_ufrc_shift : ℕ
gdm_ufrc_shift = 12

abbrev pub gdm_frc_mask : ℕ → Field
gdm_frc_mask shift = genmask (shift + 2) shift

abbrev pub gdm_frc_val : ℕ → ℕ → ℕ
gdm_frc_val val shift = val * 2 ^ shift

abbrev pub gdm_all_frc_mask : ℕ
gdm_all_frc_mask =
    bit_or
      (bit_or (bit_or (mask (gdm_frc_mask gdm_ofrc_shift)) (mask (gdm_frc_mask gdm_mfrc_shift)))
        (mask (gdm_frc_mask gdm_bfrc_shift)))
      (mask (gdm_frc_mask gdm_ufrc_shift))

abbrev pub gdm_all_frc_ppe : ℕ
gdm_all_frc_ppe =
    bit_or
      (bit_or
        (bit_or (gdm_frc_val gdm_fwd_ppe gdm_ofrc_shift) (gdm_frc_val gdm_fwd_ppe gdm_mfrc_shift))
        (gdm_frc_val gdm_fwd_ppe gdm_bfrc_shift))
      (gdm_frc_val gdm_fwd_ppe gdm_ufrc_shift)

abbrev pub tbl_size_mask : Field
tbl_size_mask = genmask 2 0

abbrev pub hash_mode : ℕ
hash_mode = bit 3

abbrev pub miss_mask : Field
miss_mask = genmask 5 4

abbrev pub unb_age_en : ℕ
unb_age_en = bit 8

abbrev pub tcp_age_en : ℕ
tcp_age_en = bit 9

abbrev pub udp_age_en : ℕ
udp_age_en = bit 10

abbrev pub fin_age_en : ℕ
fin_age_en = bit 11

abbrev pub ka_original_header : ℕ
ka_original_header = bit 12

abbrev pub ka_en : ℕ
ka_en = bit 13

abbrev pub miss_cpu_build : ℕ
miss_cpu_build = 3

abbrev pub lmt1_quarter_mask : Field
lmt1_quarter_mask = genmask 13 0

abbrev pub lmt1_half_mask : Field
lmt1_half_mask = genmask 29 16

abbrev pub lmt2_full_mask : Field
lmt2_full_mask = genmask 13 0

abbrev pub quarter_limit : ℕ
quarter_limit = 100

abbrev pub half_limit : ℕ
half_limit = 50

abbrev pub full_limit : ℕ
full_limit = 25

abbrev pub ka_timer_mask : Field
ka_timer_mask = genmask 15 0

abbrev pub ka_tcp_mask : Field
ka_tcp_mask = genmask 23 16

abbrev pub ka_udp_mask : Field
ka_udp_mask = genmask 31 24

abbrev pub unb_age_delta_mask : Field
unb_age_delta_mask = genmask 7 0

abbrev pub unb_age_min_pkt_mask : Field
unb_age_min_pkt_mask = genmask 31 16

abbrev pub bnd_age0_udp_mask : Field
bnd_age0_udp_mask = genmask 15 0

abbrev pub bnd_age1_tcp_mask : Field
bnd_age1_tcp_mask = genmask 15 0

abbrev pub bnd_age1_fin_mask : Field
bnd_age1_fin_mask = genmask 31 16
