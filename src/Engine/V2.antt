-- ===== src/Engine/V2.antt =====
-- `ra_ppe_v2_hw_init`, `ra_ppe_v2_hw_deinit` and what they call, of
-- drivers/net/ethernet/ralink/ra_ppe_v2.c, with the registers of ra_ppe_v2_regs.h.
use ralink_fe.Base.{◌==◌, ◌!=◌, if◌then◌else◌, bit_and, bit_or}
use ralink_fe.Base.{ℕ, Bool, false, Option, none, some, List, [], ◌∷◌}
use ralink_fe.Base.Field.{u32_not, field_prep}
use ralink_fe.Mmio.{Regs, r32, w32, m32}
use ralink_fe.Flow.{FlowKey, Errno, einval, erange, Result, ok, err}
use ralink_fe.Tables.{HashTable}
use ralink_fe.V2.{FoeEntry, zero_entry}
use ralink_fe.V2.Offload.{cache_clear, reg_cah_ctrl}
use ralink_fe.Engine.{Engine, upper_32_bits, lower_32_bits, run, on_regs, clear_table, reset_tables}
use ralink_fe.Engine.V2Regs.{
  glo_cfg, flow_cfg, ip_prot_chk, tb_cfg, tb_base, bndr, bind_lmt_0, bind_lmt_1, reg_ka, unb_age,
  bnd_age_0, bnd_age_1, reg_hash_seed, fp_bmap_0, fp_bmap_1, fp_bmap_2, fp_bmap_3, fp_bmap_4,
  ttl0_drop, fbc_foe, fmc_foe, fuc_foe, ipv6_3t_route_en, ipv6_5t_route_en, ipv6_6rd_en,
  ipv4_nat_en, ipv4_napt_en, ipv4_dslite_en, tb_entry_num, tb_entry_size, tb_miss_action,
  tb_unb_age_en, tb_tcp_age_en, tb_udp_age_en, tb_fin_age_en, tb_ka_cfg, tb_hash_mode, cah_ctrl_en,
  ka_timer, ka_tcp, ka_udp, unb_age_delta, unb_age_min_pkt, bnd_age0_udp, bnd_age0_ntu,
  bnd_age1_tcp, bnd_age1_fin, bind_lmt0_quarter, bind_lmt0_half, bind_lmt1_full, bind_rate,
  hash_seed,
}

-- The size of the table that `ra_ppe_v2_get_foe_config` finds.
unfoldable pub get_tbl_size : ℕ → Result ℕ
get_tbl_size entries =
    if entries == 1024
    then ok 0
    else if entries == 2048
    then ok 1
    else if entries == 4096
    then ok 2
    else if entries == 8192
    then ok 3
    else if entries == 16384
    then ok 4
    else err einval

unfoldable pub config_ip_prot : Regs → Regs
config_ip_prot regs = w32 regs ip_prot_chk 0xffffffff

unfoldable pub set_bndr : ℕ → Regs → Regs
set_bndr pps regs = w32 regs bndr (field_prep bind_rate pps)

unfoldable pub set_entry_limits : ℕ → ℕ → ℕ → Regs → Regs
set_entry_limits full half quarter regs =
    w32
      (w32 regs bind_lmt_0
        (bit_or (field_prep bind_lmt0_quarter quarter) (field_prep bind_lmt0_half half)))
      bind_lmt_1 (field_prep bind_lmt1_full full)

unfoldable pub set_keepalive : ℕ → ℕ → ℕ → Regs → Regs
set_keepalive timer tcp udp regs =
    w32 regs reg_ka
      (bit_or (bit_or (field_prep ka_timer timer) (field_prep ka_tcp tcp)) (field_prep ka_udp udp))

unfoldable pub set_unb_age : ℕ → ℕ → Regs → Regs
set_unb_age min_packets timeout regs =
    w32 regs unb_age
      (bit_or (field_prep unb_age_min_pkt min_packets) (field_prep unb_age_delta timeout))

unfoldable pub set_bnd_age : ℕ → ℕ → ℕ → ℕ → Regs → Regs
set_bnd_age tcp_timeout udp_timeout ntu_timeout fin_timeout regs =
    w32
      (w32 regs bnd_age_0
        (bit_or (field_prep bnd_age0_udp udp_timeout) (field_prep bnd_age0_ntu ntu_timeout)))
      bnd_age_1 (bit_or (field_prep bnd_age1_tcp tcp_timeout) (field_prep bnd_age1_fin fin_timeout))

-- `RA_PPE_V2_MISS_CPU_BUILD`, `RA_PPE_V2_KA_UC_OLD_HDR`, `RA_PPE_V2_HASH_MODE_1`
abbrev pub miss_build : ℕ
miss_build = 3

abbrev pub ka_uc_old_hdr : ℕ
ka_uc_old_hdr = 1

abbrev pub hash_mode_1 : ℕ
hash_mode_1 = 1

abbrev pub tb_policy : ℕ
tb_policy = bit_or (bit_or tb_entry_size (field_prep tb_miss_action miss_build)) (
    bit_or (bit_or (bit_or (bit_or tb_unb_age_en tb_tcp_age_en) tb_udp_age_en) tb_fin_age_en)
      (bit_or (field_prep tb_ka_cfg ka_uc_old_hdr) (field_prep tb_hash_mode hash_mode_1)))

unfoldable pub config_table : ℕ → Regs → Regs
config_table tbl_size regs =
    w32 (w32 regs tb_cfg (bit_or (field_prep tb_entry_num tbl_size) tb_policy)) reg_hash_seed
      hash_seed

-- Nothing calls it.
abbrev pub ipv4_modes : ℕ
ipv4_modes = bit_or (bit_or fuc_foe ipv4_nat_en) ipv4_napt_en

unfoldable pub config_flow : Regs → Regs
config_flow regs = m32 regs flow_cfg ipv4_modes ipv4_modes

unfoldable pub config_fp_bmap : Regs → Regs
config_fp_bmap regs =
    w32
      (w32 (w32 (w32 (w32 regs fp_bmap_0 0x00020001) fp_bmap_1 0x00080004) fp_bmap_2 0x00200010)
        fp_bmap_3 0x00800040)
      fp_bmap_4 0x003f0000

unfoldable pub config_cache : Bool → Regs → Regs
config_cache enable regs =
    let cleared : Regs = cache_clear regs in
    let val : ℕ = r32 cleared reg_cah_ctrl in
    w32 cleared reg_cah_ctrl
      (if enable then bit_or val cah_ctrl_en else bit_and val (u32_not cah_ctrl_en))

unfoldable pub config_global : Regs → Regs
config_global regs = m32 regs glo_cfg ttl0_drop 0

unfoldable pub config_mt7620_fe : Regs → Regs
config_mt7620_fe regs = w32 regs 0x0d00 (bit_and (r32 regs 0x0d00) (u32_not 0x7777))

abbrev pub all_modes : ℕ
all_modes = bit_or (bit_or (bit_or fbc_foe fmc_foe) fuc_foe) (
    bit_or (bit_or (bit_or ipv6_3t_route_en ipv6_5t_route_en) ipv6_6rd_en)
      (bit_or (bit_or ipv4_nat_en ipv4_napt_en) ipv4_dslite_en))

unfoldable pub enable_flows : Regs → Regs
enable_flows regs = w32 regs flow_cfg all_modes

unfoldable pub disable_flows : Regs → Regs
disable_flows regs = w32 regs flow_cfg 0

module _ {T C : Type 0} where
  -- `ra_ppe_v2_hw_init` once its checks have passed, after the flows are off.
  abbrev pub init_steps : ℕ → List (Engine FoeEntry T C → Engine FoeEntry T C)
  init_steps tbl_size =
      (λ s. record s { regs = w32 s.regs tb_base (lower_32_bits s.foe_phys) })
      ∷ clear_table zero_entry
      ∷ on_regs (config_table tbl_size)
      ∷ on_regs config_ip_prot
      ∷ on_regs (set_bndr 30)
      ∷ on_regs (set_entry_limits 25 50 100)
      ∷ on_regs (set_keepalive 1 1 1)
      ∷ on_regs (set_unb_age 1000 3)
      ∷ on_regs (set_bnd_age 5 5 5 5)
      ∷ on_regs config_fp_bmap
      ∷ on_regs (config_cache false)
      ∷ on_regs config_mt7620_fe
      ∷ on_regs config_global
      ∷ on_regs enable_flows
      ∷ []

  unfoldable pub hw_init : Engine FoeEntry T C → Option Errno × Engine FoeEntry T C
  hw_init s = elim (get_tbl_size s.tables.ppe.foe_entries) [
    | err e ↦ (some e, s)
    | ok tbl_size ↦
        if upper_32_bits s.foe_phys != 0
        then (some erange, s)
        else (none, run (init_steps tbl_size) (on_regs disable_flows s))
  ]

  unfoldable pub hw_deinit :
      HashTable FlowKey T → HashTable ℕ C → Engine FoeEntry T C → Engine FoeEntry T C
  hw_deinit tuples cookies s = reset_tables tuples cookies (on_regs disable_flows s)
