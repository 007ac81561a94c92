-- ===== src/Engine/V1.antt =====
-- `ra_ppe_v1_start`, `ra_ppe_v1_stop` and what they call, of
-- drivers/net/ethernet/ralink/ra_ppe_v1.c, with the registers of ra_ppe_v1_regs.h.
use ralink_fe.Base.{◌==◌, ◌!=◌, if◌then◌else◌, bit_or}
use ralink_fe.Base.{ℕ, Bool, true, false, not, Option, none, some, List, [], ◌∷◌}
use ralink_fe.Base.Field.{mask, field_prep}
use ralink_fe.Mmio.{Regs, w32, m32}
use ralink_fe.Flow.{FlowKey, Errno, einval, erange, Result, ok, err}
use ralink_fe.Tables.{HashTable}
use ralink_fe.V1.{Foe, zero_foe}
use ralink_fe.Engine.{Engine, upper_32_bits, lower_32_bits, run, on_regs, clear_table, reset_tables}
use ralink_fe.Engine.V1Regs.{
  gdma1_fwd_cfg, glo_cfg, flow_set, foe_cfg, foe_base, foe_bndr, foe_lmt1, foe_lmt2, foe_ka,
  foe_unb_age, foe_bnd_age0, foe_bnd_age1, glo_en, ttl0_drop, vpri_en, dpri_en, red_mode_mask,
  acl_pri_en, fbc_foe, fmc_foe, fuc_foe, ipv4_nat_en, ipv4_napt_en, gdm_all_frc_mask,
  gdm_all_frc_ppe, tbl_size_mask, hash_mode, miss_mask, unb_age_en, tcp_age_en, udp_age_en,
  fin_age_en, ka_original_header, ka_en, miss_cpu_build, lmt1_quarter_mask, lmt1_half_mask,
  lmt2_full_mask, quarter_limit, half_limit, full_limit, ka_timer_mask, ka_tcp_mask, ka_udp_mask,
  unb_age_delta_mask, unb_age_min_pkt_mask, bnd_age0_udp_mask, bnd_age1_tcp_mask, bnd_age1_fin_mask,
}

-- `struct ra_ppe_v1_foe_config`
pub record FoeConfig : Type 0 where
  pub tbl_size : ℕ
  pub ka_interval : ℕ

abbrev pub config : ℕ → ℕ → Result FoeConfig
config tbl_size ka_interval = ok (record { tbl_size = tbl_size; ka_interval = ka_interval })

unfoldable pub get_foe_config : ℕ → Result FoeConfig
get_foe_config entries =
    if entries == 1024
    then config 0 5
    else if entries == 2048
    then config 1 3
    else if entries == 4096
    then config 2 1
    else if entries == 8192
    then config 3 1
    else if entries == 16384
    then config 4 1
    else err einval

unfoldable pub set_gdma_fwd : Bool → Regs → Regs
set_gdma_fwd enable regs =
    m32 regs gdma1_fwd_cfg gdm_all_frc_mask (if enable then gdm_all_frc_ppe else 0)

abbrev pub flow_modes : ℕ
flow_modes = bit_or (bit_or (bit_or (bit_or ipv4_napt_en ipv4_nat_en) fuc_foe) fmc_foe) fbc_foe

unfoldable pub enable_foe : Bool → Regs → Regs
enable_foe enable regs = m32 regs flow_set flow_modes (if enable then flow_modes else 0)

unfoldable pub config_engine : Regs → Regs
config_engine regs =
    let priorities : ℕ = bit_or (bit_or vpri_en dpri_en) acl_pri_en in
    m32 regs glo_cfg (bit_or (bit_or ttl0_drop priorities) (mask red_mode_mask))
      (bit_or priorities (field_prep red_mode_mask 1))

unfoldable pub enable_engine : Bool → Regs → Regs
enable_engine enable regs = m32 regs glo_cfg glo_en (if enable then glo_en else 0)

unfoldable pub set_bind_rate : ℕ → Regs → Regs
set_bind_rate pps regs = w32 regs foe_bndr pps

unfoldable pub set_max_entry_limit : ℕ → ℕ → ℕ → Regs → Regs
set_max_entry_limit full half quarter regs =
    w32
      (w32 regs foe_lmt1
        (bit_or (field_prep lmt1_quarter_mask quarter) (field_prep lmt1_half_mask half)))
      foe_lmt2 (field_prep lmt2_full_mask full)

unfoldable pub set_ka_interval : ℕ → ℕ → ℕ → Regs → Regs
set_ka_interval timer tcp udp regs =
    m32 regs foe_ka (bit_or (bit_or (mask ka_timer_mask) (mask ka_tcp_mask)) (mask ka_udp_mask)) (
      bit_or (bit_or (field_prep ka_timer_mask timer) (field_prep ka_tcp_mask tcp))
        (field_prep ka_udp_mask udp))

unfoldable pub set_unbind_age : ℕ → ℕ → Regs → Regs
set_unbind_age min_packets timeout regs =
    m32 regs foe_unb_age (bit_or (mask unb_age_min_pkt_mask) (mask unb_age_delta_mask))
      (bit_or (field_prep unb_age_min_pkt_mask min_packets) (field_prep unb_age_delta_mask timeout))

unfoldable pub set_bind_age : ℕ → ℕ → ℕ → Regs → Regs
set_bind_age tcp_timeout udp_timeout fin_timeout regs =
    m32 (m32 regs foe_bnd_age0 (mask bnd_age0_udp_mask) (field_prep bnd_age0_udp_mask udp_timeout))
      foe_bnd_age1 (bit_or (mask bnd_age1_tcp_mask) (mask bnd_age1_fin_mask))
      (bit_or (field_prep bnd_age1_tcp_mask tcp_timeout) (field_prep bnd_age1_fin_mask fin_timeout))

-- The bits that `ra_ppe_v1_config_foe` sets in the configuration register, and those it names.
abbrev pub ageing : ℕ
ageing = bit_or (bit_or (bit_or unb_age_en tcp_age_en) udp_age_en) fin_age_en

abbrev pub learning : ℕ
learning = bit_or (bit_or (bit_or hash_mode (field_prep miss_mask miss_cpu_build)) ageing) ka_en

unfoldable pub foe_cfg_val : FoeConfig → ℕ
foe_cfg_val cfg = bit_or (field_prep tbl_size_mask cfg.tbl_size) learning

abbrev pub foe_cfg_mask : ℕ
foe_cfg_mask =
    bit_or (bit_or (bit_or (mask tbl_size_mask) hash_mode) (mask miss_mask))
      (bit_or (bit_or ageing ka_original_header) ka_en)

unfoldable pub config_foe : FoeConfig → Regs → Regs
unfolding foe_cfg_val set_bind_rate set_max_entry_limit set_ka_interval set_unbind_age set_bind_age
config_foe cfg regs =
    let configured : Regs = m32 regs foe_cfg foe_cfg_mask (foe_cfg_val cfg) in
    let limited : Regs =
      set_max_entry_limit full_limit half_limit quarter_limit (set_bind_rate 30 configured) in
    set_bind_age 5 5 5
      (set_unbind_age 1000 3 (set_ka_interval 1 cfg.ka_interval cfg.ka_interval limited))

module _ {T C : Type 0} (tuples : HashTable FlowKey T) (cookies : HashTable ℕ C) where
  -- `ra_ppe_v1_start` up to the table's clearing, and from the table's address on.
  abbrev pub quiesce_steps : List (Engine Foe T C → Engine Foe T C)
  quiesce_steps =
      on_regs (set_gdma_fwd false)
      ∷ on_regs (enable_engine false)
      ∷ on_regs (enable_foe false)
      ∷ reset_tables tuples cookies
      ∷ clear_table zero_foe
      ∷ []

  abbrev pub launch_steps : FoeConfig → List (Engine Foe T C → Engine Foe T C)
  launch_steps cfg =
      (λ s. record s { regs = w32 s.regs foe_base (lower_32_bits s.foe_phys) })
      ∷ on_regs (config_foe cfg)
      ∷ on_regs config_engine
      ∷ on_regs (enable_foe true)
      ∷ on_regs (enable_engine true)
      ∷ on_regs (set_gdma_fwd true)
      ∷ []

  -- The check of the table's address, and what follows it.
  unfoldable pub launch : FoeConfig → Engine Foe T C → Option Errno × Engine Foe T C
  launch cfg quiet =
      if upper_32_bits quiet.foe_phys != 0
      then (some erange, quiet)
      else (none, run (launch_steps cfg) quiet)

  -- `ra_ppe_v1_start`, with `none` for 0.
  unfoldable pub start : Engine Foe T C → Option Errno × Engine Foe T C
  unfolding get_foe_config launch
  start s =
      if not s.has_foe_table
      then (some einval, s)
      else elim (get_foe_config s.tables.ppe.foe_entries) [
        | err e ↦ (some e, s)
        | ok cfg ↦ launch cfg (run quiesce_steps s)
      ]

  -- `ra_ppe_v1_stop`
  unfoldable pub stop : Engine Foe T C → Engine Foe T C
  stop s =
      run
        (on_regs (set_gdma_fwd false)
          ∷ on_regs (enable_engine false)
          ∷ on_regs (enable_foe false)
          ∷ reset_tables tuples cookies
          ∷ [])
        s
