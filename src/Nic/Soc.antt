-- ===== src/Nic/Soc.antt =====
-- The tables of the systems-on-chip of drivers/net/ethernet/ralink/ralink_fe.c: `struct ralink_fe_reg_map`
-- and `struct ralink_fe_soc_data` of ralink_fe.h, and the values for each. A member that an initialiser
-- leaves out is 0 or a null pointer.
use ralink_fe.Base.{Array, bit_or}
use ralink_fe.Base.{ℕ, zero, suc, Bool, true, false, Option, none, some, List, [], ◌∷◌}
use ralink_fe.Base.Field.{bit}
use ralink_fe.Tx.{Tx4Port, none_port, pnqn, fp}
use ralink_fe.Hw.Setup.{
  SchedRegs, PdmaSched, sched_wrr, sched_shaper, CdmRegs, GdmaRegs, SdmRegs, sdm_checksums,
}

-- A C array from its initialiser.
abbrev pub listed : List ℕ → Array ℕ
listed [] i = 0
listed (x ∷ xs) zero = x
listed (x ∷ xs) (suc i) = listed xs i

pub record RegMap : Type 0 where
  pub tx_base_ptr : Array ℕ
  pub tx_max_cnt : Array ℕ
  pub tx_cpu_idx : Array ℕ
  pub tx_dma_idx : Array ℕ
  pub rx_base_ptr : Array ℕ
  pub rx_max_cnt : Array ℕ
  pub rx_cpu_idx : Array ℕ
  pub tx_dly_irq : ℕ
  pub rx_dly_irq : ℕ
  pub glo_cfg : ℕ
  pub rst_idx : ℕ
  pub dly_int_cfg : ℕ
  pub int_status : ℕ
  pub int_enable : ℕ

pub record SocData : Type 0 where
  pub reg_map : RegMap
  pub pdma_bt_size : ℕ
  pub pdma_sched_regs : Option SchedRegs
  pub pdma_sched : PdmaSched
  pub cdm_regs : Option CdmRegs
  pub gdma1_regs : Option GdmaRegs
  pub gdma2_regs : Option GdmaRegs
  pub sdm_regs : Option SdmRegs
  pub txqs : ℕ
  pub rxqs : ℕ
  pub rx4_v2 : Bool
  pub rx4_sp_valid : Bool
  pub tx4_port : Tx4Port
  pub vlan_id_base : ℕ
  pub rx_csum_ctrl : ℕ
  pub rx_csum_ctrl_set : ℕ
  pub rx_csum_ctrl_clear : ℕ
  pub rx_csum_valid : ℕ
  pub rx_csum_clear : ℕ
  pub mac_adr_l : ℕ
  pub mac_adr_h : ℕ
  pub foe_entries : ℕ

abbrev pub pdma_v1_regs : RegMap
pdma_v1_regs = record {
  tx_base_ptr = listed (0x0110 ∷ 0x0120 ∷ 0x0140 ∷ 0x0150 ∷ []);
  tx_max_cnt = listed (0x0114 ∷ 0x0124 ∷ 0x0144 ∷ 0x0154 ∷ []);
  tx_cpu_idx = listed (0x0118 ∷ 0x0128 ∷ 0x0148 ∷ 0x0158 ∷ []);
  tx_dma_idx = listed (0x011c ∷ 0x012c ∷ 0x014c ∷ 0x015c ∷ []);
  rx_base_ptr = listed (0x0130 ∷ []);
  rx_max_cnt = listed (0x0134 ∷ []);
  rx_cpu_idx = listed (0x0138 ∷ []);
  tx_dly_irq = bit 1;
  rx_dly_irq = bit 0;
  glo_cfg = 0x0100;
  rst_idx = 0x0104;
  dly_int_cfg = 0x010c;
  int_status = 0x0010;
  int_enable = 0x0014;
}

abbrev pub pdma_v2_regs : RegMap
pdma_v2_regs = record {
  tx_base_ptr = listed (0x0800 ∷ 0x0810 ∷ 0x0820 ∷ 0x0830 ∷ []);
  tx_max_cnt = listed (0x0804 ∷ 0x0814 ∷ 0x0824 ∷ 0x0834 ∷ []);
  tx_cpu_idx = listed (0x0808 ∷ 0x0818 ∷ 0x0828 ∷ 0x0838 ∷ []);
  tx_dma_idx = listed (0x080c ∷ 0x081c ∷ 0x082c ∷ 0x083c ∷ []);
  rx_base_ptr = listed (0x0900 ∷ 0x0910 ∷ []);
  rx_max_cnt = listed (0x0904 ∷ 0x0914 ∷ []);
  rx_cpu_idx = listed (0x0908 ∷ 0x0918 ∷ []);
  tx_dly_irq = bit 28;
  rx_dly_irq = bit 30;
  glo_cfg = 0x0a04;
  rst_idx = 0x0a08;
  dly_int_cfg = 0x0a0c;
  int_status = 0x0a20;
  int_enable = 0x0a28;
}

abbrev pub pdmav1_wrr_sched_regs : SchedRegs
pdmav1_wrr_sched_regs = record { cfg0 = 0x0108; cfg1 = 0 }

abbrev pub pdmav1_shaper_sched_regs : SchedRegs
pdmav1_shaper_sched_regs = record { cfg0 = 0x01f4; cfg1 = 0x01f8 }

abbrev pub pdmav2_sched_regs : SchedRegs
pdmav2_sched_regs = record { cfg0 = 0x0a80; cfg1 = 0x0a84 }

abbrev pub cdm_v1_regs : CdmRegs
cdm_v1_regs = record { csg_cfg = 0x0080; cdm_sch_cfg = 0x0084 }

abbrev pub gdma1_v1_regs : GdmaRegs
gdma1_v1_regs = record { fwd_cfg = 0x0020; gdm_sch_cfg = 0x0024; shpr_cfg = 0x0028 }

abbrev pub gdma2_v1_regs : GdmaRegs
gdma2_v1_regs = record { fwd_cfg = 0x0060; gdm_sch_cfg = 0x0064; shpr_cfg = 0x0068 }

abbrev pub mt7620_cdm_regs : CdmRegs
mt7620_cdm_regs = record { csg_cfg = 0x0400; cdm_sch_cfg = 0 }

abbrev pub mt7620_gdma_regs : GdmaRegs
mt7620_gdma_regs = record { fwd_cfg = 0x0600; gdm_sch_cfg = 0; shpr_cfg = 0x0604 }

abbrev pub mt7620_gdma2_regs : GdmaRegs
mt7620_gdma2_regs = record { fwd_cfg = 0x0d00; gdm_sch_cfg = 0; shpr_cfg = 0x0d04 }

abbrev pub sdm_v1_regs : SdmRegs
sdm_v1_regs = record { con = 0x0c00; rring = 0x0c04; tring = 0x0c08 }

-- `GDM_ICS_EN | GDM_TCS_EN | GDM_UCS_EN`
abbrev pub gdm_checksums : ℕ
gdm_checksums = bit_or (bit_or (bit 22) (bit 21)) (bit 20)

-- PDMA_BT_SIZE_8WORDS, PDMA_BT_SIZE_16WORDS
abbrev pub bt_size_8words : ℕ
bt_size_8words = 0x10

abbrev pub bt_size_16words : ℕ
bt_size_16words = 0x20

abbrev pub rt2880_data : SocData
rt2880_data = record {
  reg_map = pdma_v1_regs;
  pdma_bt_size = bt_size_8words;
  pdma_sched_regs = some pdmav1_wrr_sched_regs;
  pdma_sched = sched_wrr;
  cdm_regs = some cdm_v1_regs;
  gdma1_regs = some gdma1_v1_regs;
  gdma2_regs = some gdma2_v1_regs;
  sdm_regs = none;
  txqs = 2;
  rxqs = 1;
  rx4_v2 = false;
  rx4_sp_valid = false;
  tx4_port = pnqn;
  vlan_id_base = 0xa8;
  rx_csum_ctrl = 0x0020;
  rx_csum_ctrl_set = gdm_checksums;
  rx_csum_ctrl_clear = 0xffff;
  rx_csum_valid = bit 30;
  rx_csum_clear = bit_or (bit 28) (bit 29);
  mac_adr_l = 0x002c;
  mac_adr_h = 0x0030;
  foe_entries = 1024;
}

abbrev pub rt305x_data : SocData
rt305x_data = record {
  reg_map = pdma_v1_regs;
  pdma_bt_size = bt_size_8words;
  pdma_sched_regs = some pdmav1_wrr_sched_regs;
  pdma_sched = sched_wrr;
  cdm_regs = some cdm_v1_regs;
  gdma1_regs = some gdma1_v1_regs;
  gdma2_regs = some gdma2_v1_regs;
  sdm_regs = none;
  txqs = 4;
  rxqs = 1;
  rx4_v2 = false;
  rx4_sp_valid = false;
  tx4_port = pnqn;
  vlan_id_base = 0xa8;
  rx_csum_ctrl = 0x0020;
  rx_csum_ctrl_set = gdm_checksums;
  rx_csum_ctrl_clear = 0xffff;
  rx_csum_valid = bit 30;
  rx_csum_clear = bit_or (bit 28) (bit 29);
  mac_adr_l = 0x002c;
  mac_adr_h = 0x0030;
  foe_entries = 4096;
}

abbrev pub rt3883_data : SocData
rt3883_data = record {
  reg_map = pdma_v1_regs;
  pdma_bt_size = bt_size_8words;
  pdma_sched_regs = some pdmav1_shaper_sched_regs;
  pdma_sched = sched_shaper;
  cdm_regs = some cdm_v1_regs;
  gdma1_regs = some gdma1_v1_regs;
  gdma2_regs = some gdma2_v1_regs;
  sdm_regs = none;
  txqs = 4;
  rxqs = 1;
  rx4_v2 = false;
  rx4_sp_valid = false;
  tx4_port = pnqn;
  vlan_id_base = 0xa8;
  rx_csum_ctrl = 0x0020;
  rx_csum_ctrl_set = gdm_checksums;
  rx_csum_ctrl_clear = 0xffff;
  rx_csum_valid = bit 30;
  rx_csum_clear = bit_or (bit 28) (bit 29);
  mac_adr_l = 0x002c;
  mac_adr_h = 0x0030;
  foe_entries = 4096;
}

abbrev pub rt5350_data : SocData
rt5350_data = record {
  reg_map = pdma_v2_regs;
  pdma_bt_size = bt_size_8words;
  pdma_sched_regs = some pdmav2_sched_regs;
  pdma_sched = sched_wrr;
  cdm_regs = none;
  gdma1_regs = none;
  gdma2_regs = none;
  sdm_regs = some sdm_v1_regs;
  txqs = 4;
  rxqs = 2;
  rx4_v2 = false;
  rx4_sp_valid = true;
  tx4_port = none_port;
  vlan_id_base = 0;
  rx_csum_ctrl = 0x0c00;
  rx_csum_ctrl_set = 0;
  rx_csum_ctrl_clear = sdm_checksums;
  rx_csum_valid = bit 30;
  rx_csum_clear = bit_or (bit 28) (bit 29);
  mac_adr_l = 0x0c0c;
  mac_adr_h = 0x0c10;
  foe_entries = 0;
}

abbrev pub mt7620_data : SocData
mt7620_data = record {
  reg_map = pdma_v2_regs;
  pdma_bt_size = bt_size_16words;
  pdma_sched_regs = some pdmav2_sched_regs;
  pdma_sched = sched_shaper;
  cdm_regs = some mt7620_cdm_regs;
  gdma1_regs = some mt7620_gdma_regs;
  gdma2_regs = some mt7620_gdma2_regs;
  sdm_regs = none;
  txqs = 4;
  rxqs = 2;
  rx4_v2 = true;
  rx4_sp_valid = true;
  tx4_port = fp;
  vlan_id_base = 0x430;
  rx_csum_ctrl = 0x0600;
  rx_csum_ctrl_set = gdm_checksums;
  rx_csum_ctrl_clear = 0x7;
  rx_csum_valid = bit 23;
  rx_csum_clear = bit_or (bit 22) (bit 25);
  mac_adr_l = 0x13fe4;
  mac_adr_h = 0x13ff8;
  foe_entries = 4096;
}

abbrev pub mt76x8_data : SocData
mt76x8_data = record {
  reg_map = pdma_v2_regs;
  pdma_bt_size = bt_size_16words;
  pdma_sched_regs = some pdmav2_sched_regs;
  pdma_sched = sched_wrr;
  cdm_regs = none;
  gdma1_regs = none;
  gdma2_regs = none;
  sdm_regs = some sdm_v1_regs;
  txqs = 4;
  rxqs = 2;
  rx4_v2 = false;
  rx4_sp_valid = true;
  tx4_port = none_port;
  vlan_id_base = 0;
  rx_csum_ctrl = 0x0c00;
  rx_csum_ctrl_set = 0;
  rx_csum_ctrl_clear = sdm_checksums;
  rx_csum_valid = bit 30;
  rx_csum_clear = bit_or (bit 28) (bit 29);
  mac_adr_l = 0x0c0c;
  mac_adr_h = 0x0c10;
  foe_entries = 0;
}

-- `ralink_fe_of_match`
pub data Compatible : Type 0 where
  rt2880 rt305x rt3883 rt5350 mt7620 mt76x8 : Compatible

unfoldable pub match_data : Compatible → SocData
match_data rt2880 = rt2880_data
match_data rt305x = rt305x_data
match_data rt3883 = rt3883_data
match_data rt5350 = rt5350_data
match_data mt7620 = mt7620_data
match_data mt76x8 = mt76x8_data
