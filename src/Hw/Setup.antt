-- ===== src/Hw/Setup.antt =====
-- The set-up of the frame engine's data paths: `ralink_fe_dma_enable`, `ralink_fe_dma_disable`,
-- `ralink_fe_pdma_sched_init`, `ralink_fe_cdm_init`, `ralink_fe_gdma_init` and `ralink_fe_sdm_init` of
-- drivers/net/ethernet/ralink/ralink_fe.c. A null table of registers is `none`, and register 0 in a
-- table means that there is none.
use ralink_fe.Base.{◌==◌, ◌!=◌, ltb, if◌then◌else◌, bit_and, bit_or}
use ralink_fe.Base.{
  ℕ, ◌≡◌, ◌≢◌, ◌^◌, ◌-◌, ap, ◌∙◌, Bool, true, false, ◌&&◌, Option, none, some, List, [], ◌∷◌, arith,
}
use ralink_fe.Base.Field.{Field, genmask, bit, u32_not, field_prep, field_get, field_get-keep}
use ralink_fe.Mmio.{Regs, r32, w32}

abbrev pub rx_2b_offset : ℕ
rx_2b_offset = bit 31

abbrev pub tx_wb_ddone : ℕ
tx_wb_ddone = bit 6

abbrev pub rx_dma_busy : ℕ
rx_dma_busy = bit 3

abbrev pub rx_dma_en : ℕ
rx_dma_en = bit 2

abbrev pub tx_dma_busy : ℕ
tx_dma_busy = bit 1

abbrev pub tx_dma_en : ℕ
tx_dma_en = bit 0

-- The looks of `readl_poll_timeout` at the register; false is a timeout.
unfoldable pub dma_wait : List ℕ → Bool
dma_wait [] = false
dma_wait (val ∷ looks) =
    let rest = dma_wait looks in
    if bit_and val (bit_or rx_dma_busy tx_dma_busy) == 0 then true else rest

unfoldable pub dma_disable : (glo_cfg : ℕ) (looks : List ℕ) → Regs → Bool × Regs
unfolding dma_wait
dma_disable glo_cfg looks regs = (
  dma_wait looks,
  w32 regs glo_cfg (bit_and (r32 regs glo_cfg) (u32_not (bit_or rx_dma_en tx_dma_en))),
)

unfoldable pub dma_enable : (glo_cfg pdma_bt_size : ℕ) (is_mt7620 : Bool) → Regs → Regs
dma_enable glo_cfg pdma_bt_size is_mt7620 regs =
    let val : ℕ = bit_or (bit_or (bit_or rx_dma_en tx_dma_en) tx_wb_ddone) pdma_bt_size in
    w32 regs glo_cfg (if is_mt7620 then bit_or val rx_2b_offset else val)

-- `RA_FE_SCH_EQUAL_WRR` gives each of the four queues the weight 0.
abbrev pub equal_wrr : ℕ
equal_wrr =
    bit_or
      (bit_or (bit_or (field_prep (genmask 2 0) 0) (field_prep (genmask 6 4) 0))
        (field_prep (genmask 10 8) 0))
      (field_prep (genmask 14 12) 0)

-- `PDMA_SHPR_UNLIMITED_EQUAL`
abbrev pub unlimited_equal : ℕ
unlimited_equal =
    bit_or (bit_or (bit_or (bit 30) (field_prep (genmask 29 28) 0)) (field_prep (genmask 27 26) 3))
      (bit_or (bit_or (bit 14) (field_prep (genmask 13 12) 0)) (field_prep (genmask 11 10) 3))

-- `struct ralink_pdma_sched_regs` and the kinds of scheduler
pub record SchedRegs : Type 0 where
  pub cfg0 : ℕ
  pub cfg1 : ℕ

pub data PdmaSched : Type 0 where
  sched_none sched_wrr sched_shaper : PdmaSched

-- A register that the table may lack.
abbrev pub w32_if : ℕ → ℕ → Regs → Regs
w32_if reg val regs = if reg != 0 then w32 regs reg val else regs

unfoldable pub pdma_sched_init : Option SchedRegs → PdmaSched → Regs → Regs
pdma_sched_init none sched regs = regs
pdma_sched_init (some t) sched_none regs = regs
pdma_sched_init (some t) sched_wrr regs =
    let mode : ℕ = field_prep (genmask 25 24) 0 in
    w32_if t.cfg1 equal_wrr (w32 regs t.cfg0 (if t.cfg1 == 0 then bit_or mode equal_wrr else mode))
pdma_sched_init (some t) sched_shaper regs =
    w32 (w32 regs t.cfg0 unlimited_equal) t.cfg1 unlimited_equal

-- `struct ralink_cdm_regs`
pub record CdmRegs : Type 0 where
  pub csg_cfg : ℕ
  pub cdm_sch_cfg : ℕ

unfoldable pub cdm_init : Option CdmRegs → (is_mt7620 : Bool) (rxqs : ℕ) → Regs → Regs
cdm_init none is_mt7620 rxqs regs = regs
cdm_init (some cdm) is_mt7620 rxqs regs =
    let val : ℕ = bit_or (r32 regs cdm.csg_cfg) (bit_or (bit_or (bit 2) (bit 1)) (bit 0)) in
    w32_if cdm.cdm_sch_cfg equal_wrr
      (w32 regs cdm.csg_cfg (if is_mt7620 && ltb 1 rxqs then bit_or val (bit 8) else val))

-- `struct ralink_gdma_regs`
pub record GdmaRegs : Type 0 where
  pub fwd_cfg : ℕ
  pub gdm_sch_cfg : ℕ
  pub shpr_cfg : ℕ

abbrev pub gdm_shpr_en : ℕ
gdm_shpr_en = bit 24

unfoldable pub gdma_init : Option GdmaRegs → Regs → Regs
gdma_init none regs = regs
gdma_init (some gdm) regs =
    let scheduled : Regs = w32_if gdm.gdm_sch_cfg equal_wrr regs in
    w32_if gdm.shpr_cfg (bit_and (r32 scheduled gdm.shpr_cfg) (u32_not gdm_shpr_en)) scheduled

-- `struct ralink_sdm_regs`
pub record SdmRegs : Type 0 where
  pub con : ℕ
  pub rring : ℕ
  pub tring : ℕ

abbrev pub sdm_port_map : ℕ
sdm_port_map = bit 22

abbrev pub sdm_checksums : ℕ
sdm_checksums = bit_or (bit_or (bit 18) (bit 17)) (bit 16)

unfoldable pub sdm_init : Option SdmRegs → Regs → Regs
sdm_init none regs = regs
sdm_init (some sdm) regs =
    let mapped : ℕ = bit_and (r32 regs sdm.con) (u32_not sdm_port_map) in
    w32 (w32 (w32 regs sdm.con (bit_and mapped (u32_not sdm_checksums))) sdm.rring (bit 2))
      sdm.tring 0

-- Where the three registers differ, the switch data path keeps every field of its control word that is
-- outside the port map and the checksum bits.
pub sdm_init_keeps :
    (sdm : SdmRegs) (regs : Regs) (f : Field)
    → sdm.con ≢ sdm.rring
    → sdm.con ≢ sdm.tring
    → field_get f (u32_not sdm_port_map) ≡ 2 ^ f.width - 1
    → field_get f (u32_not sdm_checksums) ≡ 2 ^ f.width - 1
    → field_get f (r32 (sdm_init (some sdm) regs) sdm.con) ≡ field_get f (r32 regs sdm.con)
unfolding sdm_init r32 w32
sdm_init_keeps sdm regs f a b h k =
    let word : r32 (sdm_init (some sdm) regs) sdm.con
        ≡ bit_and (bit_and (regs sdm.con) (u32_not sdm_port_map)) (u32_not sdm_checksums) =
      ground arith in
    ap (field_get f) word
    ∙ (field_get-keep f _ (u32_not sdm_checksums) k ∙ field_get-keep f _ (u32_not sdm_port_map) h)
