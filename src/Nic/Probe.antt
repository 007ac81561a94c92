-- ===== src/Nic/Probe.antt =====
-- `ralink_fe_probe` and `ralink_fe_remove` of drivers/net/ethernet/ralink/ralink_fe.c, with what the kernel
-- answers as data and a log of the resources taken and given back. What `devm_` functions allocate is
-- given back by the kernel and is not in the log.
use ralink_fe.Base.{Array, update, ◌!=◌, ◌==◌, if◌then◌else◌, bit_or, bit_and}
use ralink_fe.Base.{ℕ, zero, suc, ◌+◌, Bool, true, false, ◌||◌, Option, none, some, List, ◌∷◌}
use ralink_fe.Base.Field.{u32_not}
use ralink_fe.Mmio.{Regs, r32, w32}
use ralink_fe.Flow.{Errno, einval, enomem}
use ralink_fe.Hw.Setup.{pdma_sched_init, cdm_init, gdma_init, sdm_init}
use ralink_fe.Nic.Soc.{SocData}

pub data Resource : Type 0 where
  clk reset napi moder phylink phy engine netdev mdio_node port_node ppe_node : Resource
  pool : ℕ → Resource

pub data Grant : Type 0 where
  take give : Resource → Grant

-- The answers; `none` is success. A pointer of an optional resource that is null is a false here.
pub record Answers : Type 0 where
  pub etherdev : Bool
  pub vlan_idx : Bool
  pub ioremap : Option Errno
  pub irq : Option Errno
  pub clk_get : Option Errno
  pub has_clk : Bool
  pub clk_enable : Option Errno
  pub reset_get : Option Errno
  pub has_reset : Bool
  pub deassert : Option Errno
  pub tx_desc : ℕ → Bool
  pub rx_desc : ℕ → Bool
  pub page_pool : ℕ → Option Errno
  pub irq_moder : Option Errno
  pub has_mdio : Bool
  pub mdiobus : Bool
  pub mdiobus_register : Option Errno
  pub has_port : Bool
  pub port_reg : Option ℕ
  pub phy_mode : Option Errno
  pub phylink_create : Option Errno
  pub phy_connect : Option Errno
  pub dma_looks : List ℕ
  pub request_irq : Option Errno
  pub has_ppe : Bool
  pub ppe_ops : Bool
  pub ppe_alloc : Bool
  pub ppe_ready : Option Errno
  pub register_netdev : Option Errno

-- The pointers that the cleanup looks at, the registers, and the log, newest first.
pub record Binding : Type 0 where
  pub page_pools : Array Bool
  pub has_phylink : Bool
  pub has_engine : Bool
  pub rx_irq_mask : ℕ
  pub tx_irq_mask : ℕ
  pub irq_mask_all : ℕ
  pub irq_mask : ℕ
  pub regs : Regs
  pub log : List Grant

abbrev pub note : Grant → Binding → Binding
note g s = record s { log = g ∷ s.log }

-- `if (err) goto label;` and what stands after it.
abbrev pub then_or :
    Option Errno × Binding
    → (next : Binding → Option Errno × Binding) → (label : Binding → Binding)
    → Option Errno × Binding
then_or (none, s) next label = next s
then_or (some e, s) next label = (some e, label s)

abbrev pub same : Binding → Binding
same s = s

-- `ralink_fe_setup_rx_csum_ctrl`
unfoldable pub setup_rx_csum_ctrl : (soc : SocData) → Regs → Regs
setup_rx_csum_ctrl soc regs =
    if soc.rx_csum_ctrl != 0
    then w32 regs soc.rx_csum_ctrl (
        bit_and (bit_or (r32 regs soc.rx_csum_ctrl) soc.rx_csum_ctrl_set)
          (u32_not soc.rx_csum_ctrl_clear))
    else regs

-- The set-up of the hardware at the end of `ralink_fe_hw_init`.
unfoldable pub hw_setup : (soc : SocData) (is_mt7620 : Bool) → Regs → Regs
hw_setup soc is_mt7620 regs =
    let scheduled : Regs = pdma_sched_init soc.pdma_sched_regs soc.pdma_sched regs in
    let cdm : Regs = cdm_init soc.cdm_regs is_mt7620 soc.rxqs scheduled in
    let gdma : Regs = gdma_init soc.gdma2_regs (gdma_init soc.gdma1_regs cdm) in
    setup_rx_csum_ctrl soc (sdm_init soc.sdm_regs gdma)

abbrev pub clk_disable : (k : Answers) → Binding → Binding
clk_disable k s = if k.has_clk then note (give clk) s else s

unfoldable pub deassert_reset : (k : Answers) → Binding → Option Errno × Binding
deassert_reset k s =
    if k.has_reset
    then elim k.deassert [ none ↦ (none, note (take reset) s) | some e ↦ (some e, s) ]
    else (none, s)

-- `ralink_fe_hw_init` from the clock on, and the whole.
unfoldable pub enable_clk : (k : Answers) → Binding → Option Errno × Binding
enable_clk k s = elim k.clk_enable [
  | none ↦ (none, if k.has_clk then note (take clk) s else s)
  | some e ↦ (some e, s)
]

unfoldable pub hw_init :
    (k : Answers) (soc : SocData) (is_mt7620 : Bool) → Binding → Option Errno × Binding
hw_init k soc is_mt7620 s =
    then_or (k.ioremap, s)
      (λ s.
        then_or (k.irq, s)
          (λ s.
            then_or (k.clk_get, s)
              (λ s.
                then_or (enable_clk k s)
                  (λ s.
                    then_or (k.reset_get, s)
                      (λ s.
                        then_or (deassert_reset k s)
                          (λ s. (none, record s { regs = hw_setup soc is_mt7620 s.regs }))
                          (clk_disable k))
                      (clk_disable k))
                  same)
              same)
          same)
      same

unfoldable pub hw_cleanup : (k : Answers) → Binding → Binding
hw_cleanup k s = clk_disable k (if k.has_reset then note (give reset) s else s)

-- The loops of `ralink_fe_alloc_desc`; true is -ENOMEM.
unfoldable pub desc_fails : (ℕ → Bool) → (q n : ℕ) → Bool
desc_fails allocates q zero = false
desc_fails allocates q (suc n) = elim (allocates q) [
  | true ↦ desc_fails allocates (q + 1) n
  | false ↦ true
]

unfoldable pub alloc_desc : (k : Answers) (soc : SocData) → Option Errno
alloc_desc k soc =
    if desc_fails k.tx_desc 0 soc.txqs || desc_fails k.rx_desc 0 soc.rxqs then some enomem else none

unfoldable pub init_queues : (soc : SocData) → Binding → Option Errno × Binding
init_queues soc s =
    if soc.rxqs == 1 || soc.rxqs == 2 then (none, note (take napi) s) else (some einval, s)

abbrev pub napi_cleanup : Binding → Binding
napi_cleanup s = note (give napi) s

unfoldable pub pp_create : (k : Answers) → ℕ → Binding → Option Errno × Binding
pp_create k q s = elim (k.page_pool q) [
  | none ↦ (none, record (note (take (pool q)) s) { page_pools = update s.page_pools q true })
  | some e ↦ (some e, record s { page_pools = update s.page_pools q false })
]

unfoldable pub pp_destroy : ℕ → Binding → Binding
pp_destroy q s =
    if s.page_pools q
    then record (note (give (pool q)) s) { page_pools = update s.page_pools q false }
    else s

-- `while (--q >= 0)`
abbrev pub destroy_back : ℕ → Binding → Binding
destroy_back zero s = s
destroy_back (suc q) s = destroy_back q (pp_destroy q s)

unfoldable pub create_pools : (k : Answers) → (q n : ℕ) → Binding → Option Errno × Binding
create_pools k q zero s = (none, s)
create_pools k q (suc n) s = then_or (pp_create k q s) (create_pools k (q + 1) n) (destroy_back q)

abbrev pub init_page_pools : (k : Answers) (soc : SocData) → Binding → Option Errno × Binding
init_page_pools k soc s = (create_pools k) 0 soc.rxqs s

unfoldable pub destroy_pools : (q n : ℕ) → Binding → Binding
destroy_pools q zero s = s
destroy_pools q (suc n) s = destroy_pools (q + 1) n (pp_destroy q s)

abbrev pub cleanup_page_pools : (soc : SocData) → Binding → Binding
cleanup_page_pools soc s = destroy_pools 0 soc.rxqs s

unfoldable pub dim_init : (k : Answers) → Binding → Option Errno × Binding
dim_init k s = elim k.irq_moder [ none ↦ (none, note (take moder) s) | some e ↦ (some e, s) ]

abbrev pub free_irq_moder : Binding → Binding
free_irq_moder s = note (give moder) s

unfoldable pub mdio_register : (k : Answers) → Binding → Option Errno × Binding
mdio_register k s =
    let found : Binding = note (take mdio_node) s in
    if k.has_mdio
    then (if k.mdiobus
        then (k.mdiobus_register, note (give mdio_node) found)
        else (some enomem, note (give mdio_node) found))
    else (none, s)
