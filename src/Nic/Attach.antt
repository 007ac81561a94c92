-- ===== src/Nic/Attach.antt =====
-- The rest of `ralink_fe_probe`, and `ralink_fe_remove`, of drivers/net/ethernet/ralink/ralink_fe.c: the PHY,
-- the flow engine and the network device, and the whole chain with its labels. What `ra_ppe_init` and
-- `ra_ppe_deinit` themselves take and give is in the model of the engine.
use ralink_fe.Base.{◌==◌, if◌then◌else◌, bit_or}
use ralink_fe.Base.{Bool, true, false, Option, none, some}
use ralink_fe.Mmio.{w32}
use ralink_fe.Flow.{Errno, einval, enomem}
use ralink_fe.Hw.Setup.{dma_disable}
use ralink_fe.Nic.Soc.{SocData}
use ralink_fe.Nic.Probe.{
  Answers, Binding, take, give, phylink, phy, engine, netdev, port_node, ppe_node, note, then_or,
  same, hw_init, hw_cleanup, alloc_desc, init_queues, napi_cleanup, init_page_pools,
  cleanup_page_pools, dim_init, free_irq_moder, mdio_register,
}

-- `ralink_fe_phylink_init` once the node of the port is found.
unfoldable pub connect_phy : (k : Answers) → Binding → Option Errno × Binding
connect_phy k s = elim k.phy_connect [
  | none ↦ (none, note (give port_node) (note (take phy) s))
  | some e ↦
      (some e, record (note (give phylink) (note (give port_node) s)) { has_phylink = false })
]

unfoldable pub create_phylink : (k : Answers) → Binding → Option Errno × Binding
create_phylink k s = elim k.phylink_create [
  | none ↦ connect_phy k (record (note (take phylink) s) { has_phylink = true })
  | some e ↦ (some e, record (note (give port_node) s) { has_phylink = false })
]

unfoldable pub read_port : (k : Answers) → Binding → Option Errno × Binding
read_port k s = elim k.port_reg [
  | none ↦ (some einval, note (give port_node) s)
  | some id ↦
      if id == 0
      then (elim k.phy_mode [
        | none ↦ create_phylink k s
        | some e ↦ (some e, note (give port_node) s)
      ])
      else (some einval, note (give port_node) s)
]

unfoldable pub phylink_init : (k : Answers) → Binding → Option Errno × Binding
phylink_init k s = if k.has_port then (read_port k) (note (take port_node) s) else (none, s)

unfoldable pub phylink_cleanup : Binding → Binding
phylink_cleanup s =
    if s.has_phylink
    then record (note (give phylink) (note (give phy) s)) { has_phylink = false }
    else s

-- The device is quiet before its interrupt is requested.
unfoldable pub quieten : (k : Answers) (soc : SocData) → Binding → Binding
quieten k soc s = record s {
  regs =
      w32
        (w32 (dma_disable soc.reg_map.glo_cfg k.dma_looks s.regs).1 soc.reg_map.int_status
          0xffffffff)
        soc.reg_map.int_enable 0;
  irq_mask = 0;
}

-- `ralink_fe_ppe_init`; the operations are a null pointer where the engine is not built in.
unfoldable pub init_engine : (k : Answers) → Binding → Option Errno × Binding
init_engine k s = elim k.ppe_ready [
  | none ↦ (none, record (note (take engine) s) { has_engine = true })
  | some e ↦ (some e, record s { has_engine = true })
]

unfoldable pub engine_init : (k : Answers) → Binding → Option Errno × Binding
engine_init k s =
    if k.ppe_ops then (if k.ppe_alloc then init_engine k s else (some enomem, s)) else (none, s)

-- With the node of the engine, which is put whatever the result.
unfoldable pub attach_engine : (k : Answers) → Binding → Option Errno × Binding
attach_engine k s =
    if k.has_ppe
    then (let r = engine_init k (note (take ppe_node) s) in (r.0, note (give ppe_node) r.1))
    else (none, s)

unfoldable pub register : (k : Answers) → Binding → Option Errno × Binding
register k s = elim k.register_netdev [ none ↦ (none, note (take netdev) s) | some e ↦ (some e, s) ]

-- `if (priv->ppe) ra_ppe_deinit(priv->ppe)`
unfoldable pub engine_cleanup : Binding → Binding
engine_cleanup s = if s.has_engine then note (give engine) s else s

-- The labels, each with those below it.
abbrev pub err_hw : (k : Answers) → Binding → Binding
err_hw k s = hw_cleanup k s

abbrev pub err_napi : (k : Answers) → Binding → Binding
err_napi k s = err_hw k (napi_cleanup s)

abbrev pub err_pp : (k : Answers) (soc : SocData) → Binding → Binding
err_pp k soc s = err_napi k (cleanup_page_pools soc s)

abbrev pub err_dim : (k : Answers) (soc : SocData) → Binding → Binding
err_dim k soc s = err_pp k soc (free_irq_moder s)

abbrev pub err_phylink : (k : Answers) (soc : SocData) → Binding → Binding
err_phylink k soc s = err_dim k soc (phylink_cleanup s)

abbrev pub err_ppe : (k : Answers) (soc : SocData) → Binding → Binding
err_ppe k soc s = err_phylink k soc (engine_cleanup s)

abbrev pub irq_masks : (soc : SocData) → Binding → Binding
irq_masks soc s = record s {
  rx_irq_mask = soc.reg_map.rx_dly_irq;
  tx_irq_mask = soc.reg_map.tx_dly_irq;
  irq_mask_all = bit_or soc.reg_map.rx_dly_irq soc.reg_map.tx_dly_irq;
}

-- `ralink_fe_probe`, from the request of the interrupt backwards.
unfoldable pub probe_engine : (k : Answers) (soc : SocData) → Binding → Option Errno × Binding
probe_engine k soc s =
    then_or (attach_engine k s) (λ s. then_or (register k s) (λ s. (none, s)) (err_ppe k soc))
      (err_phylink k soc)

unfoldable pub probe_irq : (k : Answers) (soc : SocData) → Binding → Option Errno × Binding
probe_irq k soc s =
    then_or (k.request_irq, quieten k soc s) (probe_engine k soc) (err_phylink k soc)

unfoldable pub probe_phy : (k : Answers) (soc : SocData) → Binding → Option Errno × Binding
probe_phy k soc s =
    then_or (mdio_register k s) (λ s. then_or (phylink_init k s) (probe_irq k soc) (err_dim k soc))
      (err_dim k soc)

unfoldable pub probe_pools : (k : Answers) (soc : SocData) → Binding → Option Errno × Binding
probe_pools k soc s =
    then_or (init_page_pools k soc s) (λ s. then_or (dim_init k s) (probe_phy k soc) (err_pp k soc))
      (err_napi k)

unfoldable pub probe_queues : (k : Answers) (soc : SocData) → Binding → Option Errno × Binding
probe_queues k soc s =
    then_or (alloc_desc k soc, s) (λ s. then_or (init_queues soc s) (probe_pools k soc) (err_hw k))
      (err_hw k)

unfoldable pub probe_hw :
    (k : Answers) (soc : SocData) (is_mt7620 : Bool) → Binding → Option Errno × Binding
probe_hw k soc is_mt7620 s =
    then_or (hw_init k soc is_mt7620 s) (λ s. probe_queues k soc (irq_masks soc s)) same

unfoldable pub nic_probe :
    (k : Answers) (soc : SocData) (is_mt7620 : Bool) → Binding → Option Errno × Binding
nic_probe k soc is_mt7620 s =
    if k.etherdev
    then (if k.vlan_idx then probe_hw k soc is_mt7620 s else (some enomem, s))
    else (some enomem, s)

-- `ralink_fe_remove`
unfoldable pub nic_remove : (k : Answers) (soc : SocData) → Binding → Binding
nic_remove k soc s =
    err_pp k soc (phylink_cleanup (engine_cleanup (free_irq_moder (note (give netdev) s))))
