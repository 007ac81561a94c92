-- ===== src/Nic/Tests.antt =====
-- Tests of the model of a device's life (drivers/net/ethernet/ralink/ralink_fe.c).
use mathlib.Core.Option.{some-injective}
use ralink_fe.Base.{
  ◌%◌, ◌^◌, ap, ◌∙◌, sym, Bool, Option, ℕ, ◌+◌, ◌*◌, ◌≡◌, refl, true, false, none, some, [], ◌∷◌,
  arith,
}
use ralink_fe.Hw.Setup.{dma_wait}
use ralink_fe.Rx.{RxRing, rx_headroom_bytes, rx2_dma_ls0}
use ralink_fe.Rx.Pages.{IsFilled}
use ralink_fe.Engine.Core.{Core, PpeOps}
use ralink_fe.Nic.State.{Nic, OpenKernel}
use ralink_fe.Mmio.{Regs, w32, r32}
use ralink_fe.Flow.{Errno, ok}
use ralink_fe.Engine.{Engine, states, All}
use ralink_fe.Nic.Soc.{mt7620, match_data}
use ralink_fe.Nic.Open.{is_mt7620, stop_steps}
use ralink_fe.Nic.Life.{IsApart, IsGuarded, stop-IsGuarded}
use ralink_fe.Nic.Probe.{
  Answers, Binding, hw_init, enable_clk, deassert_reset, alloc_desc, desc_fails, init_queues,
  create_pools, pp_create, dim_init, mdio_register,
}
use ralink_fe.Nic.Attach.{
  nic_probe, nic_remove, probe_hw, probe_queues, probe_pools, probe_phy, phylink_init, read_port,
  create_phylink, connect_phy, probe_irq, quieten, probe_engine, attach_engine, engine_init,
  init_engine, register,
}
use ralink_fe.Nic.Grants.{nothing, replay, IsAt, Leaves, AtAll}
use ralink_fe.Nic.Unwind.{nic_probe-Leaves, nic_remove-nic_probe}
use ralink_fe.Nic.Stats.{
  TxCounters, RxCounters, counters, count, get_strings, get_ethtool_stats, get_sset_count,
  get_ethtool_stats_lem,
}

-- A device with two receive rings and no flow engine, before its first open.
abbrev machine : Nic ℕ Bool Bool
machine = record {
  tx = record {
    tx_ring = λ q. record {
      desc = λ i. record { info1 = 0; info2 = 0; info3 = 0; info4 = 0 };
      cpu_idx = 0;
      clean_idx = 0;
      skb = λ i. none;
      map = λ i. 0;
      packets = 0;
      bytes = 0;
      errors = 0;
      dropped = 0;
      ring_full = 0;
    };
    stopped = λ q. false;
    txqs = 4;
    vlan = record { vlan_idx = λ vid. 0; vlan_next_idx = 0; regs = λ reg. 0 };
    tx_dim_packets = 0;
    tx_dim_bytes = 0;
    log = [];
  };
  rx_ring = λ q. record {
    desc = λ i. record { info1 = 0; info2 = 0; info3 = 0; info4 = 0 };
    buf = λ i. record { page = none; dma = 0 };
    cpu_idx = 0;
    dropped = 0;
    refill_fail = 0;
    log = [];
  };
  tx_desc_dma = λ q. 65536 + 4096 * q;
  rx_desc_dma = λ q. 131072 + 4096 * q;
  rx4_v2 = false;
  rx4_sp_valid = false;
  irq = record {
    irq_mask = 0;
    int_enable = 0;
    rx_irq_mask = 4;
    tx_irq_mask = 8;
    rx_dim_events = 0;
    tx_dim_events = 0;
    rx_scheduled = false;
    tx_scheduled = false;
  };
  irq_mask_all = 12;
  dly_int_cfg = 0;
  dsa_meta = λ i. false;
  ppe = none;
  napi_tx = false;
  napi_rx = false;
  link = false;
  queues = false;
  dma_busy = false;
}

-- The pool of a ring gives its pages in order.
abbrev kernel : OpenKernel
kernel = record {
  pages = λ q i. some (i, 1048576 * (q + 1) + 4096 * i);
  uses_dsa = true;
  metadata_dst = λ i. true;
  rx_moder = record { usec = 8; pkts = 4 };
  tx_moder = record { usec = 64; pkts = 16 };
  dma_looks = 2 ∷ 0 ∷ [];
}

-- The second look at the register finds no transfer.
settles : dma_wait kernel.dma_looks ≡ true
unfolding dma_wait
settles = refl

-- An engine that register 0x0c04 switches on and off.
abbrev switch_on : Engine ℕ Bool Bool → Option Errno × Engine ℕ Bool Bool
switch_on e = (none, record e { regs = w32 e.regs 0x0c04 1 })

abbrev switch_off : Engine ℕ Bool Bool → Engine ℕ Bool Bool
switch_off e = record e { regs = w32 e.regs 0x0c04 0 }

abbrev switch : PpeOps ℕ Bool Bool
switch = record {
  init = none;
  deinit = none;
  start = some switch_on;
  stop = some switch_off;
  offload = none;
  foe_entry_size = 64;
}

abbrev core : Core ℕ Bool Bool
core = record {
  ops = some switch;
  engine = record {
    regs = λ reg. 0;
    tables = record {
      ppe = record {
        foe_table = λ i. 0;
        foe_entries = 0;
        flows = λ e. record {
          cookie = 0;
          key = record { n_proto = 0; ip_proto = 0; src_port = 0; dst_port = 0; src = 0; dst = 0 };
          hash = 0;
          hash_valid = false;
          dead = false;
          lastused = 0;
        };
        binds = λ e. 0;
        ralink_dsa = false;
      };
      flow_table = false;
      flow_tuple_table = false;
    };
    has_foe_table = true;
    foe_phys = 0;
  };
  log = [];
}

abbrev switched : Nic ℕ Bool Bool
switched = record machine { ppe = some core }

same_ops :
    (s : Nic ℕ Bool Bool) (other : Core ℕ Bool Bool) (ops : PpeOps ℕ Bool Bool)
    → s.ppe ≡ some core
    → s.ppe ≡ some other
    → other.ops ≡ some ops
    → switch ≡ ops
same_ops s other ops p p' q =
    some-injective _ _ (ap (λ (x : Core ℕ Bool Bool). x.ops) (some-injective _ _ (sym p ∙ p')) ∙ q)

core-IsApart : (s : Nic ℕ Bool Bool) → s.ppe ≡ some core → IsApart mt7620 s
unfolding r32 w32 match_data
core-IsApart s p = record {
  starts = λ other ops f e p' q r.
      (let same : switch ≡ ops = same_ops s other ops p p' q in
        let on : switch_on ≡ f =
          some-injective _ _ (ap (λ (x : PpeOps ℕ Bool Bool). x.start) same ∙ r) in
        rw (← on) refl);
  stops = λ other ops f e p' q r.
      (let same : switch ≡ ops = same_ops s other ops p p' q in
        let off : switch_off ≡ f =
          some-injective _ _ (ap (λ (x : PpeOps ℕ Bool Bool). x.stop) same ∙ r) in
        rw (← off) refl);
}

-- The device while it sends and receives: the rings hold the pages 0 to 255, both directions of the DMA
-- are on, a transfer is on its way and the engine runs.
abbrev full_ring : RxRing
full_ring = record {
  desc = λ i. record {
    info1 = (4096 * i + rx_headroom_bytes) % 2 ^ 32;
    info2 = rx2_dma_ls0;
    info3 = 0;
    info4 = 0;
  };
  buf = λ i. record { page = some i; dma = 4096 * i };
  cpu_idx = 255;
  dropped = 0;
  refill_fail = 0;
  log = [];
}

full_ring-IsFilled : IsFilled full_ring
full_ring-IsFilled = record {
  index = omega arith;
  filled = λ i below h. ground arith;
  distinct = λ i j bi bj e. ground arith;
  armed = λ i below. (refl, refl);
}

abbrev running : Nic ℕ Bool Bool
running = record switched {
  tx = record machine.tx { vlan = record machine.tx.vlan { regs = λ reg. 5 } };
  rx_ring = λ q. full_ring;
  irq = record machine.irq { irq_mask = 12; int_enable = 12 };
  dsa_meta = λ i. true;
  napi_tx = true;
  napi_rx = true;
  link = true;
  queues = true;
  dma_busy = true;
}

running-IsApart : IsApart mt7620 running
running-IsApart = core-IsApart running refl

-- The engine is switched off.
abbrev Off : Regs → Type 0
Off regs = r32 regs 0x0c04 ≡ 0

running-IsGuarded : IsGuarded mt7620 running
running-IsGuarded = record {
  writes = λ h q b. full_ring-IsFilled;
  arrives = λ h q b. full_ring-IsFilled;
  polls = λ h q b. full_ring-IsFilled;
}

stop-IsGuarded_example : All (IsGuarded mt7620) (states (stop_steps kernel mt7620) running)
stop-IsGuarded_example =
    stop-IsGuarded mt7620 kernel running settles running-IsApart running-IsGuarded

-- Everything is there and succeeds.
abbrev answers : Answers
answers = record {
  etherdev = true;
  vlan_idx = true;
  ioremap = none;
  irq = none;
  clk_get = none;
  has_clk = true;
  clk_enable = none;
  reset_get = none;
  has_reset = true;
  deassert = none;
  tx_desc = λ q. true;
  rx_desc = λ q. true;
  page_pool = λ q. none;
  irq_moder = none;
  has_mdio = true;
  mdiobus = true;
  mdiobus_register = none;
  has_port = true;
  port_reg = some 0;
  phy_mode = none;
  phylink_create = none;
  phy_connect = none;
  dma_looks = 0 ∷ [];
  request_irq = none;
  has_ppe = true;
  ppe_ops = true;
  ppe_alloc = true;
  ppe_ready = none;
  register_netdev = none;
}

abbrev zeroed : Binding
zeroed = record {
  page_pools = λ q. false;
  has_phylink = false;
  has_engine = false;
  rx_irq_mask = 0;
  tx_irq_mask = 0;
  irq_mask_all = 0;
  irq_mask = 0;
  regs = λ reg. 0;
  log = [];
}

nic_probe-Leaves_example :
    Leaves
      (AtAll answers (match_data mt7620))
      (IsAt nothing)
      (nic_probe answers (match_data mt7620) (is_mt7620 mt7620) zeroed)
nic_probe-Leaves_example = nic_probe-Leaves answers mt7620 zeroed (refl, refl, refl, refl) refl

probed : (nic_probe answers (match_data mt7620) (is_mt7620 mt7620) zeroed).0 ≡ none
unfolding nic_probe probe_hw hw_init enable_clk deassert_reset probe_queues alloc_desc desc_fails
    init_queues probe_pools create_pools pp_create dim_init probe_phy mdio_register phylink_init
    read_port create_phylink connect_phy probe_irq quieten probe_engine attach_engine engine_init
    init_engine register match_data
probed = refl

nic_remove-nic_probe_example :
    let t = (nic_probe answers (match_data mt7620) (is_mt7620 mt7620) zeroed).1 in
    replay (nic_remove answers (match_data mt7620) t).log ≡ some nothing
nic_remove-nic_probe_example =
    nic_remove-nic_probe answers mt7620 zeroed (refl, refl, refl, refl) refl probed

-- The counters of queue q are 10q + 1, 10q + 2 and so on.
abbrev tx_counters : ℕ → TxCounters
tx_counters q = record {
  packets = 10 * q + 1;
  bytes = 10 * q + 2;
  errors = 10 * q + 3;
  dropped = 10 * q + 4;
  ring_full = 10 * q + 5;
}

abbrev rx_counters : ℕ → RxCounters
rx_counters q = record {
  packets = 10 * q + 6;
  bytes = 10 * q + 7;
  dropped = 10 * q + 8;
  refill_fail = 10 * q + 9;
}

get_ethtool_stats_lem_example :
    (counters tx_counters rx_counters (get_strings true 4 2)
      ≡ get_ethtool_stats tx_counters rx_counters 4 2)
    × (get_sset_count true 4 2 ≡ ok (count (get_strings true 4 2)))
get_ethtool_stats_lem_example = get_ethtool_stats_lem tx_counters rx_counters 4 2
