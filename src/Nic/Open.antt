-- ===== src/Nic/Open.antt =====
-- `ralink_fe_open` and `ralink_fe_stop` of drivers/net/ethernet/ralink/ralink_fe.c, and what they call,
-- over the models of the parts. The part of an open that cannot fail, its failure, and a stop are lists
-- of the steps that the source makes, so that the states between two steps can be spoken of.
-- `net_dim_setting`, `synchronize_irq` and `cancel_work_sync` are the kernel's and change nothing here.
use ralink_fe.Base.{Array, update, ltb, if◌then◌else◌}
use ralink_fe.Base.{
  not, ℕ, zero, suc, ◌+◌, ◌-◌, Bool, true, false, Option, none, some, List, [], ◌∷◌,
}
use ralink_fe.Base.Field.{bit}
use ralink_fe.Mmio.{Regs, w32}
use ralink_fe.Flow.{Errno, enomem}
use ralink_fe.Vlan.{vlan_reset}
use ralink_fe.Tx.{tx_ring_size}
use ralink_fe.Tx.Reset.{tx_ring_init, tx_ring_reset}
use ralink_fe.Tx.Send.{queue, with_queue}
use ralink_fe.Rx.{rx_ring_size, rx_ring_refill, rx_release_ring}
use ralink_fe.Rx.Poll.{irq_enable, irq_disable}
use ralink_fe.Hw.Dim.{Delay, dim_hw_setup}
use ralink_fe.Hw.Setup.{dma_enable, dma_disable}
use ralink_fe.Engine.{run}
use ralink_fe.Engine.Core.{Core, ppe_start, ppe_stop}
use ralink_fe.Nic.Soc.{SocData, RegMap, Compatible, mt7620, match_data, listed}
use ralink_fe.Nic.State.{Nic, OpenKernel, regs_of, with_regs, engine_sees, with_ppe, set_ralink_dsa}

-- The bits of the reset register for each ring.
abbrev pub tx_rst : Array ℕ
tx_rst = listed (bit 0 ∷ bit 1 ∷ bit 2 ∷ bit 3 ∷ [])

abbrev pub rx_rst : Array ℕ
rx_rst = listed (bit 16 ∷ bit 17 ∷ [])

-- RALINK_MAX_DSA_PORTS
abbrev pub max_dsa_ports : ℕ
max_dsa_ports = 8

-- The pointer comparison `priv->soc == &mt7620_data`.
abbrev pub is_mt7620 : Compatible → Bool
is_mt7620 mt7620 = true
is_mt7620 _ = false

-- `ralink_fe_dsa_metadata_alloc` from port `i` on; false is -ENOMEM, after the ones before were freed.
unfoldable pub dsa_metadata_alloc :
    (metadata_dst : ℕ → Bool) (i n : ℕ) → Array Bool → Bool × Array Bool
dsa_metadata_alloc metadata_dst i zero meta = (true, meta)
dsa_metadata_alloc metadata_dst i (suc n) meta = elim (metadata_dst i) [
  | true ↦ dsa_metadata_alloc metadata_dst (i + 1) n (update meta i true)
  | false ↦ (false, λ j. if ltb j i then false else meta j)
]

-- `ralink_fe_dsa_metadata_free`
unfoldable pub dsa_metadata_free : Array Bool → Array Bool
dsa_metadata_free meta i = if ltb i max_dsa_ports then false else meta i

module _ {F T C : Type 0} where
  -- The loop of `ralink_fe_open` over the receive rings; false is -ENOMEM.
  unfoldable pub refill_rings :
      (pages : ℕ → Array (Option (ℕ × ℕ))) (q n : ℕ) → Nic F T C → Bool × Nic F T C
  refill_rings pages q zero s = (true, s)
  refill_rings pages q (suc n) s =
      let r = rx_ring_refill (pages q) (s.rx_ring q) in
      let s' : Nic F T C = record s { rx_ring = update s.rx_ring q r.1 } in
      elim r.0 [ true ↦ refill_rings pages (q + 1) n s' | false ↦ (false, s') ]

  -- `ralink_fe_rings_release`, the queues `q` to `q + n`.
  unfoldable pub release_tx_rings : (q n : ℕ) → Nic F T C → Nic F T C
  release_tx_rings q zero s = s
  release_tx_rings q (suc n) s =
      release_tx_rings (q + 1) n
        (record s { tx = with_queue q (tx_ring_reset (queue q s.tx)) s.tx })

  unfoldable pub release_rx_rings : (q n : ℕ) → Nic F T C → Nic F T C
  release_rx_rings q zero s = s
  release_rx_rings q (suc n) s =
      release_rx_rings (q + 1) n
        (record s { rx_ring = update s.rx_ring q (rx_release_ring (s.rx_ring q)) })

  unfoldable pub rings_release : SocData → Nic F T C → Nic F T C
  rings_release soc s = release_rx_rings 0 soc.rxqs (release_tx_rings 0 soc.txqs s)

  -- One round of each loop of `ralink_fe_program_rings`.
  unfoldable pub program_tx : RegMap → ℕ → Nic F T C → Nic F T C
  program_tx pdma q s =
      let fresh : Nic F T C = record s {
        tx = record s.tx { tx_ring = update s.tx.tx_ring q (tx_ring_init (s.tx.tx_ring q)) };
      } in
      with_regs
        (w32
          (w32
            (w32 (w32 (regs_of s) (pdma.tx_base_ptr q) (s.tx_desc_dma q)) (pdma.tx_max_cnt q)
              tx_ring_size)
            pdma.rst_idx (tx_rst q))
          (pdma.tx_cpu_idx q) 0)
        fresh

  unfoldable pub program_rx : RegMap → ℕ → Nic F T C → Nic F T C
  program_rx pdma q s =
      let ready : Nic F T C = record s {
        rx_ring = update s.rx_ring q (record (s.rx_ring q) { cpu_idx = rx_ring_size - 1 });
      } in
      with_regs
        (w32
          (w32
            (w32 (w32 (regs_of s) (pdma.rx_base_ptr q) (s.rx_desc_dma q)) (pdma.rx_max_cnt q)
              rx_ring_size)
            pdma.rst_idx (rx_rst q))
          (pdma.rx_cpu_idx q) (rx_ring_size - 1))
        ready

  abbrev pub for_queues : (ℕ → Nic F T C → Nic F T C) → (q n : ℕ) → Nic F T C → Nic F T C
  for_queues f q zero s = s
  for_queues f q (suc n) s = for_queues f (q + 1) n (f q s)

  unfoldable pub program_rings : SocData → Nic F T C → Nic F T C
  program_rings soc s =
      for_queues (program_rx soc.reg_map) 0 soc.rxqs
        (for_queues (program_tx soc.reg_map) 0 soc.txqs s)

  unfoldable pub setup_delay : OpenKernel → SocData → Nic F T C → Nic F T C
  setup_delay k soc s =
      let d : Delay =
        dim_hw_setup soc.reg_map.dly_int_cfg k.rx_moder k.tx_moder
          (record { dly_int_cfg = s.dly_int_cfg; regs = regs_of s }) in
      record (with_regs d.regs s) { dly_int_cfg = d.dly_int_cfg }

  abbrev pub start_dma : Compatible → Nic F T C → Nic F T C
  start_dma c s =
      let soc : SocData = match_data c in
      record (with_regs (dma_enable soc.reg_map.glo_cfg soc.pdma_bt_size (is_mt7620 c) (regs_of s))
        s) { dma_busy = true }

  -- `ralink_fe_open` from the VLAN table to the start of the engine.
  abbrev pub prepare : OpenKernel → Compatible → List (Nic F T C → Nic F T C)
  prepare k c =
      let soc : SocData = match_data c in
      (λ s. record s { tx = record s.tx { vlan = vlan_reset s.tx.vlan } })
      ∷ program_rings soc
      ∷ (λ s. record s { rx4_v2 = soc.rx4_v2; rx4_sp_valid = soc.rx4_sp_valid })
      ∷ (λ s. record s { irq = record s.irq { irq_mask = 0 } })
      ∷ setup_delay k soc
      ∷ (λ s. record s { napi_tx = true })
      ∷ (λ s. record s { napi_rx = true })
      ∷ (λ s. with_regs (w32 (regs_of s) soc.reg_map.int_status 0xffffffff) s)
      ∷ []

  abbrev pub bring_up : OpenKernel → Compatible → Nic F T C → Nic F T C
  bring_up k c s = start_dma c (run (prepare k c) s)

  -- What follows the engine's start.
  abbrev pub go_live : List (Nic F T C → Nic F T C)
  go_live =
      (λ s. record s { irq = irq_enable s.irq_mask_all s.irq })
      ∷ (λ s. record s { link = true })
      ∷ (λ s. record s { queues = true })
      ∷ []

  -- The label `err_dma`, and what falls through to `err_release_rings`.
  abbrev pub stop_dma : OpenKernel → Compatible → Nic F T C → Nic F T C
  stop_dma k c s =
      let r : Bool × Regs = dma_disable (match_data c).reg_map.glo_cfg k.dma_looks (regs_of s) in
      record (with_regs r.1 s) { dma_busy = not r.0 }

  abbrev pub back_down : OpenKernel → Compatible → List (Nic F T C → Nic F T C)
  back_down k c =
      (λ s. record s { dsa_meta = dsa_metadata_free s.dsa_meta })
      ∷ stop_dma k c
      ∷ (λ s. record s { napi_tx = false })
      ∷ (λ s. record s { napi_rx = false })
      ∷ rings_release (match_data c)
      ∷ []

  -- The metadata of the ports, when the device is the CPU port of a switch.
  unfoldable pub keep_metadata : Bool × Array Bool → Nic F T C → Bool × Nic F T C
  keep_metadata (true, meta) s = (true, set_ralink_dsa true (record s { dsa_meta = meta }))
  keep_metadata (false, meta) s = (false, record s { dsa_meta = meta })

  unfoldable pub attach_dsa : OpenKernel → Nic F T C → Bool × Nic F T C
  attach_dsa k s =
      if k.uses_dsa
      then keep_metadata (dsa_metadata_alloc k.metadata_dst 0 max_dsa_ports s.dsa_meta) s
      else (true, s)

  -- `if (priv->ppe)` and the engine's start, with the state that it leaves.
  unfoldable pub keep_started :
      Option Errno × Option (Core F T C) → Nic F T C → Option Errno × Nic F T C
  keep_started (e, none) s = (e, s)
  keep_started (e, some core) s = (e, with_ppe core s)

  unfoldable pub start_core : Option (Core F T C) → Nic F T C → Option Errno × Nic F T C
  start_core none s = (none, s)
  start_core (some core) s = keep_started (ppe_start (some (engine_sees (regs_of s) core))) s

  unfoldable pub start_engine : Nic F T C → Option Errno × Nic F T C
  start_engine s = start_core s.ppe s

  unfoldable pub finish_open :
      OpenKernel → Compatible → Option Errno × Nic F T C → Option Errno × Nic F T C
  finish_open k c (none, s) = (none, run go_live s)
  finish_open k c (some e, s) = (some e, run (back_down k c) s)

  unfoldable pub open_with : OpenKernel → Compatible → Bool × Nic F T C → Option Errno × Nic F T C
  open_with k c (false, s) = (some enomem, rings_release (match_data c) s)
  open_with k c (true, s) = finish_open k c (start_engine (bring_up k c s))

  unfoldable pub open_attached :
      OpenKernel → Compatible → Bool × Nic F T C → Option Errno × Nic F T C
  open_attached k c (false, s) = (some enomem, rings_release (match_data c) s)
  open_attached k c (true, s) = open_with k c (attach_dsa k s)

  -- `ralink_fe_open`, with `none` for 0.
  unfoldable pub nic_open : OpenKernel → Compatible → Nic F T C → Option Errno × Nic F T C
  nic_open k c s = open_attached k c (refill_rings k.pages 0 (match_data c).rxqs s)

  unfoldable pub stop_core : Option (Core F T C) → Nic F T C → Nic F T C
  stop_core none s = s
  stop_core (some core) s =
      set_ralink_dsa false (with_ppe (ppe_stop (engine_sees (regs_of s) core)) s)

  unfoldable pub stop_engine : Nic F T C → Nic F T C
  stop_engine s = stop_core s.ppe s

  -- `ralink_fe_stop`
  abbrev pub stop_steps : OpenKernel → Compatible → List (Nic F T C → Nic F T C)
  stop_steps k c =
      (λ s. record s { link = false })
      ∷ (λ s. record s { queues = false })
      ∷ (λ s. record s { irq = irq_disable s.irq_mask_all s.irq })
      ∷ (λ s. record s { napi_tx = false })
      ∷ (λ s. record s { napi_rx = false })
      ∷ stop_dma k c
      ∷ stop_engine
      ∷ rings_release (match_data c)
      ∷ (λ s. record s { dsa_meta = dsa_metadata_free s.dsa_meta })
      ∷ []

  unfoldable pub nic_stop : OpenKernel → Compatible → Nic F T C → Nic F T C
  nic_stop k c s = run (stop_steps k c) s
