-- ===== src/Nic/State.antt =====
-- `struct ralink_fe_priv` of drivers/net/ethernet/ralink/ralink_fe.h as a whole. The register window is
-- the one of the VLAN cache; the engine's copy is refreshed when the engine is called.
use mathlib.Core.Option
use ralink_fe.Base.{Array, ℕ, Bool, Option, some, List}
use ralink_fe.Mmio.{Regs}
use ralink_fe.Tx.Send.{Device}
use ralink_fe.Rx.{RxRing}
use ralink_fe.Rx.Poll.{Irq}
use ralink_fe.Hw.Dim.{Moder}
use ralink_fe.Engine.Core.{Core}

-- `dma_busy` is not a member: it says whether a transfer may still be on its way, as the last wait on the
-- control register of the DMA told. `link` is the link that phylink or the driver itself reports, `queues` that the stack may send.
pub record Nic (F T C : Type 0) : Type 0 where
  pub tx : Device
  pub rx_ring : Array RxRing
  pub tx_desc_dma : Array ℕ
  pub rx_desc_dma : Array ℕ
  pub rx4_v2 : Bool
  pub rx4_sp_valid : Bool
  pub irq : Irq
  pub irq_mask_all : ℕ
  pub dly_int_cfg : ℕ
  pub dsa_meta : Array Bool
  pub ppe : Option (Core F T C)
  pub napi_tx : Bool
  pub napi_rx : Bool
  pub link : Bool
  pub queues : Bool
  pub dma_busy : Bool

module _ {F T C : Type 0} where
  abbrev pub regs_of : Nic F T C → Regs
  regs_of s = s.tx.vlan.regs

  abbrev pub with_regs : Regs → Nic F T C → Nic F T C
  with_regs regs s = record s { tx = record s.tx { vlan = record s.tx.vlan { regs = regs } } }

  -- The engine sees the registers as they are, and what it writes is seen.
  abbrev pub engine_sees : Regs → Core F T C → Core F T C
  engine_sees regs core = record core { engine = record core.engine { regs = regs } }

  abbrev pub with_ppe : Core F T C → Nic F T C → Nic F T C
  with_ppe core s = record (with_regs core.engine.regs s) { ppe = some core }

  -- `priv->ppe->ralink_dsa`, where there is an engine.
  abbrev pub marked : Bool → Core F T C → Core F T C
  marked b core = record core {
    engine = record core.engine {
      tables = record core.engine.tables { ppe = record core.engine.tables.ppe { ralink_dsa = b } };
    };
  }

  abbrev pub set_ralink_dsa : Bool → Nic F T C → Nic F T C
  set_ralink_dsa b s = record s { ppe = Option.map (marked b) s.ppe }

-- What the kernel and the hardware answer while a device is opened or stopped.
pub record OpenKernel : Type 0 where
  pub pages : ℕ → Array (Option (ℕ × ℕ))
  pub uses_dsa : Bool
  pub metadata_dst : ℕ → Bool
  pub rx_moder : Moder
  pub tx_moder : Moder
  pub dma_looks : List ℕ
