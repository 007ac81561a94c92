-- ===== src/Nic/Outcome.antt =====
-- What `ralink_fe_open` (drivers/net/ethernet/ralink/ralink_fe.c) leaves behind on every
-- path: a device that receives and sends, or one with its DMA, polls and interrupts off and its
-- rings empty.
use ralink_fe.Base.{Option, none, some}
use mathlib.Core.Option
use ralink_fe.Flow.{Errno}
use ralink_fe.Engine.Core.{Core}
use ralink_fe.Nic.Soc.{Compatible}
use ralink_fe.Nic.State.{Nic}
use ralink_fe.Nic.Life.{IsDown, IsUp}

module _ {F T C : Type 0} (c : Compatible) where
  -- What an open returns, with the state that it leaves.
  abbrev pub IsOpened : Option Errno × Nic F T C → Type 0
  IsOpened (none, s) = IsUp c s
  IsOpened (some e, s) = IsDown c s
