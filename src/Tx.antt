-- ===== src/Tx.antt =====
-- The transmit side of drivers/net/ethernet/ralink/ralink_fe.c with the descriptor layout of
-- ralink_fe.h: the ring of one queue, socket buffers, the calls into the kernel as a list of
-- events, and the helpers that all of the transmit path shares.
pub mod Xmit
pub mod Gather
pub mod Clean
pub mod Reset
pub mod Empty
pub mod Window
pub mod Faults
pub mod Drain
pub mod Poll
pub mod Turns
pub mod Send
mod Tests
use ralink_fe.Base.{Array, update, ltb, ◌!=◌, if◌then◌else◌, bit_and, bit_or}
use ralink_fe.Base.{
  ℕ, ◌+◌, ◌-◌, ◌*◌, ◌/◌, ◌%◌, ◌^◌, Bool, true, false, Option, none, some, List, ◌∷◌,
}
use ralink_fe.Base.Field.{Field, genmask, bit, field_prep, field_get}
use ralink_fe.Vlan.{VlanCache}

-- RALINK_FE_TX_RING_SIZE, RALINK_FE_TX_STOP_RESERVE, RALINK_FE_TX_WAKE_THRESH
abbrev pub tx_ring_size : ℕ
tx_ring_size = 128

abbrev pub tx_stop_reserve : ℕ
tx_stop_reserve = 16

abbrev pub tx_wake_thresh : ℕ
tx_wake_thresh = 16

-- `& RALINK_FE_TX_RING_MASK`; the mask is 127, so this is the remainder by 128.
abbrev pub ring_and : ℕ → ℕ
ring_and i = i % tx_ring_size

-- `(u32)x`, `(u16)x`, and the counters' u64.
abbrev pub u32 : ℕ → ℕ
u32 n = n % 2 ^ 32

abbrev pub u16 : ℕ → ℕ
u16 n = n % 2 ^ 16

abbrev pub u64 : ℕ → ℕ
u64 n = n % 2 ^ 64

-- The fields of the descriptor's second word.
abbrev pub tx2_dma_sdl1 : Field
tx2_dma_sdl1 = genmask 13 0

abbrev pub tx2_dma_ls1 : ℕ
tx2_dma_ls1 = bit 14

abbrev pub tx2_dma_sdl0 : Field
tx2_dma_sdl0 = genmask 29 16

abbrev pub tx2_dma_ls0 : ℕ
tx2_dma_ls0 = bit 30

abbrev pub tx2_dma_done : ℕ
tx2_dma_done = bit 31

-- RALINK_FE_TX_MAP0_PAGE, RALINK_FE_TX_MAP1_PAGE
abbrev pub map0_page : ℕ
map0_page = bit 0

abbrev pub map1_page : ℕ
map1_page = bit 1

-- `struct ralink_fe_tx_desc`
pub record TxDesc : Type 0 where
  pub info1 : ℕ
  pub info2 : ℕ
  pub info3 : ℕ
  pub info4 : ℕ

-- What the driver reads of `struct sk_buff`; `id` is the buffer's identity, `frags` the sizes of
-- its page fragments.
pub record Skb : Type 0 where
  pub id : ℕ
  pub len : ℕ
  pub data_len : ℕ
  pub frags : List ℕ
  pub csum_partial : Bool
  pub vlan_tci : Option ℕ
  pub queue_mapping : ℕ

abbrev pub skb_headlen : Skb → ℕ
skb_headlen skb = skb.len - skb.data_len

abbrev pub skb_is_nonlinear : Skb → Bool
skb_is_nonlinear skb = skb.data_len != 0

-- Calls into the kernel that have an effect there.
pub data Event : Type 0 where
  map_single map_page unmap_single unmap_page : (dma len : ℕ) → Event
  kfree_skb consume_skb : (id : ℕ) → Event
  -- The kernel frees a buffer itself when it fails to put the tag inside, or to pad it.
  freed_by_kernel : (id : ℕ) → Event
  sent_queue : (bytes : ℕ) → Event
  completed_queue : (pkts bytes : ℕ) → Event
  doorbell : (cpu_idx : ℕ) → Event

-- `struct ralink_fe_tx_ring`
pub record TxRing : Type 0 where
  pub desc : Array TxDesc
  pub cpu_idx : ℕ  -- u16
  pub clean_idx : ℕ  -- u16
  pub skb : Array (Option Skb)
  pub map : Array ℕ  -- u8
  pub packets : ℕ  -- u64
  pub bytes : ℕ  -- u64
  pub errors : ℕ  -- u64
  pub dropped : ℕ  -- u64
  pub ring_full : ℕ  -- u32

-- A queue: its ring, whether the stack is told to stop, the VLAN cache and
-- the moderation counts that all queues share, and the events so far, the newest first.
pub record TxState : Type 0 where
  pub ring : TxRing
  pub stopped : Bool
  pub vlan : VlanCache
  pub tx_dim_packets : ℕ
  pub tx_dim_bytes : ℕ
  pub log : List Event

-- `enum netdev_tx`
pub data Status : Type 0 where
  tx_ok tx_busy : Status

-- `enum ra_tx4_port`
pub data Tx4Port : Type 0 where
  none_port pnqn fp : Tx4Port

-- What the transmit path asks of the kernel. A failed mapping, tag insertion or padding is `none`.
-- `failed_push` and `failed_padto` are what the kernel does with a buffer, by its number, when
-- `__vlan_hwaccel_push_inside` or `skb_put_padto` fails; both are documented to free it.
pub record TxKernel : Type 0 where
  pub failed_push : ℕ → List Event
  pub failed_padto : ℕ → List Event
  pub dma_map_single : Skb → Option ℕ
  pub skb_frag_dma_map : Skb → ℕ → Option ℕ
  pub vlan_hwaccel_push_inside : Skb → Option Skb
  pub skb_put_padto : Skb → Option Skb
  pub xmit_more : Bool
  pub xmit_stopped : Bool

-- The part of `struct ralink_fe_soc_data` that the transmit path reads.
pub record TxSoc : Type 0 where
  pub tx4_port : Tx4Port
  pub vlan_id_base : ℕ

-- `(clean - first_desc - RALINK_FE_TX_STOP_RESERVE) & RALINK_FE_TX_RING_MASK`, an `int` difference.
abbrev pub tx_avail : ℕ → ℕ → ℕ
tx_avail clean first_desc = ring_and (clean + 2 ^ 32 - first_desc - tx_stop_reserve)

-- `ralink_fe_txq_drop`, `ralink_fe_txq_error`
unfoldable pub txq_drop : TxRing → TxRing
txq_drop ring = record ring { dropped = u64 (ring.dropped + 1) }

unfoldable pub txq_error : TxRing → TxRing
txq_error ring = record ring { errors = u64 (ring.errors + 1) }

-- The two tests of `ralink_fe_tx_unmap_desc`, one for each segment.
unfoldable pub unmap_segment : ℕ → ℕ → Bool → List Event → List Event
unmap_segment dma len page log =
    if len != 0 then (if page then unmap_page dma len else unmap_single dma len) ∷ log else log

-- `ralink_fe_tx_unmap_desc`; that `*map` becomes 0 is left to the callers.
unfoldable pub tx_unmap_desc : TxDesc → ℕ → List Event → List Event
tx_unmap_desc d m log =
    unmap_segment (u32 d.info3) (field_get tx2_dma_sdl1 d.info2) (bit_and m map1_page != 0)
      (unmap_segment (u32 d.info1) (field_get tx2_dma_sdl0 d.info2) (bit_and m map0_page != 0) log)
