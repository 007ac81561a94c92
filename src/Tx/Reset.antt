-- ===== src/Tx/Reset.antt =====
-- `ralink_fe_tx_ring_init` and `ralink_fe_tx_ring_reset` of
-- drivers/net/ethernet/ralink/ralink_fe.c.
use ralink_fe.Base.{update}
use ralink_fe.Base.{ℕ, zero, suc, ◌+◌, Option, none, some, List, ◌∷◌}
use ralink_fe.Tx.{Skb, Event, TxRing, TxState, tx_ring_size, tx_unmap_desc, kfree_skb, doorbell}
use ralink_fe.Tx.Gather.{idle_desc}

-- The loop of `ralink_fe_tx_ring_init`, from slot `i` on, `n` slots left.
unfoldable pub init_slots : ℕ → ℕ → TxRing → TxRing
init_slots i zero ring = ring
init_slots i (suc n) ring = init_slots (i + 1) n (record ring {
  skb = update ring.skb i none;
  map = update ring.map i 0;
  desc = update ring.desc i idle_desc;
})

unfoldable pub tx_ring_init : TxRing → TxRing
unfolding init_slots
tx_ring_init ring = record (init_slots 0 tx_ring_size ring) { cpu_idx = 0; clean_idx = 0 }

unfoldable pub free_slot : Option Skb → List Event → List Event
free_slot none log = log
free_slot (some skb) log = kfree_skb skb.id ∷ log

-- The loop of `ralink_fe_tx_ring_reset`: each buffer is freed and each descriptor unmapped.
unfoldable pub reset_slots : ℕ → ℕ → TxRing → List Event → TxRing × List Event
unfolding free_slot
reset_slots i zero ring log = (ring, log)
reset_slots i (suc n) ring log =
    reset_slots (i + 1) n
      (record ring {
        skb = update ring.skb i none;
        map = update ring.map i 0;
        desc = update ring.desc i idle_desc;
      })
      (tx_unmap_desc (ring.desc i) (ring.map i) (free_slot (ring.skb i) log))

unfoldable pub tx_ring_reset : TxState → TxState
unfolding reset_slots
tx_ring_reset s =
    let (ring, log) = reset_slots 0 tx_ring_size s.ring s.log in
    record s { ring = record ring { cpu_idx = 0; clean_idx = 0 }; log = doorbell 0 ∷ log }
