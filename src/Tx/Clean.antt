-- ===== src/Tx/Clean.antt =====
-- `ralink_fe_tx_clean_q` of drivers/net/ethernet/ralink/ralink_fe.c: the descriptors that the
-- hardware has finished are unmapped and their buffers given back.
use ralink_fe.Base.{update, ltb, ◌!=◌, if◌then◌else◌, bit_and, bit_or}
use ralink_fe.Base.{
  ℕ, zero, suc, ◌+◌, ◌%◌, ◌^◌, Bool, true, false, ◌&&◌, Option, none, some, List, ◌∷◌,
}
use ralink_fe.Tx.{
  TxDesc, Skb, Event, TxRing, TxState, tx_ring_size, tx_wake_thresh, tx_avail, ring_and, u32, u64,
  tx2_dma_ls0, tx2_dma_ls1, tx_unmap_desc, consume_skb, completed_queue,
}

-- The local variables of the loop, and what it writes.
pub record Cleaning : Type 0 where
  pub ring : TxRing
  pub log : List Event
  pub clean : ℕ
  pub pkts : ℕ
  pub bytes : ℕ  -- u32

-- `if (done_last && skb)`
unfoldable pub complete_skb : Bool → Option Skb → Cleaning → Cleaning
complete_skb false skb c = c
complete_skb true none c = c
complete_skb true (some skb) c = record c {
  ring = record (c.ring) { skb = update c.ring.skb c.clean none };
  bytes = u32 (c.bytes + skb.len);
  pkts = c.pkts + 1;
  log = consume_skb skb.id ∷ c.log;
}

-- The body of the loop. `ralink_fe_tx_unmap_desc` clears the slot's map flags; the descriptor
-- itself is not written.
unfoldable pub clean_step : Cleaning → Cleaning
clean_step c =
    let d : TxDesc = c.ring.desc c.clean in
    let c' : Cleaning =
      complete_skb (bit_and d.info2 (bit_or tx2_dma_ls0 tx2_dma_ls1) != 0) (c.ring.skb c.clean)
        (record c {
          ring = record (c.ring) { map = update c.ring.map c.clean 0 };
          log = tx_unmap_desc d (c.ring.map c.clean) c.log;
        }) in
    record c' { clean = ring_and (c.clean + 1) }

-- `while (clean != dtx && pkts < budget)`; the ring's size bounds the rounds.
unfoldable pub clean_loop : ℕ → ℕ → ℕ → Cleaning → Cleaning
clean_loop zero dtx budget c = c
clean_loop (suc rounds) dtx budget c = elim ((c.clean != dtx) && ltb c.pkts budget) [
  | true ↦ clean_loop rounds dtx budget (clean_step c)
  | false ↦ c
]

-- The statistics and the wake-up after the loop.
unfoldable pub clean_finish : Cleaning → TxState → ℕ × TxState
clean_finish c s =
    let ring : TxRing = record (c.ring) { clean_idx = c.clean } in
    let counted : TxState =
      if c.pkts != 0
      then record s {
        ring = record ring {
          packets = u64 (ring.packets + c.pkts);
          bytes = u64 (ring.bytes + c.bytes);
        };
        tx_dim_packets = u64 (s.tx_dim_packets + c.pkts);
        tx_dim_bytes = u64 (s.tx_dim_bytes + c.bytes);
        log = completed_queue c.pkts c.bytes ∷ c.log;
      }
      else record s { ring = ring; log = c.log } in
    (
      c.pkts,
      record counted { stopped = s.stopped && ltb (tx_avail c.clean ring.cpu_idx) tx_wake_thresh },
    )

-- `ralink_fe_tx_clean_q`, where `dma_idx` is what the register `tx_dma_idx[q]` reads.
unfoldable pub tx_clean_q : ℕ → ℕ → TxState → ℕ × TxState
tx_clean_q budget dma_idx s =
    let dtx : ℕ = ring_and (dma_idx % 2 ^ 12) in
    clean_finish
      (clean_loop tx_ring_size dtx budget (record {
        ring = s.ring;
        log = s.log;
        clean = ring_and s.ring.clean_idx;
        pkts = 0;
        bytes = 0;
      }))
      s
