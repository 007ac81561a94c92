-- ===== src/Tx/Drain.antt =====
-- What `ralink_fe_tx_clean_q` does with the descriptors in flight.
use ralink_fe.Base.{bit_and, bit_or, ◌∙◌, update, ltb, ◌!=◌, arith, Bool-cases}
use ralink_fe.Base.{ℕ, zero, suc, ◌+◌, ◌-◌, ◌%◌, ◌^◌, ◌≤◌, ◌<◌, ◌≡◌, ◌⊎◌, inl, inr}
use ralink_fe.Base.{Bool, true, false, Option, none, some, List, [], ◌∷◌, ◌&&◌}
use ralink_fe.Tx.{
  TxState, Skb, Event, TxDesc, ring_and, tx_unmap_desc, unmap_segment, consume_skb, map_single,
  map_page, unmap_single, unmap_page, kfree_skb, freed_by_kernel, sent_queue, completed_queue,
  doorbell, tx2_dma_ls0, tx2_dma_ls1,
}
use ralink_fe.Tx.Clean.{Cleaning, complete_skb, clean_step, clean_loop, clean_finish, tx_clean_q}
use ralink_fe.Tx.Window.{used, IsValid}

-- How far the hardware is ahead of `clean`.
abbrev pub ahead : ℕ → ℕ → ℕ
ahead clean dtx = (dtx + 128 - clean) % 128

-- The buffers that a list of events gives back as sent.
abbrev pub consumed : List Event → ℕ
consumed [] = 0
consumed (consume_skb id ∷ log) = suc (consumed log)
consumed (map_single dma len ∷ log) = consumed log
consumed (map_page dma len ∷ log) = consumed log
consumed (unmap_single dma len ∷ log) = consumed log
consumed (unmap_page dma len ∷ log) = consumed log
consumed (kfree_skb id ∷ log) = consumed log
consumed (freed_by_kernel id ∷ log) = consumed log
consumed (sent_queue bytes ∷ log) = consumed log
consumed (completed_queue pkts bytes ∷ log) = consumed log
consumed (doorbell cpu ∷ log) = consumed log

-- Unmapping gives no buffer back.
consumed-unmap_segment :
    (dma len : ℕ) (page : Bool) (log : List Event)
    → consumed (unmap_segment dma len page log) ≡ consumed log
unfolding unmap_segment
consumed-unmap_segment dma len page log = ground arith

consumed-tx_unmap_desc :
    (d : TxDesc) (m : ℕ) (log : List Event) → consumed (tx_unmap_desc d m log) ≡ consumed log
unfolding tx_unmap_desc
consumed-tx_unmap_desc d m log = consumed-unmap_segment _ _ _ _ ∙ consumed-unmap_segment _ _ _ _

-- One round of the loop, as far as the indices and counts go.
record Stepped (c c' : Cleaning) : Type 0 where
  cpu : c'.ring.cpu_idx ≡ c.ring.cpu_idx
  clean : c'.clean ≡ ring_and (c.clean + 1)
  pkts : (c.pkts ≤ c'.pkts) × (c'.pkts ≤ c.pkts + 1)
  given_back : consumed c'.log + c.pkts ≡ consumed c.log + c'.pkts

complete_skb-Stepped :
    (b : Bool) (o : Option Skb) (c : Cleaning)
    → Stepped c (record (complete_skb b o c) { clean = ring_and ((complete_skb b o c).clean + 1) })
unfolding complete_skb
complete_skb-Stepped false o c = ground arith
complete_skb-Stepped true none c = ground arith
complete_skb-Stepped true (some skb) c = ground arith

clean_step-Stepped : (c : Cleaning) → Stepped c (clean_step c)
unfolding clean_step
clean_step-Stepped c = ground (
  arith,
  complete_skb-Stepped (bit_and (c.ring.desc c.clean).info2 (bit_or tx2_dma_ls0 tx2_dma_ls1) != 0)
      (c.ring.skb c.clean)
      (record c {
        ring = record (c.ring) { map = update c.ring.map c.clean 0 };
        log = tx_unmap_desc (c.ring.desc c.clean) (c.ring.map c.clean) c.log;
      }),
  consumed-tx_unmap_desc (c.ring.desc c.clean) (c.ring.map c.clean) c.log,
)

-- What the whole loop does when the hardware's index is within the window: it ends because the
-- index is reached or the budget is spent, never past the index, with a buffer given back for each
-- packet counted.
record Drained (dtx budget : ℕ) (c c' : Cleaning) : Type 0 where
  cpu : c'.ring.cpu_idx ≡ c.ring.cpu_idx
  within : c'.clean < 128
  stops : (c'.clean ≡ dtx) ⊎ (c'.pkts ≡ budget)
  behind : ahead c'.clean dtx ≤ ahead c.clean dtx
  advanced :
      ahead c'.clean c.ring.cpu_idx + ahead c.clean dtx
      ≡ ahead c.clean c.ring.cpu_idx + ahead c'.clean dtx
  pkts : (c.pkts ≤ c'.pkts) × (c'.pkts ≤ budget)
  given_back : consumed c'.log + c.pkts ≡ consumed c.log + c'.pkts

clean_loop-Drained :
    (rounds dtx budget : ℕ) (c : Cleaning)
    → c.clean < 128
    → dtx < 128
    → c.pkts ≤ budget
    → ahead c.clean dtx < rounds
    → ahead c.clean dtx ≤ ahead c.clean c.ring.cpu_idx
    → Drained dtx budget c (clean_loop rounds dtx budget c)
unfolding clean_loop
clean_loop-Drained zero dtx budget c hc hd hp hr hw = absurd (omega arith)
clean_loop-Drained (suc rounds) dtx budget c hc hd hp hr hw =
    elim (Bool-cases ((c.clean != dtx) && ltb c.pkts budget)) [
      | inl go ↦
          rw (go, clean_loop)
            (ground (
              arith,
              clean_step-Stepped c,
              clean_loop-Drained rounds dtx budget (clean_step c)
                  (omega (arith, clean_step-Stepped c)) hd (ground (arith, clean_step-Stepped c))
                  (ground (arith, clean_step-Stepped c)) (ground (arith, clean_step-Stepped c)),
            ))
      | inr stop ↦ rw (stop, clean_loop) (ground arith)
    ]

-- `ralink_fe_tx_clean_q` on a valid ring, when the hardware's index stays within the descriptors in
-- flight: the ring stays valid, at most `budget` packets are counted, the cleaning stops at the
-- hardware's index or because the budget is spent, one buffer is given back for each packet, no
-- more descriptors are in flight than before, and a stopped queue stays stopped exactly when too few
-- descriptors are free.
pub tx_clean_q_lem :
    (budget dma_idx : ℕ) (s : TxState)
    → IsValid s.ring
    → let dtx = ring_and (dma_idx % 2 ^ 12) in
      ahead s.ring.clean_idx dtx ≤ used s.ring.clean_idx s.ring.cpu_idx
      → let (done, s') = tx_clean_q budget dma_idx s in
        IsValid s'.ring
        × (done ≤ budget)
        × ((s'.ring.clean_idx ≡ dtx) ⊎ (done ≡ budget))
        × (consumed s'.log ≡ consumed s.log + done)
        × (used s'.ring.clean_idx s'.ring.cpu_idx ≤ used s.ring.clean_idx s.ring.cpu_idx)
        × (s'.stopped ≡ (s.stopped && ltb 96 (used s'.ring.clean_idx s'.ring.cpu_idx)))
unfolding tx_clean_q clean_finish
tx_clean_q_lem budget dma_idx s v w = ground (
  arith,
  clean_loop-Drained 128 (ring_and (dma_idx % 2 ^ 12)) budget
      (record {
        ring = s.ring;
        log = s.log;
        clean = ring_and s.ring.clean_idx;
        pkts = 0;
        bytes = 0;
      })
      (omega arith) (omega arith) (omega arith) (omega arith) (omega arith),
)
