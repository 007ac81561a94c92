-- ===== src/Tx/Poll.antt =====
-- `ralink_fe_tx_poll` of drivers/net/ethernet/ralink/ralink_fe.c: the transmit queues are cleaned in
-- turn, a quantum at a time, until the budget is spent or a round finds nothing.
use ralink_fe.Base.{Array, update, ltb, ◌==◌, ◌!=◌, if◌then◌else◌, min}
use ralink_fe.Base.{ℕ, zero, suc, ◌+◌, ◌-◌, ◌%◌, Bool, true, false, Option, none, some}
use ralink_fe.Tx.{TxState}
use ralink_fe.Tx.Clean.{tx_clean_q}
use ralink_fe.Rx.Poll.{Irq, irq_enable}

-- The queues, what each one's index register reads, and the counters that they share.
pub record Queues : Type 0 where
  pub queue : Array TxState
  pub dma_idx : Array ℕ
  pub tx_dim_packets : ℕ
  pub tx_dim_bytes : ℕ

-- `ralink_fe_tx_clean_q(priv, cur, quota)`
unfoldable pub clean_queue : ℕ → ℕ → Queues → ℕ × Queues
clean_queue cur quota s =
    let r =
      tx_clean_q quota (s.dma_idx cur) (record (s.queue cur) {
        tx_dim_packets = s.tx_dim_packets;
        tx_dim_bytes = s.tx_dim_bytes;
      }) in
    (
      r.0,
      record s {
        queue = update s.queue cur r.1;
        tx_dim_packets = r.1.tx_dim_packets;
        tx_dim_bytes = r.1.tx_dim_bytes;
      },
    )

abbrev pub tx_poll_quantum : ℕ
tx_poll_quantum = 8

pub record Polling (S : Type 0) : Type 0 where
  pub state : S
  pub work_done : ℕ
  pub did_work : Bool

-- What a poll leaves: the queues, its work, and the queue that the next poll begins with.
pub record Polled (S : Type 0) : Type 0 where
  pub state : S
  pub work_done : ℕ
  pub tx_poll_next : ℕ
  pub irq : Irq

-- `clean` cleans a queue within a quota, and returns the packets that it has completed.
module _ {S : Type 0} (clean : ℕ → ℕ → S → ℕ × S) (txqs budget : ℕ) where
  unfoldable pub poll_queue : ℕ → Polling S → Polling S
  poll_queue cur p =
      let r = clean cur (min tx_poll_quantum (budget - p.work_done)) p.state in
      if r.0 != 0
      then record { state = r.1; work_done = p.work_done + r.0; did_work = true }
      else record p { state = r.1 }

  -- The `for` loop, with `left` queues to come.
  unfoldable pub poll_round : (left i q : ℕ) → Polling S → Polling S
  poll_round zero i q p = p
  poll_round (suc left) i q p = elim (ltb p.work_done budget) [
    | true ↦ poll_round left (i + 1) q (poll_queue ((q + i) % txqs) p)
    | false ↦ p
  ]

  abbrev pub next_queue : ℕ → ℕ
  next_queue q = if q + 1 == txqs then 0 else q + 1

  -- The `while` loop on fuel, with `none` when it runs out: the work and the next queue.
  unfoldable pub poll_loop : (fuel q : ℕ) → Polling S → Option (Polling S × ℕ)
  poll_loop zero q p = none
  poll_loop (suc fuel) q p = elim (ltb p.work_done budget) [
    | false ↦ some (p, q)
    | true ↦
        let round : Polling S = poll_round txqs 0 q (record p { did_work = false }) in
        elim round.did_work [
          | true ↦ poll_loop fuel (next_queue q) round
          | false ↦ some (round, next_queue q)
        ]
  ]

  -- `ralink_fe_tx_poll`, where `napi_complete_done` answers `completed`. The sample that it hands to the
  -- kernel's `net_dim` is not kept.
  unfoldable pub tx_poll : (completed : Bool) (tx_poll_next : ℕ) → S → Irq → Option (Polled S)
  unfolding poll_loop
  tx_poll completed tx_poll_next s irq =
      elim (poll_loop (budget + 1) tx_poll_next
        (record { state = s; work_done = 0; did_work = false })) [
          | none ↦ none
          | some (p, q) ↦ some (record {
            state = p.state;
            work_done = p.work_done;
            tx_poll_next = q;
            irq =
                if ltb p.work_done budget
                then (if completed then irq_enable irq.tx_irq_mask irq else irq)
                else irq;
          })
        ]
