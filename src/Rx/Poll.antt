-- ===== src/Rx/Poll.antt =====
-- The polls of the receive rings and the interrupt mask: ralink_fe_rx_poll_1q, ralink_fe_irq_enable,
-- ralink_fe_irq_disable and ralink_fe_irq of drivers/net/ethernet/ralink/ralink_fe.c.
use ralink_fe.Base.{
  Array, ltb, ◌==◌, ◌!=◌, if◌then◌else◌, bit_and, bit_or, arith, Bool-cases, Option-cases,
}
use ralink_fe.Base.{
  ℕ, zero, suc, ◌+◌, ◌-◌, ◌%◌, ◌^◌, ◌<◌, ◌≤◌, ◌≡◌, ◌⊎◌, refl, ap, inl, inr, Bool, true, false, ◌&&◌,
  Option, none, some,
}
use ralink_fe.Base.Field.{u32_not}
use ralink_fe.Rx.{RxRing, RxConfig, Arrival, rx_ring_size, rx2_dma_done, rx_rearm, rx_consume_one}

-- The interrupts of `struct ralink_fe_priv`: the mask and the register that it is written to, and
-- whether the kernel has been asked to poll.
pub record Irq : Type 0 where
  pub irq_mask : ℕ
  pub int_enable : ℕ
  pub rx_irq_mask : ℕ
  pub tx_irq_mask : ℕ
  pub rx_dim_events : ℕ
  pub tx_dim_events : ℕ
  pub rx_scheduled : Bool
  pub tx_scheduled : Bool

-- `ralink_fe_irq_enable`, `ralink_fe_irq_disable`
unfoldable pub irq_enable : ℕ → Irq → Irq
irq_enable bits s = let m : ℕ = bit_or s.irq_mask bits in record s { irq_mask = m; int_enable = m }

unfoldable pub irq_disable : ℕ → Irq → Irq
irq_disable bits s =
    let m : ℕ = bit_and s.irq_mask (u32_not bits) in record s { irq_mask = m; int_enable = m }

-- `ralink_fe_irq`, with the value of the status register; false is IRQ_NONE.
unfoldable pub fe_irq : ℕ → Irq → Bool × Irq
unfolding irq_disable
fe_irq int_status s =
    let st : ℕ = bit_and int_status s.irq_mask in
    let masked : Irq = irq_disable st s in
    let rx : Bool = bit_and st s.rx_irq_mask != 0 in
    let tx : Bool = bit_and st s.tx_irq_mask != 0 in
    if st == 0 then (false, s) else (
      true,
      record masked {
        rx_dim_events = if rx then (s.rx_dim_events + 1) % 2 ^ 64 else s.rx_dim_events;
        tx_dim_events = if tx then (s.tx_dim_events + 1) % 2 ^ 64 else s.tx_dim_events;
        rx_scheduled = if rx then true else s.rx_scheduled;
        tx_scheduled = if tx then true else s.tx_scheduled;
      },
    )

-- What the loop of a poll has done: the ring, the work, and the packets and bytes received.
pub record Progress : Type 0 where
  pub ring : RxRing
  pub work_done : ℕ
  pub rx_pkts : ℕ
  pub rx_bytes : ℕ

-- One call that has consumed a packet of `bytes`.
abbrev pub progressed : ℕ → RxRing → Progress → Progress
progressed bytes ring s = record {
  ring = ring;
  work_done = s.work_done + 1;
  rx_pkts = if bytes != 0 then (s.rx_pkts + 1) % 2 ^ 32 else s.rx_pkts;
  rx_bytes = (s.rx_bytes + bytes) % 2 ^ 32;
}

-- The loop of `ralink_fe_rx_poll_1q` with `left` of the budget left; the n-th call meets `arrivals n`.
unfoldable pub rx_loop : RxConfig → Array Arrival → ℕ → Progress → Progress
rx_loop cfg arrivals zero s = s
rx_loop cfg arrivals (suc left) s =
    let r : Option ℕ × RxRing = rx_consume_one cfg (arrivals s.work_done) s.ring in
    elim r.0 [
      | none ↦ record s { ring = r.1 }
      | some bytes ↦ rx_loop cfg arrivals left (progressed bytes r.1 s)
    ]

-- `ralink_fe_rx_poll_1q`: the ring with its counters, the index register, and the interrupts.
pub record RxQueue : Type 0 where
  pub ring : RxRing
  pub packets : ℕ
  pub bytes : ℕ
  pub rx_cpu_idx : ℕ
  pub rx_dim_packets : ℕ
  pub rx_dim_bytes : ℕ
  pub irq : Irq

-- `completes` is what `napi_complete_done` answers.
unfoldable pub rx_poll_1q : RxConfig → Array Arrival → Bool → ℕ → RxQueue → ℕ × RxQueue
unfolding rx_loop irq_enable
rx_poll_1q cfg arrivals completes budget q =
    let p : Progress =
      rx_loop cfg arrivals budget
        (record { ring = q.ring; work_done = 0; rx_pkts = 0; rx_bytes = 0 }) in
    (
      p.work_done,
      record {
        ring = p.ring;
        packets = (q.packets + p.rx_pkts) % 2 ^ 64;
        bytes = if p.rx_pkts != 0 then (q.bytes + p.rx_bytes) % 2 ^ 64 else q.bytes;
        rx_cpu_idx = if p.work_done != 0 then p.ring.cpu_idx else q.rx_cpu_idx;
        rx_dim_packets = (q.rx_dim_packets + p.work_done) % 2 ^ 64;
        rx_dim_bytes = (q.rx_dim_bytes + p.rx_bytes) % 2 ^ 64;
        irq =
            if ltb p.work_done budget && completes
            then irq_enable q.irq.rx_irq_mask q.irq
            else q.irq;
      },
    )

-- A call consumes one slot, or nothing when no packet has come.
pub rx_consume_one-cpu_idx :
    (cfg : RxConfig) (a : Arrival) (ring : RxRing)
    → let (ret, ring') = rx_consume_one cfg a ring in
      ((ret ≡ none) × (ring' ≡ ring) × (bit_and a.rxinfo2 rx2_dma_done ≡ 0))
      ⊎ ((n : ℕ) × (ret ≡ some n) × (ring'.cpu_idx ≡ (ring.cpu_idx + 1) % rx_ring_size))
unfolding rx_consume_one rx_rearm
rx_consume_one-cpu_idx cfg a ring = elim (Bool-cases (bit_and a.rxinfo2 rx2_dma_done == 0)) [
  | inl idle ↦ rw (idle, rx_consume_one) (inl (refl, refl, ground arith))
  | inr done ↦
      rw (done, rx_consume_one)
        (elim (Option-cases a.new_page) [
          | inl empty ↦ simp empty (inr (0, refl, refl))
          | inr ((p, dma), new) ↦ simp new (inr (_, refl, refl))
        ])
]

-- How far the loop comes.
pub record Looped (arrivals : Array Arrival) (left : ℕ) (s r : Progress) : Type 0 where
  pub bounded : r.work_done ≤ s.work_done + left
  pub grows : s.work_done ≤ r.work_done
  pub advanced : r.ring.cpu_idx ≡ (s.ring.cpu_idx + (r.work_done - s.work_done)) % rx_ring_size
  pub emptied :
      r.work_done < s.work_done + left → bit_and (arrivals r.work_done).rxinfo2 rx2_dma_done ≡ 0

rx_loop-Looped :
    (cfg : RxConfig) (arrivals : Array Arrival) (left : ℕ) (s : Progress)
    → s.ring.cpu_idx < rx_ring_size
    → Looped arrivals left s (rx_loop cfg arrivals left s)
unfolding rx_loop
rx_loop-Looped cfg arrivals zero s h = record {
  bounded = omega arith;
  grows = omega arith;
  advanced = omega arith;
  emptied = λ e. absurd (omega arith);
}
rx_loop-Looped cfg arrivals (suc left) s h =
    let r : Option ℕ × RxRing = rx_consume_one cfg (arrivals s.work_done) s.ring in
    elim (rx_consume_one-cpu_idx cfg (arrivals s.work_done) s.ring) [
      | inl (stop, same, idle) ↦
          rw (stop, rx_loop)
            (record {
              bounded = omega arith;
              grows = omega arith;
              advanced = ground (arith, ap (λ (q : RxRing). q.cpu_idx) same);
              emptied = λ e. idle;
            })
      | inr (n, more, index) ↦
          let rest = rx_loop-Looped cfg arrivals left (progressed n r.1 s) (omega (arith, index)) in
          rw (more, rx_loop)
            (record {
              bounded = omega (arith, rest.bounded);
              grows = omega (arith, rest.grows);
              advanced = omega (arith, rest.advanced, rest.grows, index);
              emptied = λ e. rest.emptied (omega arith);
            })
    ]

-- `ralink_fe_rx_poll_1q` on a ring whose index is in range does at most the budget of work, advances the
-- index by it, leaves the index register at the ring's index when it has done any, and, with budget
-- left, has stopped at a slot that the device has not filled; the receive interrupt is enabled exactly
-- when budget is left and the kernel says that the poll is complete.
pub rx_poll_1q_lem :
    (cfg : RxConfig) (arrivals : Array Arrival) (completes : Bool) (budget : ℕ) (q : RxQueue)
    → q.ring.cpu_idx < rx_ring_size
    → let (work, q') = rx_poll_1q cfg arrivals completes budget q in
      (work ≤ budget)
      × (q'.ring.cpu_idx ≡ (q.ring.cpu_idx + work) % rx_ring_size)
      × (q'.rx_cpu_idx ≡ (if work != 0 then q'.ring.cpu_idx else q.rx_cpu_idx))
      × ((work ≡ budget) ⊎ (bit_and (arrivals work).rxinfo2 rx2_dma_done ≡ 0))
      × (q'.irq
          ≡ (if ltb work budget && completes then irq_enable q.irq.rx_irq_mask q.irq else q.irq))
unfolding rx_poll_1q
rx_poll_1q_lem cfg arrivals completes budget q h =
    let start : Progress = record { ring = q.ring; work_done = 0; rx_pkts = 0; rx_bytes = 0 } in
    let p : Progress = rx_loop cfg arrivals budget start in
    let l = rx_loop-Looped cfg arrivals budget start h in
    (
      omega (arith, l.bounded),
      omega (arith, l.advanced),
      refl,
      elim (Bool-cases (ltb p.work_done budget)) [
        | inl early ↦ inr (l.emptied (ground arith))
        | inr all ↦ inl (ground (arith, l.bounded))
      ],
      refl,
    )
