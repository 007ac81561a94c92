-- ===== src/Rx/Pair.antt =====
-- The poll of two receive rings in turn: ralink_fe_rx_poll_2q of
-- drivers/net/ethernet/ralink/ralink_fe.c.
use ralink_fe.Base.{Array, ltb, ◌!=◌, if◌then◌else◌, arith}
use ralink_fe.Base.{
  ℕ, suc, ◌+◌, ◌%◌, ◌^◌, ◌<◌, ◌≤◌, ◌≡◌, refl, ap, Bool, false, ◌&&◌, Option, none, some,
}
use ralink_fe.Rx.{RxRing, RxConfig, Arrival, rx_ring_size}
use ralink_fe.Rx.Poll.{Irq, irq_enable}
use ralink_fe.Rx.Rounds.{Shares, Turned, pair_loop, pair_loop-ends}

-- Both rings with their counters and index registers, and what they share.
pub record RxPair : Type 0 where
  pub ring0 : RxRing
  pub ring1 : RxRing
  pub packets0 : ℕ
  pub packets1 : ℕ
  pub bytes0 : ℕ
  pub bytes1 : ℕ
  pub rx_cpu_idx0 : ℕ
  pub rx_cpu_idx1 : ℕ
  pub rx_dim_packets : ℕ
  pub rx_dim_bytes : ℕ
  pub irq : Irq

abbrev pub start_shares : RxPair → Shares
start_shares q = record {
  first = record { ring = q.ring0; rx_pkts = 0; rx_bytes = 0; touched = false };
  second = record { ring = q.ring1; rx_pkts = 0; rx_bytes = 0; touched = false };
  work_done = 0;
}

-- The end of `ralink_fe_rx_poll_2q`, after its loop.
unfoldable pub pair_finish : Bool → ℕ → RxPair → Shares → RxPair
unfolding irq_enable
pair_finish completes budget q s = record {
  ring0 = s.first.ring;
  ring1 = s.second.ring;
  packets0 = (q.packets0 + s.first.rx_pkts) % 2 ^ 64;
  packets1 = (q.packets1 + s.second.rx_pkts) % 2 ^ 64;
  bytes0 = if s.first.rx_pkts != 0 then (q.bytes0 + s.first.rx_bytes) % 2 ^ 64 else q.bytes0;
  bytes1 = if s.second.rx_pkts != 0 then (q.bytes1 + s.second.rx_bytes) % 2 ^ 64 else q.bytes1;
  rx_cpu_idx0 = if s.first.touched then s.first.ring.cpu_idx else q.rx_cpu_idx0;
  rx_cpu_idx1 = if s.second.touched then s.second.ring.cpu_idx else q.rx_cpu_idx1;
  rx_dim_packets = (q.rx_dim_packets + s.work_done) % 2 ^ 64;
  rx_dim_bytes = (q.rx_dim_bytes + (s.first.rx_bytes + s.second.rx_bytes) % 2 ^ 32) % 2 ^ 64;
  irq = if ltb s.work_done budget && completes then irq_enable q.irq.rx_irq_mask q.irq else q.irq;
}

-- `ralink_fe_rx_poll_2q`: the work done, and the rings after it.
unfoldable pub rx_poll_2q :
    RxConfig → Array Arrival → Array Arrival → Bool → ℕ → RxPair → Option (ℕ × RxPair)
unfolding pair_loop
rx_poll_2q cfg arrivals0 arrivals1 completes budget q =
    elim (pair_loop cfg arrivals0 arrivals1 budget (suc budget) (start_shares q)) [
      | none ↦ none
      | some s ↦ some (s.work_done, pair_finish completes budget q s)
    ]

-- What a poll of two rings leaves: `a` packets are taken from the first ring and `b` from the second.
pub record Polled2q (completes : Bool) (budget work : ℕ) (q q' : RxPair) : Type 0 where
  pub a : ℕ
  pub b : ℕ
  pub shared : work ≡ a + b
  pub bounded : work ≤ budget
  pub first_idx : q'.ring0.cpu_idx ≡ (q.ring0.cpu_idx + a) % rx_ring_size
  pub second_idx : q'.ring1.cpu_idx ≡ (q.ring1.cpu_idx + b) % rx_ring_size
  pub first_reg : q'.rx_cpu_idx0 ≡ (if a != 0 then q'.ring0.cpu_idx else q.rx_cpu_idx0)
  pub second_reg : q'.rx_cpu_idx1 ≡ (if b != 0 then q'.ring1.cpu_idx else q.rx_cpu_idx1)
  pub counted : q'.rx_dim_packets ≡ (q.rx_dim_packets + (a + b)) % 2 ^ 64
  pub irq :
      q'.irq
      ≡ (if ltb (a + b) budget && completes then irq_enable q.irq.rx_irq_mask q.irq else q.irq)

pair_finish-Polled2q :
    (completes : Bool) (budget : ℕ) (q : RxPair) (r : Shares)
    → r.work_done ≤ budget
    → Turned (start_shares q) r
    → Polled2q completes budget r.work_done q (pair_finish completes budget q r)
unfolding pair_finish
pair_finish-Polled2q completes budget q r high t =
    let sum : r.work_done ≡ t.a + t.b = omega (arith, t.total) in
    record {
      a = t.a;
      b = t.b;
      shared = sum;
      bounded = high;
      first_idx = t.first_idx;
      second_idx = t.second_idx;
      first_reg = rw t.first_touched refl;
      second_reg = rw t.second_touched refl;
      counted = ap (λ (n : ℕ). (q.rx_dim_packets + n) % 2 ^ 64) sum;
      irq =
          ap
            (λ (n : ℕ).
              if ltb n budget && completes then irq_enable q.irq.rx_irq_mask q.irq else q.irq)
            sum;
    }

-- `ralink_fe_rx_poll_2q`, on rings whose indices are in range, ends. Its work, which is within the
-- budget, is the sum of what it takes from each ring: each index advances by that ring's share, each
-- index register is written with the index where the share is not 0 and else keeps its value, the sum
-- is added to the 64-bit count of packets for the moderation, and the receive interrupt is enabled
-- exactly when the sum is below the budget and the kernel says that the poll is complete.
pub rx_poll_2q_ends :
    (cfg : RxConfig) (arrivals0 arrivals1 : Array Arrival) (completes : Bool) (budget : ℕ)
    (q : RxPair)
    → q.ring0.cpu_idx < rx_ring_size
    → q.ring1.cpu_idx < rx_ring_size
    → (work : ℕ) × (q' : RxPair) × (rx_poll_2q cfg arrivals0 arrivals1 completes budget q
        ≡ some (work, q'))
      × Polled2q completes budget work q q'
unfolding rx_poll_2q
rx_poll_2q_ends cfg arrivals0 arrivals1 completes budget q f g =
    let (r, done, high, t) =
      pair_loop-ends cfg arrivals0 arrivals1 budget (suc budget) (start_shares q) (f, g)
        (omega arith) (omega arith) in
    (
      r.work_done,
      pair_finish completes budget q r,
      rw (done, rx_poll_2q) refl,
      pair_finish-Polled2q completes budget q r high t,
    )
