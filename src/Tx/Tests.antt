-- ===== src/Tx/Tests.antt =====
-- Example runs of the transmit side of drivers/net/ethernet/ralink/ralink_fe.c.
use ralink_fe.Base.{arith, ltb, if◌then◌else◌, ◌+◌, ◌*◌, ◌%◌, ◌^◌, ◌≡◌, ◌≤◌, refl, ◌&&◌, ◌⊎◌}
use ralink_fe.Base.{true, false, none, some, [], ◌∷◌}
use ralink_fe.Base.Field.{field_get}
use ralink_fe.Tx.{Skb, TxRing, TxState, TxKernel, TxSoc, none_port, pnqn, ring_and, freed_by_kernel}
use ralink_fe.Tx.Gather.{tx_xmit_sg}
use ralink_fe.Tx.Clean.{tx_clean_q}
use ralink_fe.Tx.Reset.{tx_ring_reset}
use ralink_fe.Base.{ℕ, ◌<◌, ◌≢◌}
use ralink_fe.Tx.Send.{Device, start_xmit, start_xmit_lem}
use ralink_fe.Tx.Window.{used, IsValid, tx_xmit_sg-IsValid}
use ralink_fe.Base.{ltb, if◌then◌else◌, ◌≤◌}
use ralink_fe.Rx.Poll.{Irq, irq_enable}
use ralink_fe.Tx.Poll.{Queues, clean_queue, Polled, poll_round, tx_poll}
use ralink_fe.Tx.Turns.{clean_queue_within, tx_poll_returns, serve_all, poll_round-serve_all}
use ralink_fe.Tx.Drain.{consumed, tx_clean_q_lem}
use ralink_fe.Tx.Faults.{unmaps, tx_ring_reset-unmaps_again}

-- A packet of 1,400 bytes with two page fragments and a tag.
abbrev packet : Skb
packet = record {
  id = 7;
  len = 1400;
  data_len = 1200;
  frags = 800 ∷ 400 ∷ [];
  csum_partial = true;
  vlan_tci = some 0x2064;
  queue_mapping = 1;
}

-- Two descriptors are in flight, in slots 127 and 0; the segment of slot 127 has 60 bytes.
abbrev ring : TxRing
ring = record {
  desc = λ i. record { info1 = 0x1000; info2 = 60 * 2 ^ 16 + 2 ^ 30; info3 = 0; info4 = 0 };
  cpu_idx = 1;
  clean_idx = 127;
  skb = λ i. some packet;
  map = λ i. 0;
  packets = 0;
  bytes = 0;
  errors = 0;
  dropped = 0;
  ring_full = 0;
}

abbrev queue : TxState
queue = record {
  ring = ring;
  stopped = false;
  vlan = record { vlan_idx = λ _. 0; vlan_next_idx = 0; regs = λ _. 0 };
  tx_dim_packets = 0;
  tx_dim_bytes = 0;
  log = [];
}

-- A kernel that maps a buffer at its address, fails for the second fragment, and cannot put a tag
-- inside.
abbrev kernel : TxKernel
kernel = record {
  dma_map_single = λ skb. some 0x2000;
  skb_frag_dma_map = λ skb i. if ltb i 1 then some 0x3000 else none;
  vlan_hwaccel_push_inside = λ skb. none;
  skb_put_padto = λ skb. some skb;
  failed_push = λ id. freed_by_kernel id ∷ [];
  failed_padto = λ id. freed_by_kernel id ∷ [];
  xmit_more = false;
  xmit_stopped = false;
}

abbrev soc : TxSoc
soc = record { tx4_port = pnqn; vlan_id_base = 0xa8 }

abbrev soc_without_vlan : TxSoc
soc_without_vlan = record { tx4_port = none_port; vlan_id_base = 0 }

ring-IsValid : IsValid ring
ring-IsValid = record { cpu_in = omega arith; clean_in = omega arith; room = omega arith }

tx_xmit_sg-IsValid_example : IsValid (tx_xmit_sg kernel soc 1 packet queue).1.ring
tx_xmit_sg-IsValid_example = tx_xmit_sg-IsValid kernel soc 1 packet queue ring-IsValid

tx_clean_q_lem_example :
    let (done, s') = tx_clean_q 64 1 queue in
    IsValid s'.ring
    × (done ≤ 64)
    × ((s'.ring.clean_idx ≡ ring_and (1 % 2 ^ 12)) ⊎ (done ≡ 64))
    × (consumed s'.log ≡ consumed queue.log + done)
    × (used s'.ring.clean_idx s'.ring.cpu_idx ≤ used queue.ring.clean_idx queue.ring.cpu_idx)
    × (s'.stopped ≡ (queue.stopped && ltb 96 (used s'.ring.clean_idx s'.ring.cpu_idx)))
tx_clean_q_lem_example = tx_clean_q_lem 64 1 queue ring-IsValid (omega arith)

sdl0_of_slot : field_get (record { lo = 16; width = 14 }) (60 * 2 ^ 16 + 2 ^ 30) ≡ 60
unfolding field_get
sdl0_of_slot = refl

tx_ring_reset-unmaps_again_example :
    unmaps 0x1000 60 queue.log + 2 ≤ unmaps 0x1000 60 (tx_ring_reset (tx_clean_q 64 1 queue).1).log
tx_ring_reset-unmaps_again_example =
    tx_ring_reset-unmaps_again 0x1000 60 64 1 queue ring-IsValid (omega arith) (refl, sdl0_of_slot)
      (omega arith) (omega arith)

abbrev device : Device
device = record {
  tx_ring = λ q. ring;
  stopped = λ q. false;
  txqs = 4;
  vlan = queue.vlan;
  tx_dim_packets = 0;
  tx_dim_bytes = 0;
  log = [];
}

start_xmit_lem_example :
    let dev' = (start_xmit kernel soc packet device).1 in
    (q : ℕ) × (q < 4)
    × IsValid (dev'.tx_ring q)
    × ((i : ℕ) → q ≢ i → (dev'.tx_ring i ≡ ring) × (dev'.stopped i ≡ false))
start_xmit_lem_example =
    start_xmit_lem kernel soc packet device (omega arith) (λ i below. ring-IsValid)

-- Four queues with nothing in flight, and an interrupt controller with the transmit interrupts off.
abbrev queues : Queues
queues = record { queue = λ q. queue; dma_idx = λ q. 0; tx_dim_packets = 0; tx_dim_bytes = 0 }

abbrev quiet_irq : Irq
quiet_irq = record {
  irq_mask = 1;
  int_enable = 1;
  rx_irq_mask = 1;
  tx_irq_mask = 6;
  rx_dim_events = 0;
  tx_dim_events = 0;
  rx_scheduled = false;
  tx_scheduled = true;
}

tx_poll_returns_example :
    (r : Polled Queues) × (tx_poll clean_queue 4 64 true 3 queues quiet_irq ≡ some r)
    × (r.work_done ≤ 64)
    × (r.tx_poll_next < 4)
    × (r.irq ≡ (
        if ltb r.work_done 64
        then (if true then irq_enable 6 quiet_irq else quiet_irq)
        else quiet_irq))
tx_poll_returns_example =
    tx_poll_returns clean_queue clean_queue_within 4 64 true 3 queues quiet_irq (omega arith)

poll_round-serve_all_example :
    (poll_round clean_queue 4 64 4 0 3
      (record { state = queues; work_done = 0; did_work = false })).state
    ≡ serve_all clean_queue 4 4 0 3 queues
poll_round-serve_all_example =
    poll_round-serve_all clean_queue clean_queue_within 4 64 4 0 3
      (record { state = queues; work_done = 0; did_work = false }) (omega arith)
