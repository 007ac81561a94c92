-- ===== src/Rx/Tests.antt =====
-- Example runs of the receive path: drivers/net/ethernet/ralink/ralink_fe.c.
use ralink_fe.Base.{Array, ◌==◌, ◌!=◌, if◌then◌else◌, ltb, bit_and, arith}
use ralink_fe.Base.{◌+◌, ◌*◌, ◌%◌, ◌^◌, ◌≤◌, ◌≡◌, ◌⊎◌, refl, true, false, ◌&&◌, some, []}
use ralink_fe.Rx.{
  RxRing, RxConfig, Arrival, rx_ring_size, rx_headroom_bytes, rx2_dma_ls0, rx2_dma_done,
  rx_consume_one,
}
use ralink_fe.Rx.Pages.{IsFilled, IsNew, Consumed, rx_consume_one-Consumed, rx_consume_one-IsFilled}
use ralink_fe.Base.{ℕ, ◌+◌}
use ralink_fe.Rx.Pair.{RxPair, Polled2q, rx_poll_2q, rx_poll_2q_ends}
use ralink_fe.Rx.Poll.{RxQueue, irq_enable, rx_poll_1q, rx_poll_1q_lem}

-- The ring after it was filled with the pages 0 to 255.
abbrev ring : RxRing
ring = record {
  desc = λ i. record {
    info1 = (4096 * i + rx_headroom_bytes) % 2 ^ 32;
    info2 = rx2_dma_ls0;
    info3 = 0;
    info4 = 0;
  };
  buf = λ i. record { page = some i; dma = 4096 * i };
  cpu_idx = 255;
  dropped = 0;
  refill_fail = 0;
  log = [];
}

ring-IsFilled : IsFilled ring
ring-IsFilled = record {
  index = omega arith;
  filled = λ i below h. ground arith;
  distinct = λ i j bi bj e. ground arith;
  armed = λ i below. (refl, refl);
}

-- The old engine with its special tag and PPEv1.
abbrev config : RxConfig
config = record {
  csum_valid = 0xc0000000;
  csum_clear = 0x30000000;
  sp_valid = true;
  is_v2 = false;
  dsa_meta = λ port. port == 3;
  has_ppe = true;
  reason_unbind_rate = 0x0f;
  reason_keepalive = 0x11;
}

-- A packet of 60 bytes from port 3, whose flow is to be bound in slot 5, where the offload refuses.
abbrev arrival : Arrival
arrival = record {
  rxinfo2 = 2 ^ 31 + 60 * 2 ^ 16;
  rxinfo4 = 0xc0000000 + 2 ^ 27 + 3 * 2 ^ 24 + 0x0f * 2 ^ 16 + 5;
  new_page = some (1000, 0x500000);
  is_built = true;
  offload_check = λ foe keepalive. false;
}

arrival-IsNew : IsNew arrival ring
unfolding IsNew
arrival-IsNew p dma i given below h = ground arith

rx_consume_one-Consumed_example : Consumed arrival ring (rx_consume_one config arrival ring)
rx_consume_one-Consumed_example = rx_consume_one-Consumed config arrival ring ring-IsFilled

rx_consume_one-IsFilled_example : IsFilled (rx_consume_one config arrival ring).1
rx_consume_one-IsFilled_example =
    rx_consume_one-IsFilled config arrival ring ring-IsFilled arrival-IsNew

-- Two packets have come, and no more.
abbrev arrivals : Array Arrival
arrivals n = if ltb n 2 then arrival else record arrival { rxinfo2 = 0 }

abbrev queue : RxQueue
queue = record {
  ring = ring;
  packets = 0;
  bytes = 0;
  rx_cpu_idx = 255;
  rx_dim_packets = 0;
  rx_dim_bytes = 0;
  irq = record {
    irq_mask = 2;
    int_enable = 2;
    rx_irq_mask = 1;
    tx_irq_mask = 2;
    rx_dim_events = 0;
    tx_dim_events = 0;
    rx_scheduled = true;
    tx_scheduled = false;
  };
}

rx_poll_1q_lem_example :
    let (work, q') = rx_poll_1q config arrivals true 64 queue in
    (work ≤ 64)
    × (q'.ring.cpu_idx ≡ (queue.ring.cpu_idx + work) % rx_ring_size)
    × (q'.rx_cpu_idx ≡ (if work != 0 then q'.ring.cpu_idx else queue.rx_cpu_idx))
    × ((work ≡ 64) ⊎ (bit_and (arrivals work).rxinfo2 rx2_dma_done ≡ 0))
    × (q'.irq
        ≡ (if ltb work 64 && true then irq_enable queue.irq.rx_irq_mask queue.irq else queue.irq))
rx_poll_1q_lem_example = rx_poll_1q_lem config arrivals true 64 queue (omega arith)

-- Both rings have two packets.
abbrev pair : RxPair
pair = record {
  ring0 = ring;
  ring1 = ring;
  packets0 = 0;
  packets1 = 0;
  bytes0 = 0;
  bytes1 = 0;
  rx_cpu_idx0 = 255;
  rx_cpu_idx1 = 255;
  rx_dim_packets = 0;
  rx_dim_bytes = 0;
  irq = queue.irq;
}

rx_poll_2q_ends_example :
    (work : ℕ) × (q' : RxPair) × (rx_poll_2q config arrivals arrivals true 64 pair
      ≡ some (work, q'))
    × Polled2q true 64 work pair q'
rx_poll_2q_ends_example =
    rx_poll_2q_ends config arrivals arrivals true 64 pair (omega arith) (omega arith)
