-- ===== src/Tx/Send.antt =====
-- `ralink_fe_start_xmit` of drivers/net/ethernet/ralink/ralink_fe.c: the queues of the device, and
-- the choice of the queue and of the linear or scatter-gather path.
use ralink_fe.Base.{Array, update, leb, if◌then◌else◌, arith, Bool-cases}
use ralink_fe.Base.{ℕ, ◌%◌, ◌<◌, ◌≡◌, ◌≢◌, inl, inr, Bool, List}
use ralink_fe.Vlan.{VlanCache}
use ralink_fe.Tx.{TxRing, TxState, TxKernel, TxSoc, Skb, Status, Event, skb_is_nonlinear}
use ralink_fe.Tx.Xmit.{tx_xmit_linear}
use ralink_fe.Tx.Gather.{tx_xmit_sg}
use ralink_fe.Tx.Window.{IsValid, tx_xmit_linear-IsValid, tx_xmit_sg-IsValid}

-- The transmit part of `struct ralink_fe_priv`.
pub record Device : Type 0 where
  pub tx_ring : Array TxRing
  pub stopped : Array Bool
  pub txqs : ℕ
  pub vlan : VlanCache
  pub tx_dim_packets : ℕ
  pub tx_dim_bytes : ℕ
  pub log : List Event

-- Queue `q` with what all queues share, and the device after a call on it.
abbrev pub queue : ℕ → Device → TxState
queue q dev = record {
  ring = dev.tx_ring q;
  stopped = dev.stopped q;
  vlan = dev.vlan;
  tx_dim_packets = dev.tx_dim_packets;
  tx_dim_bytes = dev.tx_dim_bytes;
  log = dev.log;
}

abbrev pub with_queue : ℕ → TxState → Device → Device
with_queue q s dev = record dev {
  tx_ring = update dev.tx_ring q s.ring;
  stopped = update dev.stopped q s.stopped;
  vlan = s.vlan;
  tx_dim_packets = s.tx_dim_packets;
  tx_dim_bytes = s.tx_dim_bytes;
  log = s.log;
}

-- The queue of a packet; `& 0x3` is the remainder by 4.
unfoldable pub xmit_queue : ℕ → Skb → ℕ
xmit_queue txqs skb = let q : ℕ = skb.queue_mapping % 4 in if leb txqs q then 0 else q

unfoldable pub xmit_on : TxKernel → TxSoc → ℕ → Skb → TxState → Status × TxState
xmit_on k soc q skb s =
    if skb_is_nonlinear skb then tx_xmit_sg k soc q skb s else tx_xmit_linear k soc q skb s

unfoldable pub start_xmit : TxKernel → TxSoc → Skb → Device → Status × Device
unfolding xmit_queue xmit_on
start_xmit k soc skb dev =
    let q : ℕ = xmit_queue dev.txqs skb in
    let r : Status × TxState = xmit_on k soc q skb (queue q dev) in (r.0, with_queue q r.1 dev)

xmit_queue_inside : (txqs : ℕ) (skb : Skb) → 0 < txqs → xmit_queue txqs skb < txqs
unfolding xmit_queue
xmit_queue_inside txqs skb h = ground arith

xmit_on-IsValid :
    (k : TxKernel) (soc : TxSoc) (q : ℕ) (skb : Skb) (s : TxState)
    → IsValid s.ring
    → IsValid (xmit_on k soc q skb s).1.ring
unfolding xmit_on
xmit_on-IsValid k soc q skb s v = elim (Bool-cases (skb_is_nonlinear skb)) [
  | inl gathered ↦ rw (gathered, xmit_on) (tx_xmit_sg-IsValid k soc q skb s v)
  | inr linear ↦ rw (linear, xmit_on) (tx_xmit_linear-IsValid k soc q skb s v)
]

-- On a device with a queue at least, a packet goes to one of its queues: that ring stays valid if it
-- was, and the ring and the stop flag of each other queue stay as they were.
pub start_xmit_lem :
    (k : TxKernel) (soc : TxSoc) (skb : Skb) (dev : Device)
    → 0 < dev.txqs
    → ((i : ℕ) → i < dev.txqs → IsValid (dev.tx_ring i))
    → let dev' = (start_xmit k soc skb dev).1 in
      (q : ℕ) × (q < dev.txqs)
      × IsValid (dev'.tx_ring q)
      × ((i : ℕ) → q ≢ i → (dev'.tx_ring i ≡ dev.tx_ring i) × (dev'.stopped i ≡ dev.stopped i))
unfolding start_xmit
start_xmit_lem k soc skb dev some_queue v =
    let q : ℕ = xmit_queue dev.txqs skb in
    let inside = xmit_queue_inside dev.txqs skb some_queue in
    (
      q,
      inside,
      ground (arith, xmit_on-IsValid k soc q skb (queue q dev) (v q inside)),
      λ i ne. ground arith,
    )
