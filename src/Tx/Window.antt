-- ===== src/Tx/Window.antt =====
-- The indices of a transmit ring: the descriptors from `clean_idx` up to `cpu_idx` are the
-- hardware's, and never more than the ring's size less the reserve.
use ralink_fe.Base.{Array, ltb, ◌==◌, arith, length, Bool-cases, Option-cases}
use ralink_fe.Base.{ℕ, zero, suc, ◌+◌, ◌-◌, ◌/◌, ◌%◌, ◌≤◌, ◌<◌, ◌≡◌, refl, inl, inr}
use ralink_fe.Base.{Bool, Option, List, [], ◌∷◌}
use ralink_fe.Tx.{
  TxRing, TxState, TxKernel, TxSoc, Skb, tx_avail, ring_and, Event, u16, skb_headlen,
}
use ralink_fe.Tx.Xmit.{
  Prepared, prepared, no_memory, tx_prepare_vlan, linear_prepared, tx_xmit_linear,
}
use ralink_fe.Tx.Gather.{
  Gathered, Loop, all_mapped, map_failed, clear_slots, gather_frag, gather_frags, gather_head,
  gather_finish, gather_prepared, gather, tx_unwind_sg, needed_descs, tx_xmit_sg,
}

-- The descriptors that are in flight.
abbrev pub used : ℕ → ℕ → ℕ
used clean cpu = (cpu + 128 - clean) % 128

pub record IsValid (ring : TxRing) : Type 0 where
  pub cpu_in : ring.cpu_idx < 128
  pub clean_in : ring.clean_idx < 128
  pub room : used ring.clean_idx ring.cpu_idx ≤ 112

-- With that many in flight at most, the driver's count of free descriptors is exact: the masked
-- difference does not wrap round.
pub tx_avail-eq_of_valid :
    {ring : TxRing}
    → IsValid ring
    → tx_avail ring.clean_idx ring.cpu_idx + used ring.clean_idx ring.cpu_idx ≡ 112
tx_avail-eq_of_valid v = omega arith

-- The loops of the scatter-gather path and of the cleaning leave these indices alone.
abbrev SameIndices : TxRing → TxRing → Type 0
SameIndices r r' = (r'.cpu_idx ≡ r.cpu_idx) × (r'.clean_idx ≡ r.clean_idx)

clear_slots-SameIndices : (f i n : ℕ) (r : TxRing) → SameIndices r (clear_slots f i n r)
unfolding clear_slots
clear_slots-SameIndices f i zero r = (refl, refl)
clear_slots-SameIndices f i (suc n) r = clear_slots-SameIndices f (i + 1) n _

tx_unwind_sg-SameIndices :
    (f : ℕ) (info2 : Array ℕ) (i n : ℕ) (r : TxRing) (log : List Event)
    → SameIndices r (tx_unwind_sg f info2 i n r log).0
unfolding tx_unwind_sg
tx_unwind_sg-SameIndices f info2 i zero r log = (refl, refl)
tx_unwind_sg-SameIndices f info2 i (suc n) r log = tx_unwind_sg-SameIndices f info2 (i + 1) n _ _

abbrev loop_ring : Loop → TxRing
loop_ring (all_mapped g) = g.ring
loop_ring (map_failed g) = g.ring

gather_frag-SameIndices :
    (seg off didx dma len txinfo : ℕ) (last : Bool) (g : Gathered)
    → SameIndices g.ring (gather_frag seg off didx dma len txinfo last g).ring
unfolding gather_frag
gather_frag-SameIndices seg off didx dma len txinfo last g = ground arith

gather_frags-SameIndices :
    (fm : ℕ → Option ℕ) (f t fidx : ℕ) (frags : List ℕ) (g : Gathered)
    → SameIndices g.ring (loop_ring (gather_frags fm f t fidx frags g))
unfolding gather_frags
gather_frags-SameIndices fm f t fidx [] g = (refl, refl)
gather_frags-SameIndices fm f t fidx (size ∷ frags) g = elim (Option-cases (fm fidx)) [
  | inl e ↦ rw (e, gather_frags) (refl, refl)
  | inr (dma, e) ↦ ground (
    arith,
    e,
    gather_frags-SameIndices fm f t (fidx + 1) frags (frag_done dma),
    gather_frag-SameIndices (fidx + 1) ((fidx + 1) / 2) (ring_and (f + (fidx + 1) / 2)) dma
        (u16 size) t (length frags == 0) g,
  )
]
  where
    frag_done : ℕ → Gathered
    frag_done dma =
        gather_frag (fidx + 1) ((fidx + 1) / 2) (ring_and (f + (fidx + 1) / 2)) dma (u16 size) t
          (length frags == 0) g

gather_finish-IsValid :
    (k : TxKernel) (skb : Skb) (n : ℕ) (s : TxState) (l : Loop)
    → IsValid s.ring
    → n ≤ tx_avail s.ring.clean_idx s.ring.cpu_idx
    → SameIndices s.ring (loop_ring l)
    → IsValid (gather_finish k skb n s l).1.ring
unfolding gather_finish
gather_finish-IsValid k skb n s (all_mapped g) v a e = ground arith
gather_finish-IsValid k skb n s (map_failed g) v a e =
    ground (arith, tx_unwind_sg-SameIndices s.ring.cpu_idx g.info2 0 n g.ring g.log)

gather_loop-SameIndices :
    (k : TxKernel) (skb : Skb) (frags : List ℕ) (n t dma : ℕ) (s : TxState)
    → SameIndices s.ring (
        loop_ring (
          gather_frags (k.skb_frag_dma_map skb) s.ring.cpu_idx t 0 frags (
            gather_head dma
              (u16 (skb_headlen skb))
              t
              (clear_slots s.ring.cpu_idx 0 n s.ring)
              s.log)))
unfolding gather_head
gather_loop-SameIndices k skb frags n t dma s = ground (
  arith,
  clear_slots-SameIndices s.ring.cpu_idx 0 n s.ring,
  gather_frags-SameIndices (k.skb_frag_dma_map skb) s.ring.cpu_idx t 0 frags
      (gather_head dma (u16 (skb_headlen skb)) t (clear_slots s.ring.cpu_idx 0 n s.ring) s.log),
)

gather-IsValid :
    (k : TxKernel) (skb : Skb) (frags : List ℕ) (n t : ℕ) (s : TxState)
    → IsValid s.ring
    → n ≤ tx_avail s.ring.clean_idx s.ring.cpu_idx
    → IsValid (gather k skb frags n t s).1.ring
unfolding gather
gather-IsValid k skb frags n t s v a = elim (Option-cases (k.dma_map_single skb)) [
  | inl e ↦ rw (e, gather) (ground (arith, clear_slots-SameIndices s.ring.cpu_idx 0 n s.ring))
  | inr (dma, e) ↦
      rw (e, gather)
        (gather_finish-IsValid k skb n s _ v a (gather_loop-SameIndices k skb frags n t dma s))
]

module _ (k : TxKernel) (soc : TxSoc) (q : ℕ) where
  linear_prepared-IsValid :
      (port id : ℕ) (p : Prepared) (s : TxState)
      → IsValid s.ring
      → 0 < tx_avail s.ring.clean_idx s.ring.cpu_idx
      → IsValid (linear_prepared k soc q port id p s).1.ring
  unfolding linear_prepared
  linear_prepared-IsValid port id (no_memory v) s h a = ground arith
  linear_prepared-IsValid port id (prepared skb txinfo v) s h a = ground arith

  -- Whatever the kernel answers, sending keeps the ring within its bounds.
  pub tx_xmit_linear-IsValid :
      (skb : Skb) (s : TxState) → IsValid s.ring → IsValid (tx_xmit_linear k soc q skb s).1.ring
  unfolding tx_xmit_linear
  tx_xmit_linear-IsValid skb s h =
      elim (Bool-cases (ltb (tx_avail s.ring.clean_idx s.ring.cpu_idx) 1)) [
        | inl full ↦ rw full (ground arith)
        | inr free ↦
            rw free
              (linear_prepared-IsValid _ _ (tx_prepare_vlan k soc skb 0 s.vlan) s h (ground arith))
      ]

  gather_prepared-IsValid :
      (port id : ℕ) (frags : List ℕ) (n : ℕ) (p : Prepared) (s : TxState)
      → IsValid s.ring
      → n ≤ tx_avail s.ring.clean_idx s.ring.cpu_idx
      → IsValid (gather_prepared k soc q port id frags n p s).1.ring
  unfolding gather_prepared
  gather_prepared-IsValid port id frags n (no_memory v) s h a = ground arith
  gather_prepared-IsValid port id frags n (prepared skb txinfo v) s h a =
      elim (Option-cases (k.skb_put_padto skb)) [
        | inl e ↦ rw (e, gather_prepared) (ground arith)
        | inr (padded, e) ↦
            rw (e, gather_prepared) (gather-IsValid k padded frags n _ (record s { vlan = v }) h a)
      ]

  -- The same of a packet in fragments, also when a mapping fails half way.
  pub tx_xmit_sg-IsValid :
      (skb : Skb) (s : TxState) → IsValid s.ring → IsValid (tx_xmit_sg k soc q skb s).1.ring
  unfolding tx_xmit_sg
  tx_xmit_sg-IsValid skb s h =
      elim (Bool-cases (ltb (tx_avail s.ring.clean_idx s.ring.cpu_idx) (needed_descs skb))) [
        | inl full ↦ rw full (ground arith)
        | inr free ↦ rw free (
            gather_prepared-IsValid _ _ skb.frags (needed_descs skb)
              (tx_prepare_vlan k soc skb 0 s.vlan) s h (ground arith))
      ]
