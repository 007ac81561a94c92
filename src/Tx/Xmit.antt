-- ===== src/Tx/Xmit.antt =====
-- `ralink_fe_tx_prepare_vlan`, the fourth descriptor word, and `ralink_fe_tx_xmit_linear` of
-- drivers/net/ethernet/ralink/ralink_fe.c.
use ralink_fe.Base.{update, ltb, ◌==◌, ◌!=◌, if◌then◌else◌, bit_and, bit_or}
use ralink_fe.Base.{
  ℕ, ◌+◌, ◌-◌, ◌/◌, ◌^◌, Bool, not, ◌||◌, ◌&&◌, Option, none, some, List, ◌∷◌, ◌++◌,
}
use ralink_fe.Base.Field.{Field, genmask, bit, field_prep}
use ralink_fe.Vlan.{VlanCache, vlan_cache_alloc, vlan_vid_mask}
use ralink_fe.Tx.{
  Skb, skb_headlen, Event, TxState, Status, tx_ok, tx_busy, Tx4Port, none_port, pnqn, fp, TxKernel,
  TxSoc, tx_avail, txq_drop, txq_error, ring_and, u16, u32, tx2_dma_sdl0, tx2_dma_ls0, kfree_skb,
  map_single, sent_queue, doorbell,
}

abbrev pub tx4_dma_ico : ℕ
tx4_dma_ico = bit 31

abbrev pub tx4_dma_uco : ℕ
tx4_dma_uco = bit 30

abbrev pub tx4_dma_tco : ℕ
tx4_dma_tco = bit 29

abbrev pub tx4_dma_pn : Field
tx4_dma_pn = genmask 26 24

abbrev pub tx4_dma_qn : Field
tx4_dma_qn = genmask 18 16

abbrev pub tx4_dma_insv : ℕ
tx4_dma_insv = bit 7

abbrev pub tx4_dma_vpri : Field
tx4_dma_vpri = genmask 6 4

abbrev pub tx4_dma_vidx : Field
tx4_dma_vidx = genmask 3 0

-- TX4_DMA_FP takes MT7620_FP_BMAP.
abbrev pub mt7620_fp_bmap : Field
mt7620_fp_bmap = genmask 27 20

-- What `ralink_fe_tx_prepare_vlan` leaves: the buffer to send with the descriptor word so far, or
-- -ENOMEM.
pub data Prepared : Type 0 where
  prepared : Skb → (txinfo : ℕ) → VlanCache → Prepared
  no_memory : VlanCache → Prepared

abbrev pub is_none_port : Tx4Port → Bool
is_none_port none_port = Bool.true
is_none_port _ = Bool.false

abbrev pub is_pnqn : Tx4Port → Bool
is_pnqn pnqn = Bool.true
is_pnqn _ = Bool.false

abbrev pub is_fp : Tx4Port → Bool
is_fp fp = Bool.true
is_fp _ = Bool.false

-- The checksum and port bits that both transmit functions add to `txinfo`.
unfoldable pub tx_info4 : Tx4Port → ℕ → ℕ → Bool → ℕ → ℕ
tx_info4 tx4_port q port csum_partial txinfo =
    let pn : ℕ = if bit_and q (bit 1) != 0 then 2 else 1 in
    let qn : ℕ = if bit_and q (bit 0) != 0 then 3 else 2 in
    let t1 : ℕ =
      if csum_partial
      then bit_or txinfo (bit_or (bit_or tx4_dma_ico tx4_dma_uco) tx4_dma_tco)
      else txinfo in
    let t2 : ℕ =
      if is_pnqn tx4_port
      then bit_or t1 (bit_or (field_prep tx4_dma_pn pn) (field_prep tx4_dma_qn qn))
      else t1 in
    if is_fp tx4_port then bit_or t2 (field_prep mt7620_fp_bmap (bit port)) else t2

-- The label `err_drop` of both transmit functions.
unfoldable pub err_drop : ℕ → TxState → Status × TxState
unfolding txq_drop txq_error
err_drop id s = (tx_ok, record s { ring = txq_error (txq_drop s.ring); log = kfree_skb id ∷ s.log })

-- `if (unlikely(avail < needed))`: the queue stops and the packet stays with the stack.
unfoldable pub ring_is_full : TxState → Status × TxState
ring_is_full s = (
  tx_busy,
  record s {
    ring = record (s.ring) { ring_full = u32 (s.ring.ring_full + 1) };
    stopped = Bool.true;
  },
)

-- The end of both transmit functions: the index moves on, the stack is told, and the hardware
-- too, unless more packets follow at once.
unfoldable pub ring_advance : TxKernel → ℕ → Skb → TxState → Status × TxState
ring_advance k needed_desc skb s =
    let new_cpu : ℕ = ring_and (s.ring.cpu_idx + needed_desc) in
    let log' : List Event = sent_queue skb.len ∷ s.log in
    (
      tx_ok,
      record s {
        ring = record (s.ring) { cpu_idx = new_cpu };
        log = if not k.xmit_more || k.xmit_stopped then doorbell new_cpu ∷ log' else log';
      },
    )

-- The cached slot, or the one that `ralink_fe_vlan_cache_alloc` gives where the descriptor has a
-- word for it.
unfoldable pub vlan_slot : TxSoc → VlanCache → ℕ → ℕ × VlanCache
vlan_slot soc v vid =
    if (v.vlan_idx vid == 0) && not (is_none_port soc.tx4_port)
    then vlan_cache_alloc soc.vlan_id_base v vid
    else (v.vlan_idx vid, v)

module _ (k : TxKernel) (soc : TxSoc) where
  -- `ralink_fe_tx_prepare_vlan`; `tci` is the tag, if there is one.
  unfoldable pub prepare_tag : Option ℕ → Skb → ℕ → VlanCache → Prepared
  unfolding vlan_slot
  prepare_tag none skb txinfo v = prepared skb txinfo v
  prepare_tag (some tci) skb txinfo v =
      let (vidx, v') = vlan_slot soc v (bit_and tci vlan_vid_mask) in
      if vidx != 0
      then prepared skb
          (bit_or txinfo (
            bit_or (bit_or tx4_dma_insv (field_prep tx4_dma_vpri (tci / 2 ^ 13)))
              (field_prep tx4_dma_vidx (vidx - 1))))
          v'
      else elim (k.vlan_hwaccel_push_inside skb) [
        | none ↦ no_memory v'
        | some skb' ↦ prepared skb' txinfo v'
      ]

  unfoldable pub tx_prepare_vlan : Skb → ℕ → VlanCache → Prepared
  unfolding prepare_tag
  tx_prepare_vlan skb txinfo v = prepare_tag skb.vlan_tci skb txinfo v

  -- The tail of `ralink_fe_tx_xmit_linear`, from `dma_map_single` on.
  unfoldable pub linear_map : Skb → ℕ → TxState → Status × TxState
  unfolding err_drop ring_advance
  linear_map skb txinfo s =
      let len : ℕ = u16 (skb_headlen skb) in
      let first_desc : ℕ = s.ring.cpu_idx in
      elim (k.dma_map_single skb) [
        | none ↦ err_drop skb.id s
        | some dma ↦ ring_advance k 1 skb (record s {
          ring = record (s.ring) {
            map = update s.ring.map first_desc 0;
            skb = update s.ring.skb first_desc (some skb);
            desc = update s.ring.desc first_desc (record {
              info1 = u32 dma;
              info2 = bit_or (field_prep tx2_dma_sdl0 len) tx2_dma_ls0;
              info3 = 0;
              info4 = txinfo;
            });
          };
          log = map_single dma len ∷ s.log;
        })
      ]

  unfoldable pub linear_prepared : ℕ → ℕ → ℕ → Prepared → TxState → Status × TxState
  unfolding linear_map err_drop txq_drop tx_info4
  linear_prepared q port id (no_memory v) s =
      err_drop id (record s { vlan = v; log = k.failed_push id ++ s.log })
  linear_prepared q port id (prepared skb txinfo v) s =
      let info4 : ℕ = tx_info4 soc.tx4_port q port skb.csum_partial txinfo in
      elim (k.skb_put_padto skb) [
        | none ↦ (
          tx_ok,
          record s { ring = txq_drop s.ring; vlan = v; log = k.failed_padto skb.id ++ s.log },
        )
        | some padded ↦ linear_map padded info4 (record s { vlan = v })
      ]

  -- `ralink_fe_tx_xmit_linear`
  unfoldable pub tx_xmit_linear : ℕ → Skb → TxState → Status × TxState
  unfolding linear_prepared ring_is_full tx_prepare_vlan
  tx_xmit_linear q skb s =
      if ltb (tx_avail s.ring.clean_idx s.ring.cpu_idx) 1
      then ring_is_full s
      else linear_prepared q skb.queue_mapping skb.id (tx_prepare_vlan skb 0 s.vlan) s
