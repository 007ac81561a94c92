-- ===== src/Tx/Gather.antt =====
-- `ralink_fe_tx_xmit_sg` and `ralink_fe_tx_unwind_sg` of drivers/net/ethernet/ralink/ralink_fe.c:
-- a packet in page fragments, two segments to a descriptor. A counted loop recurs on the rounds
-- that are left, the loop over the fragments on their list.
use ralink_fe.Base.{Array, update, length, ltb, ◌==◌, if◌then◌else◌, bit_or}
use ralink_fe.Base.{ℕ, zero, suc, ◌+◌, ◌/◌, ◌%◌, Bool, Option, none, some, List, [], ◌∷◌, ◌++◌}
use ralink_fe.Base.Field.{field_prep}
use ralink_fe.Tx.{
  TxDesc, Skb, skb_headlen, Event, TxRing, TxState, Status, tx_ok, TxKernel, TxSoc, tx_avail,
  txq_drop, ring_and, u16, u32, tx2_dma_sdl0, tx2_dma_sdl1, tx2_dma_ls0, tx2_dma_ls1, tx2_dma_done,
  map0_page, map1_page, tx_unmap_desc, map_single, map_page,
}
use ralink_fe.Tx.Xmit.{
  Prepared, prepared, no_memory, tx_prepare_vlan, tx_info4, err_drop, ring_is_full, ring_advance,
}

-- The local variables of the fragment loop.
pub record Gathered : Type 0 where
  pub ring : TxRing
  pub info2 : Array ℕ
  pub last_didx : ℕ
  pub log : List Event

-- `for (i = 0; i < needed_desc; i++)` that clears the slots, from round `i` on, `n` rounds left.
-- The local `info2` is cleared beside it, by `λ _. 0`.
unfoldable pub clear_slots : ℕ → ℕ → ℕ → TxRing → TxRing
clear_slots first_desc i zero ring = ring
clear_slots first_desc i (suc n) ring = clear_slots first_desc (i + 1) n (record ring {
  map = update ring.map (ring_and (first_desc + i)) 0;
  skb = update ring.skb (ring_and (first_desc + i)) none;
})

-- The head of the packet in the first descriptor, mapped at `dma`.
unfoldable pub gather_head : ℕ → ℕ → ℕ → TxRing → List Event → Gathered
gather_head dma len txinfo ring log = record {
  ring = record ring {
    desc =
        update ring.desc ring.cpu_idx
          (record (ring.desc ring.cpu_idx) { info1 = u32 dma; info3 = 0; info4 = txinfo });
  };
  info2 = update (λ _. 0) 0 (field_prep tx2_dma_sdl0 len);
  last_didx = ring.cpu_idx;
  log = map_single dma len ∷ log;
}

-- The body of the fragment loop after a mapping that worked: segment `seg` of length `len` at
-- `dma`, in descriptor `didx`, which is the packet's number `didx_off`.
unfoldable pub gather_frag : ℕ → ℕ → ℕ → ℕ → ℕ → ℕ → Bool → Gathered → Gathered
gather_frag seg didx_off didx dma len txinfo last g =
    let ring = g.ring in
    let d : TxDesc = ring.desc didx in
    let log' : List Event = map_page dma len ∷ g.log in
    let last' : ℕ = if last then didx else g.last_didx in
    if seg % 2 == 1
    then record {
      ring = record ring {
        map = update ring.map didx (bit_or (ring.map didx) map1_page);
        desc = update ring.desc didx (record d { info3 = u32 dma; info4 = txinfo });
      };
      info2 = update g.info2 didx_off (
          let word : ℕ = bit_or (g.info2 didx_off) (field_prep tx2_dma_sdl1 len) in
          if last then bit_or word tx2_dma_ls1 else word);
      last_didx = last';
      log = log';
    }
    else record {
      ring = record ring {
        map = update ring.map didx (bit_or (ring.map didx) map0_page);
        desc = update ring.desc didx (record d { info1 = u32 dma; info4 = txinfo });
      };
      info2 = update g.info2 didx_off (
          let word : ℕ = bit_or (g.info2 didx_off) (field_prep tx2_dma_sdl0 len) in
          if last then bit_or word tx2_dma_ls0 else word);
      last_didx = last';
      log = log';
    }

-- The result of the fragment loop; the flag says whether every fragment was mapped.
pub data Loop : Type 0 where
  all_mapped : Gathered → Loop
  map_failed : Gathered → Loop

unfoldable pub gather_frags : (ℕ → Option ℕ) → ℕ → ℕ → ℕ → List ℕ → Gathered → Loop
gather_frags frag_map first_desc txinfo fidx [] g = all_mapped g
gather_frags frag_map first_desc txinfo fidx (size ∷ frags) g =
    let last : Bool = length frags == 0 in
    let didx_off : ℕ = (fidx + 1) / 2 in
    let didx : ℕ = ring_and (first_desc + didx_off) in
    elim (frag_map fidx) [
      | none ↦ map_failed g
      | some dma ↦
          gather_frags frag_map first_desc txinfo (fidx + 1) frags
            (gather_frag (fidx + 1) didx_off didx dma (u16 size) txinfo last g)
    ]

-- The loop that hands the descriptors to the hardware.
unfoldable pub publish : ℕ → Array ℕ → ℕ → ℕ → Array TxDesc → Array TxDesc
publish first_desc info2 i zero desc = desc
publish first_desc info2 i (suc n) desc =
    let didx : ℕ = ring_and (first_desc + i) in
    publish first_desc info2 (i + 1) n (update desc didx (record (desc didx) { info2 = info2 i }))

-- The cleared descriptor that `ralink_fe_tx_unwind_sg` and the ring's reset leave.
abbrev pub idle_desc : TxDesc
idle_desc = record { info1 = 0; info2 = tx2_dma_done; info3 = 0; info4 = 0 }

-- `ralink_fe_tx_unwind_sg`, from round `i` on, `n` rounds left.
unfoldable pub tx_unwind_sg : ℕ → Array ℕ → ℕ → ℕ → TxRing → List Event → TxRing × List Event
tx_unwind_sg first_desc info2 i zero ring log = (ring, log)
tx_unwind_sg first_desc info2 i (suc n) ring log =
    let didx : ℕ = ring_and (first_desc + i) in
    let d : TxDesc = record (ring.desc didx) { info2 = bit_or tx2_dma_done (info2 i) } in
    tx_unwind_sg first_desc info2 (i + 1) n
      (record ring {
        map = update ring.map didx 0;
        skb = update ring.skb didx none;
        desc = update ring.desc didx idle_desc;
      })
      (tx_unmap_desc d (ring.map didx) log)

-- `(segs + 1) >> 1` with `segs = 1 + nr_frags`.
abbrev pub needed_descs : Skb → ℕ
needed_descs skb = (1 + length skb.frags + 1) / 2

module _ (k : TxKernel) where
  -- After the loop: the buffer goes to the last descriptor's slot and the descriptors are handed
  -- over; or, after a failed mapping, everything is undone and the packet is dropped.
  unfoldable pub gather_finish : Skb → ℕ → TxState → Loop → Status × TxState
  unfolding publish tx_unwind_sg err_drop ring_advance
  gather_finish skb needed_desc s (all_mapped g) =
      let first_desc : ℕ = s.ring.cpu_idx in
      ring_advance k needed_desc skb (record s {
        ring = record (g.ring) {
          skb = update g.ring.skb g.last_didx (some skb);
          desc = publish first_desc g.info2 0 needed_desc g.ring.desc;
        };
        log = g.log;
      })
  gather_finish skb needed_desc s (map_failed g) =
      let (ring, log) = tx_unwind_sg s.ring.cpu_idx g.info2 0 needed_desc g.ring g.log in
      err_drop skb.id (record s { ring = ring; log = log })

  -- `frags` is the list that `shinfo` named on entry.
  unfoldable pub gather : Skb → List ℕ → ℕ → ℕ → TxState → Status × TxState
  unfolding clear_slots gather_head gather_frags gather_finish err_drop
  gather skb frags needed_desc txinfo s =
      let ring : TxRing = clear_slots s.ring.cpu_idx 0 needed_desc s.ring in
      elim (k.dma_map_single skb) [
        | none ↦ err_drop skb.id (record s { ring = ring })
        | some dma ↦ gather_finish skb needed_desc s (
            gather_frags (k.skb_frag_dma_map skb) s.ring.cpu_idx txinfo 0 frags
              (gather_head dma (u16 (skb_headlen skb)) txinfo ring s.log))
      ]

module _ (k : TxKernel) (soc : TxSoc) where
  unfoldable pub gather_prepared : ℕ → ℕ → ℕ → List ℕ → ℕ → Prepared → TxState → Status × TxState
  unfolding gather err_drop txq_drop tx_info4
  gather_prepared q port id frags needed_desc (no_memory v) s =
      err_drop id (record s { vlan = v; log = k.failed_push id ++ s.log })
  gather_prepared q port id frags needed_desc (prepared skb txinfo v) s =
      let info4 : ℕ = tx_info4 soc.tx4_port q port skb.csum_partial txinfo in
      elim (k.skb_put_padto skb) [
        | none ↦ (
          tx_ok,
          record s { ring = txq_drop s.ring; vlan = v; log = k.failed_padto skb.id ++ s.log },
        )
        | some padded ↦ gather k padded frags needed_desc info4 (record s { vlan = v })
      ]

  -- `ralink_fe_tx_xmit_sg`
  unfoldable pub tx_xmit_sg : ℕ → Skb → TxState → Status × TxState
  unfolding gather_prepared ring_is_full tx_prepare_vlan
  tx_xmit_sg q skb s =
      if ltb (tx_avail s.ring.clean_idx s.ring.cpu_idx) (needed_descs skb)
      then ring_is_full s
      else gather_prepared q skb.queue_mapping skb.id skb.frags (needed_descs skb)
          (tx_prepare_vlan k soc skb 0 s.vlan) s
