-- ===== src/Nic/Down.antt =====
-- What `ralink_fe_stop` and the labels of `ralink_fe_open` (drivers/net/ethernet/ralink/ralink_fe.c) leave: a
-- device with its DMA, polls and interrupts off and its rings empty.
use ralink_fe.Base.{bit_and, not, ◌≡◌, refl, ap, sym, ◌∙◌, true, false}
use ralink_fe.Hw.Setup.{dma_wait, dma_disable}
use ralink_fe.Engine.{run}
use ralink_fe.Nic.Soc.{Compatible, match_data}
use ralink_fe.Nic.State.{Nic, OpenKernel}
use ralink_fe.Nic.Open.{rings_release, dsa_metadata_free, back_down, stop_dma}
use ralink_fe.Nic.Frames.{
  rings_release-IsEmpty, rings_release-IsReset, rings_release-rest, stop_dma-dma_on,
  rings_release-dma_on,
}
use ralink_fe.Nic.Life.{IsUnmarked, IsIdle, IsDown, IsApart}
use ralink_fe.Nic.Rings.{freed-unmarked}

module _ {F T C : Type 0} (c : Compatible) where
  pub IsApart-others : (s t : Nic F T C) → t.ppe ≡ s.ppe → IsApart c s → IsApart c t
  IsApart-others s t p a = record {
    starts = λ core ops f e h. a.starts core ops f e (sym p ∙ h);
    stops = λ core ops f e h. a.stops core ops f e (sym p ∙ h);
  }

  released-IsIdle : (s : Nic F T C) → IsIdle c s → IsIdle c (rings_release (match_data c) s)
  released-IsIdle s idle =
      let rest = (rings_release-rest (match_data c) s).1 in
      record {
        halted = rings_release-dma_on c s ∙ idle.halted;
        settled = ap (λ (t : Nic F T C). t.dma_busy) rest ∙ idle.settled;
        masked = ap (λ (t : Nic F T C). bit_and t.irq.int_enable t.irq_mask_all) rest ∙ idle.masked;
        tx_unpolled = ap (λ (t : Nic F T C). t.napi_tx) rest ∙ idle.tx_unpolled;
        rx_unpolled = ap (λ (t : Nic F T C). t.napi_rx) rest ∙ idle.rx_unpolled;
        unlinked = ap (λ (t : Nic F T C). t.link) rest ∙ idle.unlinked;
        silent = ap (λ (t : Nic F T C). t.queues) rest ∙ idle.silent;
      }

  pub released-IsDown :
      (s : Nic F T C) → IsIdle c s → IsUnmarked c s → IsDown c (rings_release (match_data c) s)
  released-IsDown s idle meta = record {
    idle = released-IsIdle s idle;
    emptied = rings_release-IsEmpty (match_data c) s;
    drained = rings_release-IsReset (match_data c) s;
    unmarked = λ i b.
        ap (λ (t : Nic F T C). t.dsa_meta i) (rings_release-rest (match_data c) s).1 ∙ meta i b;
  }

  pub back_down-IsDown :
      (k : OpenKernel) (s : Nic F T C)
      → dma_wait k.dma_looks ≡ true
      → bit_and s.irq.int_enable s.irq_mask_all ≡ 0
      → s.link ≡ false
      → s.queues ≡ false
      → IsDown c (run (back_down k c) s)
  unfolding dma_disable
  back_down-IsDown k s w masked link queues =
      let freed : Nic F T C = record s { dsa_meta = dsa_metadata_free s.dsa_meta } in
      let quiet : Nic F T C = record (stop_dma k c freed) { napi_tx = false; napi_rx = false } in
      released-IsDown quiet
        (record {
          halted = stop_dma-dma_on k c freed;
          settled = ap not w;
          masked = masked;
          tx_unpolled = refl;
          rx_unpolled = refl;
          unlinked = link;
          silent = queues;
        })
        (freed-unmarked s.dsa_meta)
