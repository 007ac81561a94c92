-- ===== src/Nic/Frames.antt =====
-- What the parts of an open and of a stop leave alone (drivers/net/ethernet/ralink/ralink_fe.c).
use ralink_fe.Base.{
  bit_and, update, ◌==◌, arith, Bool-cases, update_self, update_ne, ℕ, zero, suc, ◌+◌, ◌<◌, ◌≤◌,
  ◌≡◌, refl, ap, sym, ◌∙◌, inl, inr,
}
use ralink_fe.Base.Field.{genmask, field_get, field_get-drop, u32_not}
use ralink_fe.Mmio.{Regs, r32, w32}
use ralink_fe.Vlan.{VlanCache}
use ralink_fe.Tx.{TxRing}
use ralink_fe.Tx.Reset.{tx_ring_reset}
use ralink_fe.Tx.Empty.{IsReset, tx_ring_reset-IsReset}
use ralink_fe.Tx.Send.{queue, Device}
use ralink_fe.Rx.{rx_release_ring}
use ralink_fe.Rx.Pages.{IsFilled}
use ralink_fe.Rx.Fill.{rx_release_ring_lem, IsEmpty, ready-IsFilled}
use ralink_fe.Hw.Setup.{dma_enable, dma_disable}
use ralink_fe.Nic.Soc.{
  SocData, RegMap, Compatible, match_data, rt2880, rt305x, rt3883, rt5350, mt7620, mt76x8,
}
use ralink_fe.Nic.State.{Nic, OpenKernel, regs_of}
use ralink_fe.Nic.Open.{
  release_tx_rings, release_rx_rings, rings_release, program_tx, program_rx, for_queues,
  program_rings, stop_dma, start_dma,
}

-- The two enable bits of the control register of the DMA.
abbrev pub glo_bits : ℕ → ℕ × ℕ
glo_bits glo_cfg = (field_get (genmask 2 2) glo_cfg, field_get (genmask 0 0) glo_cfg)

-- Whether the receive and the transmit DMA are enabled.
unfoldable pub dma_bits : Compatible → Regs → ℕ × ℕ
dma_bits c regs = glo_bits (r32 regs (match_data c).reg_map.glo_cfg)

module _ {F T C : Type 0} where
  abbrev pub dma_on : Compatible → Nic F T C → ℕ × ℕ
  dma_on c s = dma_bits c (regs_of s)

  release_tx_rings-rest :
      (q n : ℕ) (s : Nic F T C)
      → release_tx_rings q n s ≡ record s { tx = (release_tx_rings q n s).tx }
  unfolding release_tx_rings
  release_tx_rings-rest q zero s = refl
  release_tx_rings-rest q (suc n) s = release_tx_rings-rest (q + 1) n _

  release_tx_rings-vlan : (q n : ℕ) (s : Nic F T C) → (release_tx_rings q n s).tx.vlan ≡ s.tx.vlan
  unfolding release_tx_rings tx_ring_reset
  release_tx_rings-vlan q zero s = refl
  release_tx_rings-vlan q (suc n) s = release_tx_rings-vlan (q + 1) n _

  release_rx_rings-rest :
      (q n : ℕ) (s : Nic F T C)
      → release_rx_rings q n s ≡ record s { rx_ring = (release_rx_rings q n s).rx_ring }
  unfolding release_rx_rings
  release_rx_rings-rest q zero s = refl
  release_rx_rings-rest q (suc n) s = release_rx_rings-rest (q + 1) n _

  release_rx_rings-before :
      (q n j : ℕ) (s : Nic F T C) → j < q → (release_rx_rings q n s).rx_ring j ≡ s.rx_ring j
  unfolding release_rx_rings
  release_rx_rings-before q zero j s h = refl
  release_rx_rings-before q (suc n) j s h =
      release_rx_rings-before (q + 1) n j _ (omega arith)
      ∙ update_ne s.rx_ring q _ j (λ e. omega (arith, e))

  release_rx_rings-IsEmpty :
      (q n j : ℕ) (s : Nic F T C) → q ≤ j → j < q + n → IsEmpty ((release_rx_rings q n s).rx_ring j)
  unfolding release_rx_rings
  release_rx_rings-IsEmpty q zero j s h b = absurd (omega arith)
  release_rx_rings-IsEmpty q (suc n) j s h b = elim (Bool-cases (q == j)) [
    | inr e ↦ release_rx_rings-IsEmpty (q + 1) n j _ (ground arith) (omega arith)
    | inl e ↦
        let same : j ≡ q = ground arith in
        rw
          (
            same,
            release_rx_rings-before (q + 1) n q
                (record s { rx_ring = update s.rx_ring q (rx_release_ring (s.rx_ring q)) })
                (omega arith),
            update_self,
          )
          ((rx_release_ring_lem (s.rx_ring q)).0)
  ]

  release_tx_rings-IsReset :
      (q n j : ℕ) (s : Nic F T C)
      → ((i : ℕ) → i < q → IsReset (s.tx.tx_ring i))
      → j < q + n
      → IsReset ((release_tx_rings q n s).tx.tx_ring j)
  unfolding release_tx_rings
  release_tx_rings-IsReset q zero j s h b = h j (omega arith)
  release_tx_rings-IsReset q (suc n) j s h b =
      let one : TxRing = (tx_ring_reset (queue q s.tx)).ring in
      release_tx_rings-IsReset (q + 1) n j _
        (λ i l. elim (Bool-cases (q == i)) [
          | inl e ↦
              let same : i ≡ q = ground arith in
              rw (same, update_self) (tx_ring_reset-IsReset (queue q s.tx))
          | inr e ↦ rw (update_ne s.tx.tx_ring q one i (λ x. ground arith)) (h i (ground arith))
        ])
        (omega arith)

  -- A release empties every receive ring, and leaves the registers and all else but the rings.
  pub rings_release-IsEmpty :
      (soc : SocData) (s : Nic F T C) (q : ℕ)
      → q < soc.rxqs
      → IsEmpty ((rings_release soc s).rx_ring q)
  unfolding rings_release
  rings_release-IsEmpty soc s q b =
      release_rx_rings-IsEmpty 0 soc.rxqs q _ (omega arith) (omega arith)

  pub rings_release-rest :
      (soc : SocData) (s : Nic F T C)
      → let t = rings_release soc s in
        (t.tx.vlan ≡ s.tx.vlan) × (t ≡ record s { tx = t.tx; rx_ring = t.rx_ring })
  unfolding rings_release
  rings_release-rest soc s =
      let r : Nic F T C = release_tx_rings 0 soc.txqs s in
      let t : Nic F T C = release_rx_rings 0 soc.rxqs r in
      let only_rx : t ≡ record r { rx_ring = t.rx_ring } = release_rx_rings-rest 0 soc.rxqs r in
      let only_tx : r ≡ record s { tx = r.tx } = release_tx_rings-rest 0 soc.txqs s in
      let with_rx : Nic F T C → Nic F T C = λ u. record u { rx_ring = t.rx_ring } in
      let with_tx : Device → Nic F T C = λ x. record s { tx = x; rx_ring = t.rx_ring } in
      let tx_of : Nic F T C → Device = λ u. u.tx in
      let vlan_of : Nic F T C → VlanCache = λ u. u.tx.vlan in
      (
        ap vlan_of only_rx ∙ release_tx_rings-vlan 0 soc.txqs s,
        only_rx ∙ (ap with_rx only_tx ∙ ap with_tx (sym (ap tx_of only_rx))),
      )

  -- And it takes every buffer and every descriptor out of the transmit rings.
  pub rings_release-IsReset :
      (soc : SocData) (s : Nic F T C) (q : ℕ)
      → q < soc.txqs
      → IsReset ((rings_release soc s).tx.tx_ring q)
  unfolding rings_release
  rings_release-IsReset soc s q b =
      let r : Nic F T C = release_tx_rings 0 soc.txqs s in
      rw (ap (λ (t : Nic F T C). t.tx.tx_ring q) (release_rx_rings-rest 0 soc.rxqs r))
        (release_tx_rings-IsReset 0 soc.txqs q s (λ i l. absurd (omega arith)) (omega arith))

  pub for_queues_keeps :
      (P : Nic F T C → Type 0) (f : ℕ → Nic F T C → Nic F T C) (q n : ℕ) (s : Nic F T C)
      → ((i : ℕ) (t : Nic F T C) → P t → P (f i t))
      → P s
      → P (for_queues f q n s)
  for_queues_keeps P f q zero s k h = h
  for_queues_keeps P f q (suc n) s k h = for_queues_keeps P f (q + 1) n (f q s) k (k q s h)

  abbrev pub AreFilled : ℕ → Nic F T C → Type 0
  AreFilled rxqs s = (q : ℕ) → q < rxqs → IsFilled (s.rx_ring q)

  program_rx-AreFilled :
      (rxqs : ℕ) (pdma : RegMap) (i : ℕ) (s : Nic F T C)
      → AreFilled rxqs s
      → AreFilled rxqs (program_rx pdma i s)
  unfolding program_rx
  program_rx-AreFilled rxqs pdma i s v q b = elim (Bool-cases (i == q)) [
    | inl e ↦
        let same : i ≡ q = ground arith in
        rw (same, update_self) (ready-IsFilled (s.rx_ring q) (v q b))
    | inr e ↦ rw (update_ne s.rx_ring i _ q (λ h. ground arith)) (v q b)
  ]

  pub program_rings-AreFilled :
      (rxqs : ℕ) (soc : SocData) (s : Nic F T C)
      → AreFilled rxqs s
      → AreFilled rxqs (program_rings soc s)
  unfolding program_rings
  program_rings-AreFilled rxqs soc s v =
      for_queues_keeps (AreFilled rxqs) (program_rx soc.reg_map) 0 soc.rxqs _
        (λ i t. program_rx-AreFilled rxqs soc.reg_map i t)
        (for_queues_keeps (AreFilled rxqs) (program_tx soc.reg_map) 0 soc.txqs s
          (λ i t h. unfold program_tx in h) v)

  pub start_dma-dma_on : (c : Compatible) (s : Nic F T C) → dma_on c (start_dma c s) ≡ (1, 1)
  unfolding dma_bits dma_enable match_data r32 w32 field_get
  start_dma-dma_on rt2880 s = refl
  start_dma-dma_on rt305x s = refl
  start_dma-dma_on rt3883 s = refl
  start_dma-dma_on rt5350 s = refl
  start_dma-dma_on mt7620 s = refl
  start_dma-dma_on mt76x8 s = refl

  pub stop_dma-dma_on :
      (k : OpenKernel) (c : Compatible) (s : Nic F T C) → dma_on c (stop_dma k c s) ≡ (0, 0)
  unfolding dma_bits dma_disable r32 w32
  stop_dma-dma_on k c s =
      let old : ℕ = regs_of s (match_data c).reg_map.glo_cfg in
      rw update_self (
        unfold field_get in
        ap (λ (x : ℕ). (x, field_get (genmask 0 0) (bit_and old (u32_not 5))))
          (field_get-drop (genmask 2 2) old (u32_not 5) refl)
        ∙ ap (λ (y : ℕ). (0, y)) (field_get-drop (genmask 0 0) old (u32_not 5) refl))

  pub rings_release-dma_on :
      (c : Compatible) (s : Nic F T C) → dma_on c (rings_release (match_data c) s) ≡ dma_on c s
  rings_release-dma_on c s =
      ap (λ (v : VlanCache). dma_bits c v.regs) (rings_release-rest (match_data c) s).0
