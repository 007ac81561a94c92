-- ===== src/Nic/Life.antt =====
-- When a device of drivers/net/ethernet/ralink/ralink_fe.c is up and when it is down, and what holds between the
-- steps of `ralink_fe_stop`: while the hardware may transfer, the receive rings are filled.
use ralink_fe.Base.{
  Option-cases, bit_and, not, ℕ, ◌<◌, ◌≡◌, ◌≢◌, ◌⊎◌, refl, ap, ◌∙◌, inl, inr, true, false, Option,
  none, some,
}
use ralink_fe.Tx.Empty.{IsReset}
use ralink_fe.Hw.Setup.{dma_wait, dma_disable}
use ralink_fe.Mmio.{Regs, r32}
use ralink_fe.Flow.{Errno}
use ralink_fe.Rx.Fill.{IsEmpty}
use ralink_fe.Rx.Poll.{irq_disable}
use ralink_fe.Engine.{Engine, states, All}
use ralink_fe.Engine.Core.{Core, PpeOps, ppe_stop}
use ralink_fe.Nic.Soc.{Compatible, match_data}
use ralink_fe.Nic.State.{Nic, OpenKernel, regs_of, engine_sees}
use ralink_fe.Nic.Open.{
  dsa_metadata_free, max_dsa_ports, rings_release, stop_dma, stop_core, stop_engine, stop_steps,
}
use ralink_fe.Nic.Frames.{
  glo_bits, dma_on, dma_bits, rings_release-rest, AreFilled, stop_dma-dma_on, rings_release-dma_on,
}

module _ {F T C : Type 0} (c : Compatible) where
  -- No DMA is enabled and no transfer is on its way, no poll runs, the device's interrupts are masked, the
  -- link is down and the stack does not send.
  pub record IsIdle (s : Nic F T C) : Type 0 where
    pub halted : dma_on c s ≡ (0, 0)
    pub settled : s.dma_busy ≡ false
    pub tx_unpolled : s.napi_tx ≡ false
    pub rx_unpolled : s.napi_rx ≡ false
    pub masked : bit_and s.irq.int_enable s.irq_mask_all ≡ 0
    pub unlinked : s.link ≡ false
    pub silent : s.queues ≡ false

  abbrev pub IsUnmarked : Nic F T C → Type 0
  IsUnmarked s = (i : ℕ) → i < max_dsa_ports → s.dsa_meta i ≡ false

  -- Besides, no page of the pools, no buffer, no mapping and no metadata is held.
  pub record IsDown (s : Nic F T C) : Type 0 where
    pub idle : IsIdle s
    pub emptied : (q : ℕ) → q < (match_data c).rxqs → IsEmpty (s.rx_ring q)
    pub drained : (q : ℕ) → q < (match_data c).txqs → IsReset (s.tx.tx_ring q)
    pub unmarked : IsUnmarked s

  -- The hardware receives into full rings, and packets are polled, reported and sent.
  pub record IsUp (s : Nic F T C) : Type 0 where
    pub filled : AreFilled (match_data c).rxqs s
    pub running : dma_on c s ≡ (1, 1)
    pub tx_polled : s.napi_tx ≡ true
    pub rx_polled : s.napi_rx ≡ true
    pub enabled : s.irq.int_enable ≡ s.irq_mask_all
    pub linked : s.link ≡ true
    pub sending : s.queues ≡ true

  -- The engine's start and stop leave the control register of the DMA alone.
  pub record IsApart (s : Nic F T C) : Type 0 where
    pub starts :
        (core : Core F T C) (ops : PpeOps F T C) (f : Engine F T C → Option Errno × Engine F T C)
        (e : Engine F T C)
        → s.ppe ≡ some core
        → core.ops ≡ some ops
        → ops.start ≡ some f
        → r32 (f e).1.regs (match_data c).reg_map.glo_cfg
          ≡ r32 e.regs (match_data c).reg_map.glo_cfg
    pub stops :
        (core : Core F T C) (ops : PpeOps F T C) (f : Engine F T C → Engine F T C)
        (e : Engine F T C)
        → s.ppe ≡ some core
        → core.ops ≡ some ops
        → ops.stop ≡ some f
        → r32 (f e).regs (match_data c).reg_map.glo_cfg ≡ r32 e.regs (match_data c).reg_map.glo_cfg

  -- While a DMA is enabled or a transfer may be on its way the receive rings are filled, and so they are
  -- while they are polled.
  pub record IsGuarded (s : Nic F T C) : Type 0 where
    pub writes : dma_on c s ≢ (0, 0) → AreFilled (match_data c).rxqs s
    pub arrives : s.dma_busy ≡ true → AreFilled (match_data c).rxqs s
    pub polls : s.napi_rx ≡ true → AreFilled (match_data c).rxqs s

  idle-IsGuarded :
      (s : Nic F T C) → dma_on c s ≡ (0, 0) → s.dma_busy ≡ false → s.napi_rx ≡ false → IsGuarded s
  idle-IsGuarded s h b n = record {
    writes = λ x. absurd (x h);
    arrives = λ x. absurd cc;
    polls = λ x. absurd cc;
  }

  -- The engine has a stop, and it leaves the registers `Off`; or there is no engine.
  abbrev pub IsStoppable : (Off : Regs → Type 0) → Nic F T C → Type 0
  IsStoppable Off s =
      (s.ppe ≡ none)
      ⊎ ((core : Core F T C) × (ops : PpeOps F T C) × (f : Engine F T C → Engine F T C) × (s.ppe
            ≡ some core)
          × (core.ops ≡ some ops)
          × (ops.stop ≡ some f)
          × ((e : Engine F T C) → Off (f e).regs))

  core_stop-Off :
      (Off : Regs → Type 0) (core : Core F T C) (ops : PpeOps F T C)
      (f : Engine F T C → Engine F T C) (regs : Regs)
      → core.ops ≡ some ops
      → ops.stop ≡ some f
      → ((e : Engine F T C) → Off (f e).regs)
      → Off (ppe_stop (engine_sees regs core)).engine.regs
  unfolding ppe_stop
  core_stop-Off Off core ops f regs e e' h = simp (e, e') (h _)

  pub stop_engine-Off :
      (Off : Regs → Type 0) (s : Nic F T C)
      → IsStoppable Off s
      → (s.ppe ≡ none) ⊎ Off (regs_of (stop_engine s))
  unfolding stop_engine stop_core
  stop_engine-Off Off s (inl e) = inl e
  stop_engine-Off Off s (inr (core, ops, f, e, o, g, h)) =
      inr (rw e (core_stop-Off Off core ops f (regs_of s) o g h))

  -- The engine's stop, on a core that sees the registers.
  pub core_stop-dma_on :
      (core : Core F T C) (regs : Regs)
      → ((ops : PpeOps F T C) (f : Engine F T C → Engine F T C) (e : Engine F T C)
          → core.ops ≡ some ops
          → ops.stop ≡ some f
          → r32 (f e).regs (match_data c).reg_map.glo_cfg
            ≡ r32 e.regs (match_data c).reg_map.glo_cfg)
      → dma_bits c (ppe_stop (engine_sees regs core)).engine.regs ≡ dma_bits c regs
  unfolding ppe_stop
  core_stop-dma_on core regs a = elim (Option-cases core.ops) [
    | inl e ↦ simp e refl
    | inr (ops, e) ↦ elim (Option-cases ops.stop) [
      | inl e' ↦ simp (e, e') refl
      | inr (f, e') ↦
          simp (e, e')
            (unfold dma_bits in ap glo_bits (a ops f (engine_sees regs core).engine e e'))
    ]
  ]

  stop_core-dma_on :
      (o : Option (Core F T C)) (s : Nic F T C)
      → s.ppe ≡ o
      → IsApart s
      → dma_on c (stop_core o s) ≡ dma_on c s
  unfolding stop_core
  stop_core-dma_on none s e a = refl
  stop_core-dma_on (some core) s e a =
      core_stop-dma_on core (regs_of s) (λ ops f x. a.stops core ops f x e)

  stop_core-rest :
      (o : Option (Core F T C)) (s : Nic F T C)
      → let t = stop_core o s in t ≡ record s { tx = t.tx; ppe = t.ppe }
  unfolding stop_core
  stop_core-rest none s = refl
  stop_core-rest (some core) s = refl

  pub engine_stopped-dma_on : (s : Nic F T C) → IsApart s → dma_on c (stop_engine s) ≡ dma_on c s
  unfolding stop_engine
  engine_stopped-dma_on s a = stop_core-dma_on s.ppe s refl a

  pub stop_engine-rest :
      (s : Nic F T C) → let t = stop_engine s in t ≡ record s { tx = t.tx; ppe = t.ppe }
  unfolding stop_engine
  stop_engine-rest s = stop_core-rest s.ppe s

  -- Between the steps of a stop whose wait for the DMA does not time out, of a device with an engine that
  -- leaves the control register of the DMA alone, where the following hold before it: while the DMA is
  -- enabled in either direction, or a transfer may still be on its way, every receive ring is filled; and
  -- so they are while they are polled.
  pub stop-IsGuarded :
      (k : OpenKernel) (s : Nic F T C)
      → dma_wait k.dma_looks ≡ true
      → IsApart s
      → IsGuarded s
      → All IsGuarded (states (stop_steps k c) s)
  unfolding dma_disable
  stop-IsGuarded k s w a g =
      let s5 : Nic F T C = record s {
        link = false;
        queues = false;
        irq = irq_disable s.irq_mask_all s.irq;
        napi_tx = false;
        napi_rx = false;
      } in
      let s6 : Nic F T C = stop_dma k c s5 in
      let z6 : dma_on c s6 ≡ (0, 0) = stop_dma-dma_on k c s5 in
      let b6 : s6.dma_busy ≡ false = ap not w in
      let s7 : Nic F T C = stop_engine s6 in
      let z7 : dma_on c s7 ≡ (0, 0) =
        engine_stopped-dma_on s6 (record { starts = a.starts; stops = a.stops }) ∙ z6 in
      let b7 : s7.dma_busy ≡ false =
        ap (λ (t : Nic F T C). t.dma_busy) (stop_engine-rest s6) ∙ b6 in
      let n7 : s7.napi_rx ≡ false = ap (λ (t : Nic F T C). t.napi_rx) (stop_engine-rest s6) in
      let s8 : Nic F T C = rings_release (match_data c) s7 in
      let rest = (rings_release-rest (match_data c) s7).1 in
      let z8 : dma_on c s8 ≡ (0, 0) = rings_release-dma_on c s7 ∙ z7 in
      let b8 : s8.dma_busy ≡ false = ap (λ (t : Nic F T C). t.dma_busy) rest ∙ b7 in
      let n8 : s8.napi_rx ≡ false = ap (λ (t : Nic F T C). t.napi_rx) rest ∙ n7 in
      let s9 : Nic F T C = record s8 { dsa_meta = dsa_metadata_free s8.dsa_meta } in
      (
        g,
        (
          record { writes = g.writes; arrives = g.arrives; polls = g.polls },
          (
            record { writes = g.writes; arrives = g.arrives; polls = g.polls },
            (
              record { writes = g.writes; arrives = g.arrives; polls = g.polls },
              (
                record { writes = g.writes; arrives = g.arrives; polls = g.polls },
                (
                  record { writes = g.writes; arrives = g.arrives; polls = λ x. absurd cc },
                  (
                    idle-IsGuarded s6 z6 b6 refl,
                    (
                      idle-IsGuarded s7 z7 b7 n7,
                      (idle-IsGuarded s8 z8 b8 n8, (idle-IsGuarded s9 z8 b8 n8, tt)),
                    ),
                  ),
                ),
              ),
            ),
          ),
        ),
      )
