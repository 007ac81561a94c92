-- ===== src/Nic/BringUp.antt =====
-- What the middle of an open sets and what it leaves alone (drivers/net/ethernet/ralink/ralink_fe.c).
use ralink_fe.Base.{Array, Option-cases}
use ralink_fe.Base.{ℕ, ◌≡◌, refl, ap, inl, inr, Bool, true, Option, none, some}
use ralink_fe.Mmio.{r32}
use ralink_fe.Flow.{Errno}
use ralink_fe.Engine.{Engine, run}
use ralink_fe.Engine.Core.{Core, PpeOps, ppe_start}
use ralink_fe.Nic.Soc.{SocData, Compatible, match_data}
use ralink_fe.Nic.State.{Nic, OpenKernel, regs_of, engine_sees}
use ralink_fe.Nic.Open.{
  program_tx, program_rx, program_rings, setup_delay, prepare, bring_up, keep_started, start_core,
}
use ralink_fe.Nic.Frames.{
  glo_bits, dma_on, dma_bits, for_queues_keeps, AreFilled, program_rings-AreFilled,
  start_dma-dma_on,
}

abbrev pub Others : (F T C : Type 0) → Type 0
Others F T C = Option (Core F T C) × Array Bool × Bool × Bool × ℕ × ℕ

module _ {F T C : Type 0} where
  -- What the steps of an open between the rings and the engine leave alone.
  abbrev pub others : Nic F T C → Others F T C
  others s = (s.ppe, s.dsa_meta, s.link, s.queues, s.irq_mask_all, s.irq.int_enable)

  program_rings-others : (soc : SocData) (s : Nic F T C) → others (program_rings soc s) ≡ others s
  unfolding program_rings
  program_rings-others soc s =
      for_queues_keeps (λ t. others t ≡ others s) (program_rx soc.reg_map) 0 soc.rxqs _
        (λ i t h. unfold program_rx in h)
        (for_queues_keeps (λ t. others t ≡ others s) (program_tx soc.reg_map) 0 soc.txqs s
          (λ i t h. unfold program_tx in h) refl)

  pub bring_up-others :
      (k : OpenKernel) (c : Compatible) (s : Nic F T C) → others (bring_up k c s) ≡ others s
  unfolding setup_delay
  bring_up-others k c s = program_rings-others (match_data c) _

  pub bring_up-AreFilled :
      (k : OpenKernel) (c : Compatible) (s : Nic F T C)
      → AreFilled (match_data c).rxqs s
      → AreFilled (match_data c).rxqs (bring_up k c s)
  unfolding setup_delay
  bring_up-AreFilled k c s v = program_rings-AreFilled (match_data c).rxqs (match_data c) _ v

  pub bring_up-on :
      (k : OpenKernel) (c : Compatible) (s : Nic F T C)
      → let t = bring_up k c s in
        (dma_on c t ≡ (1, 1)) × (t.napi_tx ≡ true) × (t.napi_rx ≡ true) × (t.irq.irq_mask ≡ 0)
  unfolding setup_delay
  bring_up-on k c s = (start_dma-dma_on c (run (prepare k c) s), refl, refl, refl)

  keep_started-rest :
      (r : Option Errno × Option (Core F T C)) (s : Nic F T C)
      → let t = (keep_started r s).1 in t ≡ record s { tx = t.tx; ppe = t.ppe }
  unfolding keep_started
  keep_started-rest (e, none) s = refl
  keep_started-rest (e, some core) s = refl

  pub start_core-rest :
      (o : Option (Core F T C)) (s : Nic F T C)
      → let t = (start_core o s).1 in t ≡ record s { tx = t.tx; ppe = t.ppe }
  unfolding start_core
  start_core-rest none s = refl
  start_core-rest (some core) s = keep_started-rest _ s

  pub start_core-dma_on :
      (c : Compatible) (o : Option (Core F T C)) (s : Nic F T C)
      → ((core : Core F T C) (ops : PpeOps F T C) (f : Engine F T C → Option Errno × Engine F T C)
            (e : Engine F T C)
          → o ≡ some core
          → core.ops ≡ some ops
          → ops.start ≡ some f
          → r32 (f e).1.regs (match_data c).reg_map.glo_cfg
            ≡ r32 e.regs (match_data c).reg_map.glo_cfg)
      → dma_on c (start_core o s).1 ≡ dma_on c s
  unfolding start_core ppe_start keep_started
  start_core-dma_on c none s a = refl
  start_core-dma_on c (some core) s a = elim (Option-cases core.ops) [
    | inl e ↦ simp e refl
    | inr (ops, e) ↦ elim (Option-cases ops.start) [
      | inl e' ↦ simp (e, e') refl
      | inr (f, e') ↦
          simp (e, e')
            (unfold dma_bits in
              ap glo_bits (a core ops f (engine_sees (regs_of s) core).engine refl e e'))
    ]
  ]
