-- ===== src/Nic/Unwind.antt =====
-- Each step of `ralink_fe_probe` (drivers/net/ethernet/ralink/ralink_fe.c) takes what its label gives back, and
-- takes nothing where it fails; so the whole leaks nothing.
use ralink_fe.Base.{arith, Bool-cases}
use ralink_fe.Base.{ℕ, ◌≡◌, inl, inr, refl, ap, Bool, Option, none, some, []}
use ralink_fe.Flow.{Errno}
use ralink_fe.Nic.Soc.{
  SocData, Compatible, match_data, rt2880, rt305x, rt3883, rt5350, mt7620, mt76x8,
}
use ralink_fe.Nic.Open.{is_mt7620}
use ralink_fe.Nic.Probe.{
  netdev, give, Answers, Binding, note, same, deassert_reset, enable_clk, hw_init, init_queues,
  pp_create, pp_destroy, create_pools, dim_init, free_irq_moder, mdio_register, alloc_desc,
}
use ralink_fe.Nic.Attach.{
  connect_phy, create_phylink, read_port, phylink_init, phylink_cleanup, quieten, engine_init,
  init_engine, attach_engine, register, engine_cleanup, err_hw, err_napi, err_pp, err_dim,
  err_phylink, err_ppe, irq_masks, probe_engine, probe_irq, probe_phy, probe_pools, probe_queues,
  probe_hw, nic_probe, nic_remove,
}
use ralink_fe.Nic.Grants.{
  nothing, replay, held_napi, held_pools, held_moder, IsAt, HasPools, HasNone, Leaves, AtHw, AtNapi,
  AtPools, AtPhy, AtFailedEngine, AtEngine, AtAll, TwoAtMost, then_or-Leaves, outcome_cases,
  err_hw-nothing, err_napi-nothing, err_pp-nothing, err_dim-nothing, err_phylink-nothing,
  err_ppe-nothing,
}

Leaves-none :
    (P Q : Binding → Type 0) (r : Option Errno × Binding) → r.0 ≡ none → Leaves P Q r → P r.1
Leaves-none P Q (none, s) e h = h
Leaves-none P Q (some x, s) e h = absurd cc

module _ (k : Answers) (soc : SocData) where
  abbrev AtNothing : Binding → Type 0
  AtNothing s = IsAt nothing s × HasNone s

  hw_init-held :
      (m : Bool) (s : Binding) → AtNothing s → Leaves (AtHw k soc) AtNothing (hw_init k soc m s)
  unfolding hw_init enable_clk deassert_reset
  hw_init-held m s h =
      outcome_cases (AtHw k soc) AtNothing (hw_init k soc m s) (λ e. ground (arith, e, h))
        (λ x e. ground (arith, e, h))

  init_queues-held :
      (s : Binding) → AtHw k soc s → Leaves (AtNapi k soc) (AtHw k soc) (init_queues soc s)
  unfolding init_queues
  init_queues-held s h =
      outcome_cases (AtNapi k soc) (AtHw k soc) (init_queues soc s) (λ e. ground (arith, e, h))
        (λ x e. ground (arith, e, h))

  create_pools-held :
      (s : Binding)
      → TwoAtMost soc
      → AtNapi k soc s
      → Leaves
          (AtPools k soc (held_pools k soc))
          (IsAt (held_napi k soc))
          (create_pools k 0 soc.rxqs s)
  unfolding create_pools pp_create pp_destroy
  create_pools-held s (inl e) h =
      let run : create_pools k 0 soc.rxqs s ≡ create_pools k 0 1 s =
        ap (λ (n : ℕ). create_pools k 0 n s) e in
      rw run (
        outcome_cases (AtPools k soc (held_pools k soc)) (IsAt (held_napi k soc))
          (create_pools k 0 1 s) (λ x. ground (arith, e, x, h)) (λ y x. ground (arith, e, x, h)))
  create_pools-held s (inr e) h =
      let run : create_pools k 0 soc.rxqs s ≡ create_pools k 0 2 s =
        ap (λ (n : ℕ). create_pools k 0 n s) e in
      rw run (
        outcome_cases (AtPools k soc (held_pools k soc)) (IsAt (held_napi k soc))
          (create_pools k 0 2 s) (λ x. ground (arith, e, x, h)) (λ y x. ground (arith, e, x, h)))

  dim_init-held :
      (s : Binding)
      → AtPools k soc (held_pools k soc) s
      → Leaves (AtPools k soc (held_moder k soc)) (AtPools k soc (held_pools k soc)) (dim_init k s)
  unfolding dim_init
  dim_init-held s h =
      outcome_cases (AtPools k soc (held_moder k soc)) (AtPools k soc (held_pools k soc))
        (dim_init k s) (λ e. ground (arith, e, h)) (λ x e. ground (arith, e, h))

  mdio_register-held :
      (s : Binding)
      → AtPools k soc (held_moder k soc) s
      → Leaves
          (AtPools k soc (held_moder k soc))
          (AtPools k soc (held_moder k soc))
          (mdio_register k s)
  unfolding mdio_register
  mdio_register-held s h =
      outcome_cases (AtPools k soc (held_moder k soc)) (AtPools k soc (held_moder k soc))
        (mdio_register k s) (λ e. ground (arith, e, h)) (λ x e. ground (arith, e, h))

  phylink_init-held :
      (s : Binding)
      → AtPools k soc (held_moder k soc) s
      → Leaves (AtPhy k soc) (λ t. IsAt (held_moder k soc) t × HasPools soc t) (phylink_init k s)
  unfolding phylink_init read_port create_phylink connect_phy
  phylink_init-held s h =
      outcome_cases (AtPhy k soc) (λ t. IsAt (held_moder k soc) t × HasPools soc t)
        (phylink_init k s) (λ e. ground (arith, e, h)) (λ x e. ground (arith, e, h))

  attach_engine-held :
      (s : Binding)
      → AtPhy k soc s
      → Leaves (AtEngine k soc) (AtFailedEngine k soc) (attach_engine k s)
  unfolding attach_engine engine_init init_engine
  attach_engine-held s h =
      outcome_cases (AtEngine k soc) (AtFailedEngine k soc) (attach_engine k s)
        (λ e. ground (arith, e, h)) (λ x e. ground (arith, e, h))

  register-held :
      (s : Binding) → AtEngine k soc s → Leaves (AtAll k soc) (AtEngine k soc) (register k s)
  unfolding register
  register-held s h =
      outcome_cases (AtAll k soc) (AtEngine k soc) (register k s) (λ e. ground (arith, e, h))
        (λ x e. ground (arith, e, h))

  -- From each point of the probe on.
  abbrev Ends : Option Errno × Binding → Type 0
  Ends = Leaves (AtAll k soc) (IsAt nothing)

  probe_engine-Ends : (s : Binding) → TwoAtMost soc → AtPhy k soc s → Ends (probe_engine k soc s)
  unfolding probe_engine
  probe_engine-Ends s b h =
      then_or-Leaves (AtEngine k soc) (AtFailedEngine k soc) (AtAll k soc) (IsAt nothing)
        (attach_engine k s) _ (err_phylink k soc) (attach_engine-held s h)
        (λ t h'.
          then_or-Leaves (AtAll k soc) (AtEngine k soc) (AtAll k soc) (IsAt nothing) (register k t)
            (λ u. (none, u)) (err_ppe k soc) (register-held t h') (λ u x. x)
            (λ u x. err_ppe-nothing k soc u b x))
        (λ t x. err_phylink-nothing k soc t b x)

  probe_irq-Ends : (s : Binding) → TwoAtMost soc → AtPhy k soc s → Ends (probe_irq k soc s)
  unfolding probe_irq quieten
  probe_irq-Ends s b h =
      then_or-Leaves (AtPhy k soc) (AtPhy k soc) (AtAll k soc) (IsAt nothing)
        (k.request_irq, quieten k soc s) (probe_engine k soc) (err_phylink k soc)
        (outcome_cases (AtPhy k soc) (AtPhy k soc) (k.request_irq, quieten k soc s) (λ e. h)
          (λ x e. h))
        (λ t h'. probe_engine-Ends t b h') (λ t (x, p, n). err_phylink-nothing k soc t b (x, p))

  probe_phy-Ends :
      (s : Binding) → TwoAtMost soc → AtPools k soc (held_moder k soc) s → Ends (probe_phy k soc s)
  unfolding probe_phy
  probe_phy-Ends s b h =
      then_or-Leaves (AtPools k soc (held_moder k soc)) (AtPools k soc (held_moder k soc))
        (AtAll k soc) (IsAt nothing) (mdio_register k s) _ (err_dim k soc) (mdio_register-held s h)
        (λ t h'.
          then_or-Leaves (AtPhy k soc) (λ u. IsAt (held_moder k soc) u × HasPools soc u)
            (AtAll k soc) (IsAt nothing) (phylink_init k t) (probe_irq k soc) (err_dim k soc)
            (phylink_init-held t h') (λ u x. probe_irq-Ends u b x)
            (λ u (x, p). err_dim-nothing k soc u b p x))
        (λ t (x, p, n, o). err_dim-nothing k soc t b p x)

  probe_pools-Ends : (s : Binding) → TwoAtMost soc → AtNapi k soc s → Ends (probe_pools k soc s)
  unfolding probe_pools
  probe_pools-Ends s b h =
      then_or-Leaves (AtPools k soc (held_pools k soc)) (IsAt (held_napi k soc)) (AtAll k soc)
        (IsAt nothing) (create_pools k 0 soc.rxqs s) _ (err_napi k) (create_pools-held s b h)
        (λ t h'.
          then_or-Leaves (AtPools k soc (held_moder k soc)) (AtPools k soc (held_pools k soc))
            (AtAll k soc) (IsAt nothing) (dim_init k t) (probe_phy k soc) (err_pp k soc)
            (dim_init-held t h') (λ u x. probe_phy-Ends u b x)
            (λ u (x, p, n, o). err_pp-nothing k soc u b p x))
        (λ t x. err_napi-nothing k soc t x)

  probe_queues-Ends : (s : Binding) → TwoAtMost soc → AtHw k soc s → Ends (probe_queues k soc s)
  unfolding probe_queues
  probe_queues-Ends s b h =
      then_or-Leaves (AtHw k soc) (AtHw k soc) (AtAll k soc) (IsAt nothing) (alloc_desc k soc, s) _
        (err_hw k)
        (outcome_cases (AtHw k soc) (AtHw k soc) (alloc_desc k soc, s) (λ e. h) (λ x e. h))
        (λ t h'.
          then_or-Leaves (AtNapi k soc) (AtHw k soc) (AtAll k soc) (IsAt nothing)
            (init_queues soc t) (probe_pools k soc) (err_hw k) (init_queues-held t h')
            (λ u x. probe_pools-Ends u b x) (λ u (x, n). err_hw-nothing k soc u x))
        (λ t (x, n). err_hw-nothing k soc t x)

  probe_hw-Ends : (m : Bool) (s : Binding) → TwoAtMost soc → AtNothing s → Ends (probe_hw k soc m s)
  unfolding probe_hw
  probe_hw-Ends m s b h =
      then_or-Leaves (AtHw k soc) AtNothing (AtAll k soc) (IsAt nothing) (hw_init k soc m s)
        (λ t. probe_queues k soc (irq_masks soc t)) same (hw_init-held m s h)
        (λ t x. probe_queues-Ends (irq_masks soc t) b x) (λ t (x, n). x)

  removed :
      (s : Binding)
      → AtAll k soc s
      → let t = phylink_cleanup (engine_cleanup (free_irq_moder (note (give netdev) s))) in
        IsAt (held_pools k soc) t × HasPools soc t
  unfolding phylink_cleanup engine_cleanup
  removed s (h, p) = ground (arith, h, p)

  nic_remove-nothing :
      (s : Binding) → TwoAtMost soc → AtAll k soc s → IsAt nothing (nic_remove k soc s)
  unfolding nic_remove
  nic_remove-nothing s b h = let (h', p) = removed s h in err_pp-nothing k soc _ b p h'

  nic_probe-Ends :
      (m : Bool) (s : Binding) → TwoAtMost soc → AtNothing s → Ends (nic_probe k soc m s)
  unfolding nic_probe
  nic_probe-Ends m s b h = elim (Bool-cases k.etherdev) [
    | inr e ↦ simp e (h.0)
    | inl e ↦ elim (Bool-cases k.vlan_idx) [
      | inr e' ↦ simp (e, e') (h.0)
      | inl e' ↦ simp (e, e') (probe_hw-Ends m s b h)
    ]
  ]

rxqs_cases : (c : Compatible) → TwoAtMost (match_data c)
unfolding match_data
rxqs_cases rt2880 = inl refl
rxqs_cases rt305x = inl refl
rxqs_cases rt3883 = inl refl
rxqs_cases rt5350 = inr refl
rxqs_cases mt7620 = inr refl
rxqs_cases mt76x8 = inr refl

-- A probe of a device whose private data are zero, on each system-on-chip and whatever the kernel
-- answers: it takes no resource twice and gives none back that it does not hold; where it succeeds, it
-- holds the clock and the reset line that there are, both polls, a pool for each receive queue, the
-- moderation, the network device, and a link and an engine just where it has their pointers; and where
-- it fails, at whatever point, it holds nothing.
pub nic_probe-Leaves :
    (k : Answers) (c : Compatible) (s : Binding)
    → HasNone s
    → s.log ≡ []
    → Leaves (AtAll k (match_data c)) (IsAt nothing) (nic_probe k (match_data c) (is_mt7620 c) s)
nic_probe-Leaves k c s n e =
    nic_probe-Ends k (match_data c) (is_mt7620 c) s (rxqs_cases c) (ap replay e, n)

-- The removal of a device that was probed from such data gives back, once each, exactly what the probe
-- took.
pub nic_remove-nic_probe :
    (k : Answers) (c : Compatible) (s : Binding)
    → HasNone s
    → s.log ≡ []
    → (nic_probe k (match_data c) (is_mt7620 c) s).0 ≡ none
    → let t = (nic_probe k (match_data c) (is_mt7620 c) s).1 in
      replay (nic_remove k (match_data c) t).log ≡ some nothing
nic_remove-nic_probe k c s n e done =
    let r : Option Errno × Binding = nic_probe k (match_data c) (is_mt7620 c) s in
    nic_remove-nothing k (match_data c) r.1 (rxqs_cases c)
      (Leaves-none _ _ r done (nic_probe-Leaves k c s n e))
