-- ===== src/Nic/Grants.antt =====
-- Every resource that `ralink_fe_probe` takes is given back once, when it fails at whatever point, or by
-- `ralink_fe_remove` (drivers/net/ethernet/ralink/ralink_fe.c).
use ralink_fe.Base.{◌==◌, if◌then◌else◌, arith}
use ralink_fe.Base.{◌≡◌, ◌⊎◌, inl, inr, refl, Bool, true, false, Option, none, some, List, [], ◌∷◌}
use ralink_fe.Flow.{Errno}
use ralink_fe.Nic.Soc.{SocData}
use ralink_fe.Nic.Probe.{
  Resource, clk, reset, napi, moder, phylink, phy, engine, netdev, mdio_node, port_node, ppe_node,
  pool, Grant, take, give, Answers, Binding, then_or, hw_cleanup, napi_cleanup, pp_destroy,
  destroy_pools, free_irq_moder,
}
use ralink_fe.Nic.Attach.{
  phylink_cleanup, engine_cleanup, err_hw, err_napi, err_pp, err_dim, err_phylink, err_ppe,
}

-- Which resources are held. There are two pools at most.
pub record Held : Type 0 where
  pub clk_held : Bool
  pub reset_held : Bool
  pub napi_held : Bool
  pub pool0_held : Bool
  pub pool1_held : Bool
  pub moder_held : Bool
  pub phylink_held : Bool
  pub phy_held : Bool
  pub engine_held : Bool
  pub netdev_held : Bool
  pub mdio_node_held : Bool
  pub port_node_held : Bool
  pub ppe_node_held : Bool

abbrev pub nothing : Held
nothing = record {
  clk_held = false;
  reset_held = false;
  napi_held = false;
  pool0_held = false;
  pool1_held = false;
  moder_held = false;
  phylink_held = false;
  phy_held = false;
  engine_held = false;
  netdev_held = false;
  mdio_node_held = false;
  port_node_held = false;
  ppe_node_held = false;
}

abbrev pub is_held : Resource → Held → Bool
is_held clk h = h.clk_held
is_held reset h = h.reset_held
is_held napi h = h.napi_held
is_held moder h = h.moder_held
is_held phylink h = h.phylink_held
is_held phy h = h.phy_held
is_held engine h = h.engine_held
is_held netdev h = h.netdev_held
is_held mdio_node h = h.mdio_node_held
is_held port_node h = h.port_node_held
is_held ppe_node h = h.ppe_node_held
is_held (pool q) h = if q == 0 then h.pool0_held else h.pool1_held

abbrev pub set_held : Resource → Bool → Held → Held
set_held clk b h = record h { clk_held = b }
set_held reset b h = record h { reset_held = b }
set_held napi b h = record h { napi_held = b }
set_held moder b h = record h { moder_held = b }
set_held phylink b h = record h { phylink_held = b }
set_held phy b h = record h { phy_held = b }
set_held engine b h = record h { engine_held = b }
set_held netdev b h = record h { netdev_held = b }
set_held mdio_node b h = record h { mdio_node_held = b }
set_held port_node b h = record h { port_node_held = b }
set_held ppe_node b h = record h { ppe_node_held = b }
set_held (pool q) b h = if q == 0 then record h { pool0_held = b } else record h { pool1_held = b }

-- One event: none where a resource is taken twice, or given back but not held.
abbrev pub happen : Grant → Held → Option Held
happen (take r) h = if is_held r h then none else some (set_held r true h)
happen (give r) h = if is_held r h then some (set_held r false h) else none

abbrev pub and_then : Grant → Option Held → Option Held
and_then g none = none
and_then g (some h) = happen g h

-- What is held after the events of a log, newest first.
abbrev pub replay : List Grant → Option Held
replay [] = some nothing
replay (g ∷ log) = and_then g (replay log)

abbrev pub IsAt : Held → Binding → Type 0
IsAt h s = replay s.log ≡ some h

abbrev pub HasNone : Binding → Type 0
HasNone s =
    (s.page_pools 0 ≡ false)
    × (s.page_pools 1 ≡ false)
    × (s.has_phylink ≡ false)
    × (s.has_engine ≡ false)

-- The pointers of the pools agree.
abbrev pub HasPools : SocData → Binding → Type 0
HasPools soc s = (s.page_pools 0 ≡ true) × (s.page_pools 1 ≡ (soc.rxqs == 2))

-- What a step leaves where it succeeds and where it fails.
abbrev pub Leaves : (P Q : Binding → Type 0) → Option Errno × Binding → Type 0
Leaves P Q (none, s) = P s
Leaves P Q (some e, s) = Q s

abbrev pub TwoAtMost : SocData → Type 0
TwoAtMost soc = (soc.rxqs ≡ 1) ⊎ (soc.rxqs ≡ 2)

pub then_or-Leaves :
    (P Q R S : Binding → Type 0) (r : Option Errno × Binding)
    (next : Binding → Option Errno × Binding) (label : Binding → Binding)
    → Leaves P Q r
    → ((t : Binding) → P t → Leaves R S (next t))
    → ((t : Binding) → Q t → S (label t))
    → Leaves R S (then_or r next label)
then_or-Leaves P Q R S (none, s) next label h f g = f s h
then_or-Leaves P Q R S (some e, s) next label h f g = g s h

pub outcome_cases :
    (P Q : Binding → Type 0) (r : Option Errno × Binding)
    → (r.0 ≡ none → P r.1)
    → ((e : Errno) → r.0 ≡ some e → Q r.1)
    → Leaves P Q r
outcome_cases P Q (none, s) f g = f refl
outcome_cases P Q (some e, s) f g = g e refl

module _ (k : Answers) (soc : SocData) where
  -- What is held at each label.
  abbrev pub held_hw : Held
  held_hw = record nothing { clk_held = k.has_clk; reset_held = k.has_reset }

  abbrev pub held_napi : Held
  held_napi = record held_hw { napi_held = true }

  abbrev pub held_pools : Held
  held_pools = record held_napi { pool0_held = true; pool1_held = soc.rxqs == 2 }

  abbrev pub held_moder : Held
  held_moder = record held_pools { moder_held = true }

  abbrev pub held_phy : Bool → Held
  held_phy b = record held_moder { phylink_held = b; phy_held = b }

  abbrev pub held_engine : Bool → Bool → Held
  held_engine b p = record (held_phy b) { engine_held = p }

  abbrev pub AtHw : Binding → Type 0
  AtHw s = IsAt held_hw s × HasNone s

  abbrev pub AtNapi : Binding → Type 0
  AtNapi s = IsAt held_napi s × HasNone s

  abbrev pub AtPools : Held → Binding → Type 0
  AtPools h s = IsAt h s × HasPools soc s × (s.has_phylink ≡ false) × (s.has_engine ≡ false)

  abbrev pub AtPhy : Binding → Type 0
  AtPhy s = IsAt (held_phy s.has_phylink) s × HasPools soc s × (s.has_engine ≡ false)

  abbrev pub AtFailedEngine : Binding → Type 0
  AtFailedEngine s = IsAt (held_phy s.has_phylink) s × HasPools soc s

  abbrev pub AtEngine : Binding → Type 0
  AtEngine s = IsAt (held_engine s.has_phylink s.has_engine) s × HasPools soc s

  abbrev pub AtAll : Binding → Type 0
  AtAll s =
      IsAt (record (held_engine s.has_phylink s.has_engine) { netdev_held = true }) s
      × HasPools soc s

  pub err_hw-nothing : (s : Binding) → IsAt held_hw s → IsAt nothing (err_hw k s)
  unfolding hw_cleanup
  err_hw-nothing s h = ground (arith, h)

  pub err_napi-nothing : (s : Binding) → IsAt held_napi s → IsAt nothing (err_napi k s)
  err_napi-nothing s h = err_hw-nothing (napi_cleanup s) (ground (arith, h))

  destroy_pools-held :
      (s : Binding)
      → TwoAtMost soc
      → HasPools soc s
      → IsAt held_pools s
      → IsAt held_napi (destroy_pools 0 soc.rxqs s)
  unfolding destroy_pools pp_destroy
  destroy_pools-held s (inl e) p h = rw e (ground (arith, e, p, h))
  destroy_pools-held s (inr e) p h = rw e (ground (arith, e, p, h))

  pub err_pp-nothing :
      (s : Binding)
      → TwoAtMost soc
      → HasPools soc s
      → IsAt held_pools s
      → IsAt nothing (err_pp k soc s)
  err_pp-nothing s b p h = err_napi-nothing _ (destroy_pools-held s b p h)

  pub err_dim-nothing :
      (s : Binding)
      → TwoAtMost soc
      → HasPools soc s
      → IsAt held_moder s
      → IsAt nothing (err_dim k soc s)
  err_dim-nothing s b p h = err_pp-nothing (free_irq_moder s) b p (ground (arith, h))

  pub phylink_cleanup-held :
      (s : Binding)
      → IsAt (held_phy s.has_phylink) s
      → HasPools soc s
      → IsAt held_moder (phylink_cleanup s) × HasPools soc (phylink_cleanup s)
  unfolding phylink_cleanup
  phylink_cleanup-held s h p = ground (arith, h, p)

  pub err_phylink-nothing :
      (s : Binding) → TwoAtMost soc → AtFailedEngine s → IsAt nothing (err_phylink k soc s)
  err_phylink-nothing s b (h, p) =
      let (h', p') = phylink_cleanup-held s h p in err_dim-nothing (phylink_cleanup s) b p' h'

  pub engine_cleanup-held : (s : Binding) → AtEngine s → AtFailedEngine (engine_cleanup s)
  unfolding engine_cleanup
  engine_cleanup-held s (h, p) = ground (arith, h, p)

  pub err_ppe-nothing : (s : Binding) → TwoAtMost soc → AtEngine s → IsAt nothing (err_ppe k soc s)
  err_ppe-nothing s b h = err_phylink-nothing (engine_cleanup s) b (engine_cleanup-held s h)
