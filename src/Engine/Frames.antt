-- ===== src/Engine/Frames.antt =====
-- What each register operation of drivers/net/ethernet/ralink/ra_ppe_v1.c sets and leaves alone.
use ralink_fe.Base.{◌==◌, arith}
use ralink_fe.Base.{ℕ, ◌<◌, ◌≡◌, refl, Bool, true, false, ◌||◌}
use ralink_fe.Base.Field.{
  genmask, field_get, field_get-keep, field_get-or_left, field_get-field_prep, field_prep,
}
use ralink_fe.Mmio.{Regs, r32, w32, m32}
use ralink_fe.Mmio.Laws.{m32_sets, m32_keeps}
use ralink_fe.Engine.V1Regs.{
  gdma1_fwd_cfg, gdm_frc_mask, gdm_fwd_ppe, gdm_all_frc_mask, gdm_all_frc_ppe, glo_cfg, foe_cfg,
  foe_base, tbl_size_mask, glo_en,
}
use ralink_fe.Engine.V1.{
  FoeConfig, set_gdma_fwd, enable_engine, enable_foe, config_engine, config_foe, foe_cfg_val,
  foe_cfg_mask, learning, set_bind_rate, set_max_entry_limit, set_ka_interval, set_unbind_age,
  set_bind_age,
}

-- What GDMA1 does with the frames of the class whose field is at `shift`.
abbrev pub destination : ℕ → Regs → ℕ
destination shift regs = field_get (gdm_frc_mask shift) (r32 regs gdma1_fwd_cfg)

-- Some class of frames goes to the engine.
unfoldable pub forwards : Regs → Bool
forwards regs =
    destination 0 regs == gdm_fwd_ppe
    || (destination 4 regs == gdm_fwd_ppe
        || (destination 8 regs == gdm_fwd_ppe || destination 12 regs == gdm_fwd_ppe))

unfoldable pub engine_on : Regs → Bool
engine_on regs = field_get (genmask 0 0) (r32 regs glo_cfg) == 1

unfoldable pub table_size : Regs → ℕ
table_size regs = field_get tbl_size_mask (r32 regs foe_cfg)

pub set_gdma_fwd_lem : (enable : Bool) (regs : Regs) → forwards (set_gdma_fwd enable regs) ≡ enable
unfolding forwards set_gdma_fwd field_get
set_gdma_fwd_lem true regs =
    rw (m32_sets (gdm_frc_mask 0) regs gdma1_fwd_cfg gdm_all_frc_mask gdm_all_frc_ppe refl) refl
set_gdma_fwd_lem false regs =
    rw
      (
        m32_sets (gdm_frc_mask 0) regs gdma1_fwd_cfg gdm_all_frc_mask 0 refl,
        m32_sets (gdm_frc_mask 4) regs gdma1_fwd_cfg gdm_all_frc_mask 0 refl,
        m32_sets (gdm_frc_mask 8) regs gdma1_fwd_cfg gdm_all_frc_mask 0 refl,
        m32_sets (gdm_frc_mask 12) regs gdma1_fwd_cfg gdm_all_frc_mask 0 refl,
      )
      refl

pub enable_engine_lem :
    (enable : Bool) (regs : Regs) → engine_on (enable_engine enable regs) ≡ enable
unfolding engine_on enable_engine field_get
enable_engine_lem true regs = rw (m32_sets (genmask 0 0) regs glo_cfg glo_en glo_en refl) refl
enable_engine_lem false regs = rw (m32_sets (genmask 0 0) regs glo_cfg glo_en 0 refl) refl

pub config_engine-engine_on : (regs : Regs) → engine_on (config_engine regs) ≡ engine_on regs
unfolding engine_on config_engine field_get
config_engine-engine_on regs = rw (m32_keeps (genmask 0 0) regs glo_cfg _ _ refl refl) refl

-- The registers that each operation leaves alone.
module _ (regs : Regs) where
  pub enable_foe-forwards : (enable : Bool) → forwards (enable_foe enable regs) ≡ forwards regs
  unfolding forwards enable_foe r32 w32 m32
  enable_foe-forwards enable = refl

  pub enable_foe-engine_on : (enable : Bool) → engine_on (enable_foe enable regs) ≡ engine_on regs
  unfolding engine_on enable_foe r32 w32 m32
  enable_foe-engine_on enable = refl

  pub enable_foe_keeps_base :
      (enable : Bool) → r32 (enable_foe enable regs) foe_base ≡ r32 regs foe_base
  unfolding enable_foe r32 w32 m32
  enable_foe_keeps_base enable = refl

  pub enable_foe-table_size :
      (enable : Bool) → table_size (enable_foe enable regs) ≡ table_size regs
  unfolding table_size enable_foe r32 w32 m32
  enable_foe-table_size enable = refl

  pub enable_engine-forwards :
      (enable : Bool) → forwards (enable_engine enable regs) ≡ forwards regs
  unfolding forwards enable_engine r32 w32 m32
  enable_engine-forwards enable = refl

  pub enable_engine_keeps_base :
      (enable : Bool) → r32 (enable_engine enable regs) foe_base ≡ r32 regs foe_base
  unfolding enable_engine r32 w32 m32
  enable_engine_keeps_base enable = refl

  pub enable_engine-table_size :
      (enable : Bool) → table_size (enable_engine enable regs) ≡ table_size regs
  unfolding table_size enable_engine r32 w32 m32
  enable_engine-table_size enable = refl

  pub set_gdma_fwd-engine_on :
      (enable : Bool) → engine_on (set_gdma_fwd enable regs) ≡ engine_on regs
  unfolding engine_on set_gdma_fwd r32 w32 m32
  set_gdma_fwd-engine_on enable = refl

  pub set_gdma_fwd_keeps_base :
      (enable : Bool) → r32 (set_gdma_fwd enable regs) foe_base ≡ r32 regs foe_base
  unfolding set_gdma_fwd r32 w32 m32
  set_gdma_fwd_keeps_base enable = refl

  pub set_gdma_fwd-table_size :
      (enable : Bool) → table_size (set_gdma_fwd enable regs) ≡ table_size regs
  unfolding table_size set_gdma_fwd r32 w32 m32
  set_gdma_fwd-table_size enable = refl

  pub config_engine-forwards : forwards (config_engine regs) ≡ forwards regs
  unfolding forwards config_engine r32 w32 m32
  config_engine-forwards = refl

  pub config_engine_keeps_base : r32 (config_engine regs) foe_base ≡ r32 regs foe_base
  unfolding config_engine r32 w32 m32
  config_engine_keeps_base = refl

  pub config_engine-table_size : table_size (config_engine regs) ≡ table_size regs
  unfolding table_size config_engine r32 w32 m32
  config_engine-table_size = refl

  pub config_foe-forwards : (cfg : FoeConfig) → forwards (config_foe cfg regs) ≡ forwards regs
  unfolding forwards config_foe set_bind_rate set_max_entry_limit set_ka_interval set_unbind_age
      set_bind_age r32 w32 m32
  config_foe-forwards cfg = refl

  pub config_foe-engine_on : (cfg : FoeConfig) → engine_on (config_foe cfg regs) ≡ engine_on regs
  unfolding engine_on config_foe set_bind_rate set_max_entry_limit set_ka_interval set_unbind_age
      set_bind_age r32 w32 m32
  config_foe-engine_on cfg = refl

  pub config_foe_keeps_base :
      (cfg : FoeConfig) → r32 (config_foe cfg regs) foe_base ≡ r32 regs foe_base
  unfolding config_foe set_bind_rate set_max_entry_limit set_ka_interval set_unbind_age set_bind_age
      r32 w32 m32
  config_foe_keeps_base cfg = refl

  pub set_base-forwards : (v : ℕ) → forwards (w32 regs foe_base v) ≡ forwards regs
  unfolding forwards r32 w32
  set_base-forwards v = refl

  pub set_base-engine_on : (v : ℕ) → engine_on (w32 regs foe_base v) ≡ engine_on regs
  unfolding engine_on r32 w32
  set_base-engine_on v = refl

  pub set_base-table_size : (v : ℕ) → table_size (w32 regs foe_base v) ≡ table_size regs
  unfolding table_size r32 w32
  set_base-table_size v = refl

  pub set_base_lem : (v : ℕ) → r32 (w32 regs foe_base v) foe_base ≡ v
  unfolding r32 w32
  set_base_lem v = refl

  pub config_foe_word :
      (cfg : FoeConfig)
      → r32 (config_foe cfg regs) foe_cfg
        ≡ r32 (m32 regs foe_cfg foe_cfg_mask (foe_cfg_val cfg)) foe_cfg
  unfolding config_foe set_bind_rate set_max_entry_limit set_ka_interval set_unbind_age set_bind_age
      r32 w32 m32
  config_foe_word cfg = refl

  pub config_foe-table_size :
      (cfg : FoeConfig) → cfg.tbl_size < 8 → table_size (config_foe cfg regs) ≡ cfg.tbl_size
  unfolding table_size foe_cfg_val field_get field_prep
  config_foe-table_size cfg h =
      rw
        (
          config_foe_word cfg,
          m32_sets tbl_size_mask regs foe_cfg foe_cfg_mask (foe_cfg_val cfg) refl,
          field_get-keep tbl_size_mask (foe_cfg_val cfg) foe_cfg_mask refl,
          field_get-or_left tbl_size_mask (field_prep tbl_size_mask cfg.tbl_size) learning refl,
          field_get-field_prep tbl_size_mask cfg.tbl_size,
        )
        (omega arith)

pub ruleset engine_frames = (
  enable_foe-forwards, enable_foe-engine_on, enable_foe_keeps_base, enable_foe-table_size,
  enable_engine-forwards, enable_engine_keeps_base, enable_engine-table_size,
  set_gdma_fwd-engine_on, set_gdma_fwd_keeps_base, set_gdma_fwd-table_size, config_engine-forwards,
  config_engine_keeps_base, config_engine-table_size, config_foe-forwards, config_foe-engine_on,
  config_foe_keeps_base, set_base-forwards, set_base-engine_on, set_base-table_size, set_base_lem,
  set_gdma_fwd_lem, enable_engine_lem, config_engine-engine_on,
)
