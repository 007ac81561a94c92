-- ===== src/Engine/Safety.antt =====
-- The order in which `ra_ppe_v1_start` and `ra_ppe_v1_stop`
-- (drivers/net/ethernet/ralink/ra_ppe_v1.c) turn the parts of PPEv1 on and off.
use ralink_fe.Base.{arith}
use ralink_fe.Base.{ℕ, ◌^◌, ◌<◌, ◌≡◌, refl, true, false}
use ralink_fe.Mmio.{Regs, r32}
use ralink_fe.Flow.{FlowKey}
use ralink_fe.Tables.{HashTable}
use ralink_fe.Engine.{Engine, run, states, All, clear_table, lower_32_bits}
use ralink_fe.Engine.V1Regs.{foe_base}
use ralink_fe.Engine.V1.{FoeConfig, config_foe, quiesce_steps, launch_steps}
use ralink_fe.V1.{Foe, zero_foe}
use ralink_fe.Engine.Frames.{forwards, engine_on, table_size, engine_frames, config_foe-table_size}

module _ {T C : Type 0} (tuples : HashTable FlowKey T) (cookies : HashTable ℕ C) where
  -- Everything that the engine reads is in place.
  pub record IsReady (tbl_size : ℕ) (s : Engine Foe T C) : Type 0 where
    pub cleared : (i : ℕ) → i < s.tables.ppe.foe_entries → s.tables.ppe.foe_table i ≡ zero_foe
    pub based : r32 s.regs foe_base ≡ s.foe_phys
    pub sized : table_size s.regs ≡ tbl_size

  -- Frames go to the engine only while it runs, and it runs only on a table that is ready.
  abbrev pub IsSafe : ℕ → Engine Foe T C → Type 0
  IsSafe tbl_size s =
      (forwards s.regs ≡ true → engine_on s.regs ≡ true)
      × (engine_on s.regs ≡ true → IsReady tbl_size s)

  abbrev pub IsQuiet : Engine Foe T C → Type 0
  IsQuiet s = (forwards s.regs ≡ false) × (engine_on s.regs ≡ false)

  quiet-IsSafe : (n : ℕ) (s : Engine Foe T C) → IsQuiet s → IsSafe n s
  quiet-IsSafe n s (a, b) = (λ p. cc, λ p. cc)

  pub quiesce-IsQuiet : (s : Engine Foe T C) → IsQuiet (run (quiesce_steps tuples cookies) s)
  unfolding clear_table
  quiesce-IsQuiet s = (simp engine_frames, simp engine_frames)

  pub quiesce_clears :
      (s : Engine Foe T C) (i : ℕ)
      → i < (run (quiesce_steps tuples cookies) s).tables.ppe.foe_entries
      → (run (quiesce_steps tuples cookies) s).tables.ppe.foe_table i ≡ zero_foe
  unfolding clear_table
  quiesce_clears s i h = ground arith

  pub quiesce_phys :
      (s : Engine Foe T C) → (run (quiesce_steps tuples cookies) s).foe_phys ≡ s.foe_phys
  unfolding clear_table
  quiesce_phys s = refl

  -- From a quiet engine with an empty table.
  pub launch_from :
      (cfg : FoeConfig) (q : Engine Foe T C)
      → IsQuiet q
      → ((i : ℕ) → i < q.tables.ppe.foe_entries → q.tables.ppe.foe_table i ≡ zero_foe)
      → q.foe_phys < 2 ^ 32
      → cfg.tbl_size < 8
      → All (IsSafe cfg.tbl_size) (states (launch_steps tuples cookies cfg) q)
  launch_from cfg q quiet empty h n =
      let phys : lower_32_bits q.foe_phys ≡ q.foe_phys = omega arith in
      let size : (regs : Regs) → table_size (config_foe cfg regs) ≡ cfg.tbl_size =
        λ regs. config_foe-table_size regs cfg n in
      (
        quiet-IsSafe _ _ quiet,
        (
          quiet-IsSafe _ _ (simp engine_frames quiet),
          (
            quiet-IsSafe _ _ (simp engine_frames quiet),
            (
              quiet-IsSafe _ _ (simp engine_frames quiet),
              (
                quiet-IsSafe _ _ (simp engine_frames quiet),
                (
                  (
                    λ _. simp engine_frames,
                    λ _. record {
                      cleared = empty;
                      based = simp (engine_frames, phys);
                      sized = simp (engine_frames, size);
                    },
                  ),
                  (
                    (
                      λ _. simp engine_frames,
                      λ _. record {
                        cleared = empty;
                        based = simp (engine_frames, phys);
                        sized = simp (engine_frames, size);
                      },
                    ),
                    tt,
                  ),
                ),
              ),
            ),
          ),
        ),
      )

  pub launch_running :
      (cfg : FoeConfig) (q : Engine Foe T C)
      → ((i : ℕ) → i < q.tables.ppe.foe_entries → q.tables.ppe.foe_table i ≡ zero_foe)
      → q.foe_phys < 2 ^ 32
      → cfg.tbl_size < 8
      → let t = run (launch_steps tuples cookies cfg) q in
        (forwards t.regs ≡ true) × (engine_on t.regs ≡ true) × IsReady cfg.tbl_size t
  launch_running cfg q empty h n =
      let phys : lower_32_bits q.foe_phys ≡ q.foe_phys = omega arith in
      let size : (regs : Regs) → table_size (config_foe cfg regs) ≡ cfg.tbl_size =
        λ regs. config_foe-table_size regs cfg n in
      (
        simp engine_frames,
        simp engine_frames,
        record {
          cleared = empty;
          based = simp (engine_frames, phys);
          sized = simp (engine_frames, size);
        },
      )

  -- The states that `ra_ppe_v1_start` passes through once it has stopped what ran before are safe.
  pub launch-IsSafe :
      (cfg : FoeConfig) (s : Engine Foe T C)
      → s.foe_phys < 2 ^ 32
      → cfg.tbl_size < 8
      → All
          (IsSafe cfg.tbl_size)
          (states (launch_steps tuples cookies cfg) (run (quiesce_steps tuples cookies) s))
  launch-IsSafe cfg s h n =
      launch_from cfg (run (quiesce_steps tuples cookies) s) (quiesce-IsQuiet s) (quiesce_clears s)
        (rw (quiesce_phys s) h) n
