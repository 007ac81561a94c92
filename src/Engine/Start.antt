-- ===== src/Engine/Start.antt =====
-- `ra_ppe_v1_start` and `ra_ppe_v1_stop` (drivers/net/ethernet/ralink/ra_ppe_v1.c) as a whole: what each
-- outcome leaves in the hardware and in the flow tables.
use ralink_fe.Base.{arith, Bool-cases}
use ralink_fe.Base.{ℕ, ◌*◌, ◌^◌, ◌<◌, ◌≡◌, ◌⊎◌, refl, inl, inr, true, false, some, none}
use ralink_fe.Flow.{FlowKey, Errno, einval, erange, ok, err}
use ralink_fe.Flow.Parse.{Result-cases}
use ralink_fe.Tables.{HashTable}
use ralink_fe.Tables.Stop.{Visits, offload_reset_lem}
use ralink_fe.Engine.{Engine, run}
use ralink_fe.Engine.Frames.{forwards, engine_on, engine_frames}
use ralink_fe.Engine.Safety.{
  IsReady, IsQuiet, launch_running, quiesce-IsQuiet, quiesce_clears, quiesce_phys,
}
use ralink_fe.Engine.V1.{
  FoeConfig, get_foe_config, quiesce_steps, launch_steps, launch, start, stop,
}
use ralink_fe.V1.{Foe}

-- The sizes that the driver accepts are those that the three-bit field can name, and the field names
-- the number of entries.
pub get_foe_config_lem :
    (entries : ℕ) (cfg : FoeConfig)
    → get_foe_config entries ≡ ok cfg
    → (entries ≡ 1024 * 2 ^ cfg.tbl_size) × (cfg.tbl_size < 5)
unfolding get_foe_config
get_foe_config_lem entries cfg h = ground arith

unsupported : (entries : ℕ) (e : Errno) → get_foe_config entries ≡ err e → e ≡ einval
unfolding get_foe_config
unsupported entries e h = ground arith

module _ {T C : Type 0} (tuples : HashTable FlowKey T) (cookies : HashTable ℕ C) where
  launch_lem :
      (cfg : FoeConfig) (q : Engine Foe T C)
      → q.foe_phys < 2 ^ 32
      → launch tuples cookies cfg q ≡ (none, run (launch_steps tuples cookies cfg) q)
  unfolding launch
  launch_lem cfg q h = ground arith

  -- A start that gets so far.
  start-launch :
      (s : Engine Foe T C) (cfg : FoeConfig)
      → s.has_foe_table ≡ true
      → get_foe_config s.tables.ppe.foe_entries ≡ ok cfg
      → start tuples cookies s ≡ launch tuples cookies cfg (run (quiesce_steps tuples cookies) s)
  unfolding start
  start-launch s cfg has size = simp (has, size) refl

  pub start_succeeds :
      (s : Engine Foe T C) (cfg : FoeConfig)
      → s.has_foe_table ≡ true
      → get_foe_config s.tables.ppe.foe_entries ≡ ok cfg
      → s.foe_phys < 2 ^ 32
      → let (e, t) = start tuples cookies s in
        (e ≡ none)
        × (forwards t.regs ≡ true)
        × (engine_on t.regs ≡ true)
        × IsReady tuples cookies cfg.tbl_size t
  unfolding start
  start_succeeds s cfg has size phys =
      let size8 : cfg.tbl_size < 8 =
        omega (arith, get_foe_config_lem s.tables.ppe.foe_entries cfg size) in
      let q : Engine Foe T C = run (quiesce_steps tuples cookies) s in
      let phys' : q.foe_phys < 2 ^ 32 = rw (quiesce_phys tuples cookies s) phys in
      let r = launch_running tuples cookies cfg q (quiesce_clears tuples cookies s) phys' size8 in
      rw (start-launch s cfg has size, launch_lem cfg q phys') (refl, r.0, r.1, r.2)

  launch_fails :
      (cfg : FoeConfig) (q : Engine Foe T C) (e : Errno)
      → (launch tuples cookies cfg q).0 ≡ some e
      → ((launch tuples cookies cfg q).1 ≡ q) × (e ≡ erange)
  unfolding launch
  launch_fails cfg q e h = ground arith

  pub start_fails :
      (s : Engine Foe T C) (e : Errno)
      → (start tuples cookies s).0 ≡ some e
      → let t = (start tuples cookies s).1 in
        ((t ≡ s) × (e ≡ einval)) ⊎ (IsQuiet tuples cookies t × (e ≡ erange))
  unfolding start
  start_fails s e h = elim (Bool-cases s.has_foe_table) [
    | inr off ↦ inl (ground arith)
    | inl on ↦ elim (Result-cases (get_foe_config s.tables.ppe.foe_entries)) [
      | inr (x, bad) ↦ inl (ground (arith, unsupported s.tables.ppe.foe_entries x bad))
      | inl (cfg, good) ↦
          let q : Engine Foe T C = run (quiesce_steps tuples cookies) s in
          let same = start-launch s cfg on good in
          let r = launch_fails cfg q e (rw (← same) h) in
          inr (rw (same, r.0) (quiesce-IsQuiet tuples cookies s), r.1)
    ]
  ]

  -- Whatever the hardware had bound before, a start leaves no entry bound, so the flows own the table.
  pub stop-IsQuiet : (s : Engine Foe T C) → IsQuiet tuples cookies (stop tuples cookies s)
  unfolding stop
  stop-IsQuiet s = (simp engine_frames, simp engine_frames)

  pub stop_forgets :
      (s : Engine Foe T C) (e : ℕ)
      → Visits e (cookies.walk s.tables.flow_table)
      → ((stop tuples cookies s).tables.ppe.flows e).hash_valid ≡ false
  unfolding stop
  stop_forgets s e v = offload_reset_lem tuples cookies s.tables e v
