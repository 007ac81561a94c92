-- ===== src/Engine/Init.antt =====
-- The order in which `ra_ppe_v2_hw_init` and `ra_ppe_v2_hw_deinit`
-- (drivers/net/ethernet/ralink/ra_ppe_v2.c) set PPEv2 up, and what each outcome leaves.
use ralink_fe.Base.{bit_or, bit_and, ◌!=◌, arith}
use ralink_fe.Base.{ℕ, ◌*◌, ◌^◌, ◌<◌, ◌≡◌, ◌⊎◌, refl, inl, inr, Bool, true, false, some, none}
use ralink_fe.Base.Field.{
  genmask, field_get, field_prep, field_get-or_left, field_get-field_prep, field_get-drop, u32_not,
}
use ralink_fe.Mmio.{Regs, r32, w32, m32}
use ralink_fe.Flow.{FlowKey, Errno, einval, erange, ok, err}
use ralink_fe.Flow.Parse.{Result-cases}
use ralink_fe.Tables.{HashTable}
use ralink_fe.Tables.Stop.{Visits, offload_reset_lem}
use ralink_fe.V2.{FoeEntry, zero_entry}
use ralink_fe.V2.Offload.{cache_clear, reg_cah_ctrl}
use ralink_fe.Engine.{Engine, run, states, All, clear_table, on_regs}
use ralink_fe.Engine.V2Regs.{
  flow_cfg, tb_base, tb_cfg, tb_entry_num, reg_hash_seed, hash_seed, cah_ctrl_en,
}
use ralink_fe.Engine.V2.{
  get_tbl_size, config_table, tb_policy, config_ip_prot, set_bndr, set_entry_limits, set_keepalive,
  set_unb_age, set_bnd_age, config_fp_bmap, config_cache, config_mt7620_fe, config_global,
  enable_flows, disable_flows, init_steps, hw_init, hw_deinit,
}

-- The engine looks frames up only while some mode is enabled.
unfoldable pub looks_up : Regs → Bool
looks_up regs = r32 regs flow_cfg != 0

pub get_tbl_size_lem :
    (entries tbl_size : ℕ)
    → get_tbl_size entries ≡ ok tbl_size
    → (entries ≡ 1024 * 2 ^ tbl_size) × (tbl_size < 5)
unfolding get_tbl_size
get_tbl_size_lem entries tbl_size h = ground arith

size_err : (entries : ℕ) (e : Errno) → get_tbl_size entries ≡ err e → e ≡ einval
unfolding get_tbl_size
size_err entries e h = ground arith

size_field :
    (n : ℕ) → n < 8 → field_get tb_entry_num (bit_or (field_prep tb_entry_num n) tb_policy) ≡ n
unfolding field_get field_prep
size_field n h =
    rw
      (
        field_get-or_left tb_entry_num (field_prep tb_entry_num n) tb_policy refl,
        field_get-field_prep tb_entry_num n,
      )
      (omega arith)

cache_off : (x : ℕ) → field_get (genmask 0 0) (bit_and x (u32_not cah_ctrl_en)) ≡ 0
unfolding field_get
cache_off x = field_get-drop (genmask 0 0) x (u32_not cah_ctrl_en) refl

module _ {T C : Type 0} where
  -- The table is empty, and the engine has its address, its size and the hash's seed.
  pub record IsSetUp (tbl_size : ℕ) (s : Engine FoeEntry T C) : Type 0 where
    pub cleared : (i : ℕ) → i < s.tables.ppe.foe_entries → s.tables.ppe.foe_table i ≡ zero_entry
    pub based : r32 s.regs tb_base ≡ s.foe_phys
    pub sized : field_get tb_entry_num (r32 s.regs tb_cfg) ≡ tbl_size
    pub seeded : r32 s.regs reg_hash_seed ≡ hash_seed
    pub uncached : field_get (genmask 0 0) (r32 s.regs reg_cah_ctrl) ≡ 0

  abbrev pub IsGated : ℕ → Engine FoeEntry T C → Type 0
  IsGated tbl_size s = looks_up s.regs ≡ true → IsSetUp tbl_size s

  ready :
      (n : ℕ) (q : Engine FoeEntry T C)
      → q.foe_phys < 2 ^ 32
      → n < 8
      → IsSetUp n (run (init_steps n) q)
  unfolding clear_table config_table config_ip_prot set_bndr set_entry_limits set_keepalive
      set_unb_age set_bnd_age config_fp_bmap config_cache config_mt7620_fe config_global
      enable_flows w32 r32 m32 cache_clear
  ready n q h e = record {
    cleared = λ i below. ground arith;
    based = omega arith;
    sized = size_field n e;
    seeded = refl;
    uncached =
        cache_off
          (bit_or (bit_and (bit_or (bit_and (q.regs reg_cah_ctrl) 4294966783) 512) 4294966783) 0);
  }

  init_from :
      (n : ℕ) (q : Engine FoeEntry T C)
      → looks_up q.regs ≡ false
      → IsSetUp n (run (init_steps n) q)
      → All (IsGated n) (states (init_steps n) q)
  unfolding clear_table config_table config_ip_prot set_bndr set_entry_limits set_keepalive
      set_unb_age set_bnd_age config_fp_bmap config_cache config_mt7620_fe config_global w32 r32 m32
      cache_clear looks_up
  init_from n q off done = (
    λ p. cc,
    (
      λ p. cc,
      (
        λ p. cc,
        (
          λ p. cc,
          (
            λ p. cc,
            (
              λ p. cc,
              (
                λ p. cc,
                (
                  λ p. cc,
                  (λ p. cc, (λ p. cc, (λ p. cc, (λ p. cc, (λ p. cc, (λ p. cc, (λ p. done, tt))))))),
                ),
              ),
            ),
          ),
        ),
      ),
    ),
  )

  -- The flows are off first.
  init-looks_up :
      (s : Engine FoeEntry T C)
      → looks_up (on_regs {F = FoeEntry} {T = T} {C = C} disable_flows s).regs ≡ false
  unfolding looks_up disable_flows r32 w32
  init-looks_up s = refl

  pub init-IsGated :
      (n : ℕ) (s : Engine FoeEntry T C)
      → get_tbl_size s.tables.ppe.foe_entries ≡ ok n
      → s.foe_phys < 2 ^ 32
      → All (IsGated n) (states (init_steps n) (on_regs disable_flows s))
  init-IsGated n s size h =
      let small : n < 8 = omega (arith, get_tbl_size_lem s.tables.ppe.foe_entries n size) in
      init_from n (on_regs disable_flows s) (init-looks_up s)
        (ready n (on_regs disable_flows s) h small)

  run-looks_up : (n : ℕ) (q : Engine FoeEntry T C) → looks_up (run (init_steps n) q).regs ≡ true
  unfolding looks_up enable_flows r32 w32
  run-looks_up n q = refl

  hw_init-run :
      (s : Engine FoeEntry T C) (n : ℕ)
      → get_tbl_size s.tables.ppe.foe_entries ≡ ok n
      → s.foe_phys < 2 ^ 32
      → hw_init s ≡ (none, run (init_steps n) (on_regs disable_flows s))
  unfolding hw_init
  hw_init-run s n size h = rw (size, hw_init) (ground arith)

  pub hw_init_succeeds :
      (s : Engine FoeEntry T C) (n : ℕ)
      → get_tbl_size s.tables.ppe.foe_entries ≡ ok n
      → s.foe_phys < 2 ^ 32
      → let (e, t) = hw_init s in (e ≡ none) × (looks_up t.regs ≡ true) × IsSetUp n t
  hw_init_succeeds s n size h =
      let small : n < 8 = omega (arith, get_tbl_size_lem s.tables.ppe.foe_entries n size) in
      let q : Engine FoeEntry T C = on_regs disable_flows s in
      rw (hw_init-run s n size h) (refl, run-looks_up n q, ready n q h small)

  pub hw_init_fails :
      (s : Engine FoeEntry T C) (e : Errno)
      → (hw_init s).0 ≡ some e
      → ((hw_init s).1 ≡ s) × ((e ≡ einval) ⊎ (e ≡ erange))
  unfolding hw_init
  hw_init_fails s e h = elim (Result-cases (get_tbl_size s.tables.ppe.foe_entries)) [
    | inr (x, bad) ↦ ground (arith, size_err s.tables.ppe.foe_entries x bad)
    | inl (n, good) ↦ ground arith
  ]

  -- After the teardown no frame is looked up, and the flows have forgotten their slots.
  pub hw_deinit_lem :
      (tuples : HashTable FlowKey T) (cookies : HashTable ℕ C) (s : Engine FoeEntry T C) (e : ℕ)
      → Visits e (cookies.walk s.tables.flow_table)
      → let t = hw_deinit tuples cookies s in
        (looks_up t.regs ≡ false) × ((t.tables.ppe.flows e).hash_valid ≡ false)
  unfolding hw_deinit looks_up r32 w32 disable_flows
  hw_deinit_lem tuples cookies s e v = (refl, offload_reset_lem tuples cookies s.tables e v)
