-- ===== src/Vlan.antt =====
-- The VLAN slot cache of drivers/net/ethernet/ralink/ralink_fe.c: `priv->vlan_idx`,
-- `priv->vlan_next_idx`, and the table of VLAN ids in the registers from `soc->vlan_id_base` on,
-- two ids to a word. The lock `vlan_lock` makes each operation one step.
pub mod Valid
mod Tests
use ralink_fe.Base.{Array, update, ltb, ◌==◌, ◌!=◌, if◌then◌else◌, bit_and, bit_or}
use ralink_fe.Base.{ℕ, ◌+◌, ◌*◌, ◌/◌, ◌%◌, ◌^◌}
use ralink_fe.Base.Field.{u32_not}
use ralink_fe.Mmio.{Regs, r32, w32}

-- RALINK_FE_VLAN_SLOTS
abbrev pub vlan_slots : ℕ
vlan_slots = 16

abbrev pub vlan_vid_mask : ℕ
vlan_vid_mask = 0x0fff

abbrev pub vlan_n_vid : ℕ
vlan_n_vid = 4096

pub record VlanCache : Type 0 where
  pub vlan_idx : Array ℕ  -- u8, 0 is "uncached"
  pub vlan_next_idx : ℕ  -- u8
  pub regs : Regs

-- The `memset` and the reset of the counter in `ralink_fe_open`.
unfoldable pub vlan_reset : VlanCache → VlanCache
vlan_reset v = record v { vlan_idx = λ _. 0; vlan_next_idx = 0 }

module _ (vlan_id_base : ℕ) where
  -- `ralink_fe_vlan_id_write_locked`
  unfoldable pub vlan_id_write_locked : Regs → ℕ → ℕ → Regs
  unfolding r32 w32
  vlan_id_write_locked regs idx vid =
      let reg : ℕ = vlan_id_base + idx / 2 * 4 in
      let shift : ℕ = if bit_and idx 1 != 0 then 16 else 0 in
      let val : ℕ = bit_and (r32 regs reg) (u32_not (vlan_vid_mask * 2 ^ shift)) in
      w32 regs reg (bit_or val (bit_and vid vlan_vid_mask * 2 ^ shift))

  -- `ralink_fe_vlan_cache_alloc`: the slot plus one, or 0 when the table is full.
  unfoldable pub vlan_cache_alloc : VlanCache → ℕ → ℕ × VlanCache
  vlan_cache_alloc v vid =
      if v.vlan_idx vid != 0
      then (v.vlan_idx vid, v)
      else if ltb v.vlan_next_idx vlan_slots
      then (
        (v.vlan_next_idx + 1) % 256,
        record v {
          vlan_idx = update v.vlan_idx vid ((v.vlan_next_idx + 1) % 256);
          vlan_next_idx = (v.vlan_next_idx + 1) % 256;
          regs = vlan_id_write_locked v.regs v.vlan_next_idx vid;
        },
      )
      else (0, v)
