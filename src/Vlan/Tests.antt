-- ===== src/Vlan/Tests.antt =====
-- Example runs of the VLAN slot cache of drivers/net/ethernet/ralink/ralink_fe.c.
use ralink_fe.Base.{arith, ℕ, ◌≡◌, ◌≢◌, ◌↔◌, ◌-◌, refl}
use ralink_fe.Vlan.{VlanCache, vlan_slots, vlan_reset, vlan_cache_alloc}
use ralink_fe.Vlan.Valid.{
  IsValid, slot_vid, vlan_reset-IsValid, vlan_cache_alloc-IsValid, vlan_cache_alloc_lem,
}

-- The offset that most chips have.
abbrev vlan_id_base : ℕ
vlan_id_base = 0xa8

abbrev stale : VlanCache
stale = record { vlan_idx = λ _. 9; vlan_next_idx = 9; regs = λ _. 0xdeadbeef }

abbrev cold : VlanCache
cold = vlan_reset stale

-- After the first id, 100.
abbrev warm : VlanCache
warm = (vlan_cache_alloc vlan_id_base cold 100).1

warm-IsValid : IsValid vlan_id_base warm
warm-IsValid =
    vlan_cache_alloc-IsValid vlan_id_base cold 100 (omega arith)
      (vlan_reset-IsValid vlan_id_base stale)

vlan_cache_alloc_lem_example :
    let (vidx, v') = vlan_cache_alloc vlan_id_base warm 200 in
    (warm.vlan_idx 200 ≢ 0 → v' ≡ warm)
    × ((vidx ≡ 0) ↔ ((warm.vlan_idx 200 ≡ 0) × (warm.vlan_next_idx ≡ vlan_slots)))
    × (vidx ≢ 0 → (v'.vlan_idx 200 ≡ vidx) × (slot_vid vlan_id_base v'.regs (vidx - 1) ≡ 200))
vlan_cache_alloc_lem_example = vlan_cache_alloc_lem vlan_id_base warm 200 (omega arith) warm-IsValid

warm_next : warm.vlan_next_idx ≡ 1
unfolding vlan_reset vlan_cache_alloc
warm_next = refl
