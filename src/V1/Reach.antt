-- ===== src/V1/Reach.antt =====
-- The driver and the hardware together: any interleaving of checks and removals with what the
-- hardware does to the table by itself, and the store order of a commit.
use ralink_fe.Base.{update, arith}
use ralink_fe.Base.{ℕ, ◌<◌, ◌%◌, ◌^◌, ◌≡◌, ◌≢◌, Bool, false, Option, some}
use ralink_fe.Flow.{FlowKey}
use ralink_fe.V1.{Foe, foe_state, foe_state_bind, foe_state_invalid}
use ralink_fe.V1.Offload.{
  Ppe, flow_foe_is_bound, flow_remove, offload_check, foe_commit_locked, commit_ib1,
}
use ralink_fe.V1.Word.{commit_ib1-Committed}
use ralink_fe.V1.Table.{IsValid, v1_format}
use ralink_fe.Slots.Table.{not_bound}
use ralink_fe.Slots.Word.{invalid_word}
use ralink_fe.V1.Orphans.{offload_check-IsValid, flow_remove_lem}

-- While a descriptor is committed the hardware sees it either unchanged, or complete but INVALID, or
-- complete and BIND.
pub foe_commit_locked_order :
    (foe_ts index : ℕ) (entry : Foe) (ppe : Ppe)
    → index < ppe.foe_entries
    → let (between, ppe') = foe_commit_locked foe_ts index entry ppe in
      (foe_state (between index) ≡ foe_state_invalid)
      × (foe_state (ppe'.foe_table index) ≡ foe_state_bind)
      × (record (between index) { info_blk1 = 0 } ≡ record (ppe'.foe_table index) { info_blk1 = 0 })
      × ((i : ℕ) → index ≢ i → (between i ≡ ppe.foe_table i) × (ppe'.foe_table i ≡ ppe.foe_table i))
unfolding foe_commit_locked foe_state
foe_commit_locked_order foe_ts index entry ppe h = (
  ground (arith, invalid_word (commit_ib1 entry.info_blk1 (foe_ts % 2 ^ 16))),
  ground (arith, commit_ib1-Committed entry.info_blk1 (foe_ts % 2 ^ 16)),
  ground arith,
  λ i ne. ground arith,
)

module _ (lookup : FlowKey → Option ℕ) where
  -- The hardware ages a slot out, or learns another tuple in it, but binds none by itself.
  pub data Step (ppe : Ppe) : Ppe → Type 0 where
    check :
        (foe_ts jiffies foe : ℕ) (keepalive : Bool)
        → Step ppe (offload_check lookup foe_ts jiffies foe keepalive ppe).1
    remove : (e : ℕ) → lookup (ppe.flows e).key ≡ some e → Step ppe (flow_remove e ppe)
    hardware :
        (i : ℕ) (foe : Foe)
        → foe_state foe ≢ foe_state_bind
        → Step ppe (record ppe { foe_table = update ppe.foe_table i foe })

  pub data Reach (ppe : Ppe) : Ppe → Type 0 where
    here : Reach ppe ppe
    next : {p q : Ppe} → Reach ppe p → Step p q → Reach ppe q

  Step-IsValid : {p q : Ppe} → Step p q → IsValid lookup p → IsValid lookup q
  Step-IsValid {p} (check foe_ts jiffies foe keepalive) v =
      offload_check-IsValid lookup foe_ts jiffies foe p keepalive v
  Step-IsValid {p} (remove e l) v = (flow_remove_lem lookup e p v l).0
  Step-IsValid {p} (hardware i foe h) v = record {
    found = v.found;
    template = v.template;
    authorized = λ k j below b. ground (arith, v.authorized k j, not_bound v1_format foe k h);
    remembered = λ k e j l below b. ground (arith, v.remembered k e j, not_bound v1_format foe k h);
  }

  Reach-IsValid : {p q : Ppe} → IsValid lookup p → Reach p q → IsValid lookup q
  Reach-IsValid v here = v
  Reach-IsValid v (next r st) = Step-IsValid st (Reach-IsValid v r)

  -- However checks, removals and the hardware's own changes interleave, after the removal of a flow no
  -- slot of the table is a BIND of that flow.
  pub flow_remove_leaves_none :
      {p q : Ppe}
      → IsValid lookup p
      → Reach p q
      → (e : ℕ) → lookup (q.flows e).key ≡ some e
      → (i : ℕ) → i < q.foe_entries
      → flow_foe_is_bound ((flow_remove e q).foe_table i) (q.flows e).key ≡ false
  flow_remove_leaves_none {q} v r e l i below =
      (flow_remove_lem lookup e q (Reach-IsValid v r) l).1 i below
