-- ===== src/V2/Owners.antt =====
-- The driver's operations on the PPEv2 table: what ra_ppe_v2_offload_check and ra_ppe_v2_flow_remove
-- of drivers/net/ethernet/ralink/ra_ppe_v2_offload.c keep, as instances of the protocol of Slots.
use ralink_fe.Base.{arith, bit_and}
use ralink_fe.Base.{ℕ, ◌-◌, ◌<◌, ◌%◌, ◌^◌, ◌≡◌, ◌≢◌, sym, ap, ◌∙◌, Bool, true, false, Option, some}
use ralink_fe.Mmio.{Regs}
use ralink_fe.Flow.{FlowKey}
use ralink_fe.Slots.{Ppe}
use ralink_fe.Slots.Table.{remove_lem}
use ralink_fe.Slots.Check.{check-IsValid, check_promotes}
use ralink_fe.V2.{FoeEntry, entry_state, foe_state_bind, foe_state_invalid}
use ralink_fe.V2.Offload.{
  key_from_entry, entry_is_bound, entry_remove, entry_check, entry_commit_locked, commit_entry_ib1,
}
use ralink_fe.V2.Word.{commit_entry_ib1-EntryCommitted, invalid_ib1-state}
use ralink_fe.V2.Table.{
  EntryValid, IsEntryTemplate, v2_format, v2_format-IsLawful, entry_is_bound_lem,
  entry_remove-remove, entry_check-check,
}

-- `lookup` is the tuple table.
module _ (lookup : FlowKey → Option ℕ) where
  module _ (foe_ts jiffies foe : ℕ) (regs : Regs) (ppe : Ppe FoeEntry) where
    -- Every branch of `ra_ppe_v2_offload_check` keeps the table valid.
    pub entry_check-EntryValid :
        (keepalive : Bool)
        → EntryValid lookup ppe
        → EntryValid lookup (entry_check lookup foe_ts jiffies foe keepalive regs ppe).ppe
    entry_check-EntryValid keepalive v =
        rw (ap (λ r. r.1) (entry_check-check foe_ts jiffies foe keepalive regs ppe lookup).0) (
          check-IsValid v2_format lookup foe_ts jiffies foe ppe IsEntryTemplate keepalive
            v2_format-IsLawful v)

    -- A promotion that answers true was of a slot whose tuple, of IPv4 or of IPv6, an authorized and
    -- live flow has; the slot is now the BIND of that tuple, the flow remembers it, and no other slot
    -- has changed.
    pub entry_check_promotes :
        EntryValid lookup ppe
        → let c = entry_check lookup foe_ts jiffies foe false regs ppe in
          c.answer ≡ true
          → (k : FlowKey) × (e : ℕ) × (key_from_entry (ppe.foe_table foe) ≡ some k)
            × (lookup k ≡ some e)
            × (((ppe.flows e).dead ≡ false)
                × ((c.ppe.flows e).hash_valid ≡ true)
                × ((c.ppe.flows e).hash ≡ foe))
            × (entry_is_bound (c.ppe.foe_table foe) k ≡ true)
            × ((i : ℕ) → foe ≢ i → c.ppe.foe_table i ≡ ppe.foe_table i)
    entry_check_promotes v =
        let same = (entry_check-check foe_ts jiffies foe false regs ppe lookup).0 in
        rw (ap (λ r. r.1) same, ap (λ r. r.0) same)
          (λ h.
            let (k, e, hw, l, st, own, rest) =
              check_promotes v2_format lookup foe_ts jiffies foe ppe IsEntryTemplate
                v2_format-IsLawful v h in
            (k, e, hw, l, st, entry_is_bound_lem _ k ∙ own, rest))

  -- Removal of a flow that the table still has: the table stays valid, no slot is a BIND of the flow,
  -- no slot changes but one that was, and the flow forgets its slot.
  pub entry_remove_lem :
      (e : ℕ) (ppe : Ppe FoeEntry)
      → EntryValid lookup ppe
      → lookup (ppe.flows e).key ≡ some e
      → let ppe' = entry_remove e ppe in
        EntryValid lookup ppe'
        × ((i : ℕ)
            → i < ppe.foe_entries
            → entry_is_bound (ppe'.foe_table i) (ppe.flows e).key ≡ false)
        × ((i : ℕ)
            → entry_is_bound (ppe.foe_table i) (ppe.flows e).key ≡ false
            → ppe'.foe_table i ≡ ppe.foe_table i)
        × ((ppe'.flows e).hash_valid ≡ false)
  entry_remove_lem e ppe v l = rw (entry_remove-remove e ppe) (
      let (valid, none_left, others, forgot) =
        remove_lem v2_format IsEntryTemplate lookup e ppe v2_format-IsLawful v l in
      (
        valid,
        λ i below. entry_is_bound_lem _ _ ∙ none_left i below,
        λ i free. others i (sym (entry_is_bound_lem _ _) ∙ free),
        forgot,
      ))

-- While an entry is committed the hardware sees it either unchanged, or complete but INVALID, or
-- complete and BIND: the two stages have the same words but the first, and no other slot changes.
pub entry_commit_locked_order :
    (foe_ts index : ℕ) (entry : FoeEntry) (ppe : Ppe FoeEntry)
    → index < ppe.foe_entries
    → let (between, ppe') = entry_commit_locked foe_ts index entry ppe in
      (entry_state (between index) ≡ foe_state_invalid)
      × (entry_state (ppe'.foe_table index) ≡ foe_state_bind)
      × ((w : ℕ) → 0 ≢ w → between index w ≡ ppe'.foe_table index w)
      × ((i : ℕ) → index ≢ i → (between i ≡ ppe.foe_table i) × (ppe'.foe_table i ≡ ppe.foe_table i))
unfolding entry_commit_locked entry_state
entry_commit_locked_order foe_ts index entry ppe h =
    let ts : ℕ = bit_and foe_ts (2 ^ 15 - 1) % 2 ^ 16 in
    (
      ground (arith, invalid_ib1-state (commit_entry_ib1 (entry 0) ts)),
      ground (arith, commit_entry_ib1-EntryCommitted (entry 0) ts),
      λ w ne. ground arith,
      λ i ne. ground arith,
    )
