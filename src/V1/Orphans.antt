-- ===== src/V1/Orphans.antt =====
-- The driver's operations on the PPEv1 table: what ra_ppe_v1_offload_check and ra_ppe_v1_flow_remove
-- of drivers/net/ethernet/ralink/ra_ppe_v1_offload.c keep, as instances of the protocol of Slots.
use ralink_fe.Base.{ℕ, ◌<◌, ◌≡◌, ◌≢◌, sym, ◌∙◌, Bool, true, false, Option, some}
use ralink_fe.Flow.{FlowKey}
use ralink_fe.Slots.Table.{remove_lem}
use ralink_fe.Slots.Check.{check-IsValid, check_promotes, check_keepalive}
use ralink_fe.V1.Offload.{Ppe, flow_key_from_foe, flow_foe_is_bound, flow_remove, offload_check}
use ralink_fe.V1.Bind.{IsTemplate}
use ralink_fe.V1.Table.{
  IsValid, v1_format, v1_format-IsLawful, is_bound_lem, some_key, flow_remove-remove,
  offload_check-check,
}

-- `lookup` is the tuple table, the templates are those of `build_foe`.
module _ (lookup : FlowKey → Option ℕ) where
  module _ (foe_ts jiffies foe : ℕ) (ppe : Ppe) where
    -- Every branch of `ra_ppe_v1_offload_check` keeps the table valid.
    pub offload_check-IsValid :
        (keepalive : Bool)
        → IsValid lookup ppe
        → IsValid lookup (offload_check lookup foe_ts jiffies foe keepalive ppe).1
    offload_check-IsValid keepalive v =
        rw (offload_check-check lookup foe_ts jiffies foe keepalive ppe) (
          check-IsValid v1_format lookup foe_ts jiffies foe ppe IsTemplate keepalive
            v1_format-IsLawful v)

    -- A promotion that answers "bound" was of a slot whose tuple an authorized and live flow has; the
    -- slot is now the BIND of that flow, the flow remembers it, and no other slot has changed.
    pub offload_check_promotes :
        IsValid lookup ppe
        → (offload_check lookup foe_ts jiffies foe false ppe).0 ≡ true
        → let ppe' = (offload_check lookup foe_ts jiffies foe false ppe).1 in
          (e : ℕ) × (lookup (flow_key_from_foe (ppe.foe_table foe)) ≡ some e)
          × (((ppe.flows e).dead ≡ false)
              × ((ppe'.flows e).hash_valid ≡ true)
              × ((ppe'.flows e).hash ≡ foe))
          × (flow_foe_is_bound (ppe'.foe_table foe) (ppe.flows e).key ≡ true)
          × ((i : ℕ) → foe ≢ i → ppe'.foe_table i ≡ ppe.foe_table i)
    offload_check_promotes v = rw (offload_check-check lookup foe_ts jiffies foe false ppe) (λ h.
        let (k, e, hw, l, st, own, rest) =
          check_promotes v1_format lookup foe_ts jiffies foe ppe IsTemplate v1_format-IsLawful v
            h in
        (
          e,
          rw (some_key (ppe.foe_table foe) k hw) l,
          st,
          rw (v.found k e l) (is_bound_lem _ k ∙ own),
          rest,
        ))

    -- A keepalive writes no table entry, and refreshes a flow only from the slot that it remembers.
    pub offload_check_keepalive :
        let (answer, ppe') = offload_check lookup foe_ts jiffies foe true ppe in
        (ppe'.foe_table ≡ ppe.foe_table)
        × (answer ≡ true
            → (e : ℕ) × (lookup (flow_key_from_foe (ppe.foe_table foe)) ≡ some e)
              × ((ppe.flows e).hash_valid ≡ true)
              × ((ppe.flows e).hash ≡ foe)
              × ((ppe'.flows e).lastused ≡ jiffies))
    offload_check_keepalive = rw (offload_check-check lookup foe_ts jiffies foe true ppe) (
        let (same, kept) = check_keepalive v1_format lookup foe_ts jiffies foe ppe in
        (
          same,
          λ h.
              let (k, e, hw, l, known, own, time) = kept h in
              (e, rw (some_key (ppe.foe_table foe) k hw) l, known, own, time),
        ))

  -- Removal of a flow that the table still has: the table stays valid, no slot is a BIND of the flow,
  -- and no slot changes but one that was.
  pub flow_remove_lem :
      (e : ℕ) (ppe : Ppe)
      → IsValid lookup ppe
      → lookup (ppe.flows e).key ≡ some e
      → let ppe' = flow_remove e ppe in
        IsValid lookup ppe'
        × ((i : ℕ)
            → i < ppe.foe_entries
            → flow_foe_is_bound (ppe'.foe_table i) (ppe.flows e).key ≡ false)
        × ((i : ℕ)
            → flow_foe_is_bound (ppe.foe_table i) (ppe.flows e).key ≡ false
            → ppe'.foe_table i ≡ ppe.foe_table i)
        × ((ppe'.flows e).hash_valid ≡ false)
  flow_remove_lem e ppe v l = rw (flow_remove-remove e ppe) (
      let (valid, none_left, others, forgot) =
        remove_lem v1_format IsTemplate lookup e ppe v1_format-IsLawful v l in
      (
        valid,
        λ i below. is_bound_lem _ _ ∙ none_left i below,
        λ i free. others i (sym (is_bound_lem _ _) ∙ free),
        forgot,
      ))
