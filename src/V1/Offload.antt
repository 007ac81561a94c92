-- ===== src/V1/Offload.antt =====
-- `ra_ppe_v1_offload_check`, `ra_ppe_v1_flow_remove` and what they call, of
-- drivers/net/ethernet/ralink/ra_ppe_v1_offload.c. The lock `ppe->lock` makes each one step. The
-- flows are an array by object, and the hash table's lookup is a parameter.
use ralink_fe.Base.{Array, update, ltb, ◌==◌, ◌!=◌, if◌then◌else◌, bit_and, bit_or}
use ralink_fe.Base.{ℕ, ◌*◌, ◌%◌, ◌^◌, Bool, true, false, not, ◌&&◌, ◌||◌, Option, none, some}
use ralink_fe.Base.Field.{mask, u32_not, field_prep}
use ralink_fe.Flow.{
  FlowKey, FlowEntry, key_eq, swap16, swap32, be_eth_p_ip, ipproto_udp, ipproto_tcp,
}
use ralink_fe.Slots
use ralink_fe.V1.{
  Foe, zero_foe, foe_state, foe_is_unbind, foe_is_ipv4_hnapt, foe_state_bind, foe_state_invalid,
  ib1_udp, ib1_bind_timestamp, ib1_ttl, ib1_state,
}

-- `struct ra_ppe` with PPEv1 descriptors.
abbrev pub Ppe : Type 0
Ppe = Slots.Ppe Foe

-- VLAN_PRIO_MASK, VLAN_PRIO_SHIFT
abbrev pub vlan_prio_mask : ℕ
vlan_prio_mask = 0xe000

abbrev pub vlan_prio_shift : ℕ
vlan_prio_shift = 13

-- `ra_ppe_v1_flow_key_from_foe`
unfoldable pub flow_key_from_foe : Foe → FlowKey
flow_key_from_foe foe = record {
  n_proto = be_eth_p_ip;
  ip_proto = if bit_and foe.info_blk1 ib1_udp != 0 then ipproto_udp else ipproto_tcp;
  src_port = swap16 foe.sport;
  dst_port = swap16 foe.dport;
  src = swap32 foe.sip;
  dst = swap32 foe.dip;
}

-- `ra_ppe_v1_flow_foe_matches`
unfoldable pub flow_foe_matches : Foe → FlowKey → Bool
flow_foe_matches foe key = key_eq (flow_key_from_foe foe) key

-- `ra_ppe_v1_flow_foe_is_bound`
unfoldable pub flow_foe_is_bound : Foe → FlowKey → Bool
flow_foe_is_bound foe key =
    if foe_state foe != foe_state_bind
    then false
    else if foe_is_ipv4_hnapt foe
    then flow_foe_matches foe key
    else false

-- The final state word that `ra_ppe_v1_foe_commit_locked` builds.
unfoldable pub commit_ib1 : ℕ → ℕ → ℕ
commit_ib1 ib1 timestamp =
    bit_or
      (bit_or
        (bit_or
          (bit_and ib1
            (u32_not (bit_or (bit_or (mask ib1_bind_timestamp) ib1_ttl) (mask ib1_state))))
          (field_prep ib1_bind_timestamp timestamp))
        ib1_ttl)
      (field_prep ib1_state foe_state_bind)

-- `ra_ppe_v1_foe_commit_locked`, where `foe_ts` is what RA_REG_FOE_TS reads. The hardware may look at
-- the slot between the copy and the last store: the first component is the table in between.
unfoldable pub foe_commit_locked : ℕ → ℕ → Foe → Ppe → Array Foe × Ppe
foe_commit_locked foe_ts index entry ppe =
    let final_ib1 : ℕ = commit_ib1 entry.info_blk1 (foe_ts % 2 ^ 16) in
    let invalid_ib1 : ℕ =
      bit_or (bit_and final_ib1 (u32_not (mask ib1_state)))
        (field_prep ib1_state foe_state_invalid) in
    if ltb index ppe.foe_entries
    then (
      update ppe.foe_table index (record entry { info_blk1 = invalid_ib1 }),
      record ppe {
        foe_table = update ppe.foe_table index (record entry { info_blk1 = final_ib1 });
      },
    )
    else (ppe.foe_table, ppe)

-- `ra_ppe_v1_foe_clear_locked`
unfoldable pub foe_clear_locked : ℕ → Ppe → Ppe
foe_clear_locked index ppe =
    if ltb index ppe.foe_entries
    then record ppe { foe_table = update ppe.foe_table index zero_foe }
    else ppe

-- Whether the slot that a flow remembers is still the BIND of this flow.
unfoldable pub still_bound : Ppe → FlowEntry → Bool
still_bound ppe entry =
    ltb entry.hash ppe.foe_entries && flow_foe_is_bound (ppe.foe_table entry.hash) entry.key

-- `ra_ppe_v1_flow_remove` of the flow `e`.
unfoldable pub flow_remove : ℕ → Ppe → Ppe
flow_remove e ppe =
    let entry : FlowEntry = ppe.flows e in
    let ppe' : Ppe = if still_bound ppe entry then foe_clear_locked entry.hash ppe else ppe in
    if entry.hash_valid
    then record ppe' { flows = update ppe.flows e (record entry { hash_valid = false }) }
    else ppe

-- The VLAN word of a template, with the priority that spreads internal DSA tags over the queues.
unfoldable pub spread_pcp : Bool → ℕ → ℕ → ℕ
spread_pcp ralink_dsa foe vlan1 =
    if ralink_dsa && (bit_and vlan1 vlan_prio_mask == 7 * 2 ^ vlan_prio_shift)
    then bit_or (bit_and vlan1 (u32_not vlan_prio_mask)) (foe % 4 * 2 * 2 ^ vlan_prio_shift)
    else vlan1

-- The descriptor that is bound: the template with the tuple that the hardware learned.
unfoldable pub bind_entry : Bool → ℕ → Foe → Foe → Foe
bind_entry ralink_dsa foe hw_entry template = record template {
  sip = hw_entry.sip;
  dip = hw_entry.dip;
  sport = hw_entry.sport;
  dport = hw_entry.dport;
  vlan1 = spread_pcp ralink_dsa foe template.vlan1;
}

-- What `ra_ppe_v1_offload_check` does once it has found the flow `e`, for a keepalive and for a
-- promotion.
unfoldable pub check_keepalive : ℕ → ℕ → ℕ → Ppe → Bool × Ppe
check_keepalive jiffies foe e ppe =
    let entry : FlowEntry = ppe.flows e in
    if not entry.hash_valid || (entry.hash != foe)
    then (false, ppe)
    else (true, record ppe { flows = update ppe.flows e (record entry { lastused = jiffies }) })

unfoldable pub check_promote : ℕ → ℕ → ℕ → ℕ → Ppe → Bool × Ppe
check_promote foe_ts jiffies foe e ppe =
    let entry : FlowEntry = ppe.flows e in
    if entry.hash_valid && ((entry.hash != foe) && still_bound ppe entry)
    then (false, ppe)
    else let bind : Foe = bind_entry ppe.ralink_dsa foe (ppe.foe_table foe) (ppe.binds e) in
      (
        true,
        record ((foe_commit_locked foe_ts foe bind ppe).1) {
          flows =
              update ppe.flows e
                (record entry { hash = foe; hash_valid = true; lastused = jiffies });
        },
      )

unfoldable pub check_found : ℕ → ℕ → ℕ → Bool → Option ℕ → Ppe → Bool × Ppe
check_found foe_ts jiffies foe keepalive none ppe = (false, ppe)
check_found foe_ts jiffies foe keepalive (some e) ppe =
    if (ppe.flows e).dead
    then (false, ppe)
    else if keepalive
    then check_keepalive jiffies foe e ppe
    else check_promote foe_ts jiffies foe e ppe

-- `ra_ppe_v1_offload_check`, with `lookup` for `ra_ppe_flow_lookup_tuple`.
unfoldable pub offload_check : (FlowKey → Option ℕ) → ℕ → ℕ → ℕ → Bool → Ppe → Bool × Ppe
offload_check lookup foe_ts jiffies foe keepalive ppe =
    let hw_entry : Foe = ppe.foe_table foe in
    let state_fits : Bool =
      if keepalive then foe_state hw_entry == foe_state_bind else foe_is_unbind hw_entry in
    if ltb foe ppe.foe_entries
    then if state_fits && foe_is_ipv4_hnapt hw_entry
      then check_found foe_ts jiffies foe keepalive (lookup (flow_key_from_foe hw_entry)) ppe
      else (false, ppe)
    else (false, ppe)
