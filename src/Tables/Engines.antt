-- ===== src/Tables/Engines.antt =====
-- `ra_ppe_v1_offload_ops` and `ra_ppe_v2_offload_ops` (drivers/net/ethernet/ralink/ra_ppe_v1_offload.c,
-- ra_ppe_v2_offload.c): both generations follow the protocol of Slots.
use ralink_fe.Base.{◌==◌, arith, Bool-cases}
use ralink_fe.Base.{◌≡◌, inl, inr, refl, Bool, false}
use ralink_fe.Mmio.{Regs}
use ralink_fe.Flow.{FlowData, ok, flow_key_from_data, be_eth_p_ip}
use ralink_fe.Flow.Parse.{Result-cases}
use ralink_fe.Tables.{OffloadOps}
use ralink_fe.Tables.Laws.{Follows}
use ralink_fe.V1.{Foe}
use ralink_fe.V1.Offload.{flow_remove, offload_check}
use ralink_fe.V1.Build.{Topology, flow_prepare, build_foe}
use ralink_fe.V1.Word.{build_ib1-Built}
use ralink_fe.V1.Bind.{IsTemplate}
use ralink_fe.V1.Rule.{flow_prepare-cases}
use ralink_fe.V1.Table.{v1_format, v1_format-IsLawful, flow_remove-remove, offload_check-check}
use ralink_fe.V2.{FoeEntry, foe_ipv4_hnapt, foe_ipv6_5t_route}
use ralink_fe.V2.Offload.{entry_remove, entry_check}
use ralink_fe.V2.Build.{
  Switch, EntryOutput, entry_resolve, entry_prepare, build_ipv4, build_ipv6_5t,
}
use ralink_fe.V2.Table.{
  v2_format, v2_format-IsLawful, IsEntryTemplate, outcome, entry_remove-remove, entry_check-check,
}
use ralink_fe.V2.Template.{entry_ib1-EntryBuilt}

-- `ra_ppe_v1_offload_ops`, where the kernel can allocate or not.
abbrev pub v1_ops : Topology → Bool → OffloadOps Foe
v1_ops topology allocated = record {
  prepare = flow_prepare topology allocated;
  remove = flow_remove;
  check = offload_check;
}

v1-prepares :
    (topology : Topology) (allocated : Bool) (d : FlowData) (bind : Foe)
    → flow_prepare topology allocated d ≡ ok bind
    → IsTemplate (flow_key_from_data d) bind
unfolding build_foe flow_key_from_data
v1-prepares topology allocated d bind h =
    let (ip, (out, built)) = flow_prepare-cases topology allocated d bind h in
    let word = build_ib1-Built d.l4proto out in
    rw built (record { hnapt = word.pkt_type; udp = word.udp })

-- PPEv1 follows the protocol.
pub v1_ops-Follows :
    (topology : Topology) (allocated : Bool)
    → Follows (v1_ops topology allocated) v1_format IsTemplate
v1_ops-Follows topology allocated = record {
  lawful = v1_format-IsLawful;
  prepares = v1-prepares topology allocated;
  removes = flow_remove-remove;
  checks = offload_check-check;
}

-- `ra_ppe_v2_offload_ops`, whose check also writes the cache's register.
abbrev pub v2_ops : Switch → Bool → Regs → OffloadOps FoeEntry
v2_ops switch allocated regs = record {
  prepare = entry_prepare switch allocated;
  remove = entry_remove;
  check = λ lookup foe_ts jiffies foe keepalive ppe.
      outcome (entry_check lookup foe_ts jiffies foe keepalive regs ppe);
}

ipv4-template :
    (d : FlowData) (out : EntryOutput)
    → d.n_proto ≡ be_eth_p_ip
    → IsEntryTemplate (flow_key_from_data d) (build_ipv4 d out)
unfolding build_ipv4 flow_key_from_data
ipv4-template d out ip =
    let word = entry_ib1-EntryBuilt d.l4proto foe_ipv4_hnapt out (inl refl) in
    record { pkt_type = ground (arith, word); udp = word.udp }

ipv6-template :
    (d : FlowData) (out : EntryOutput)
    → (d.n_proto == be_eth_p_ip) ≡ false
    → IsEntryTemplate (flow_key_from_data d) (build_ipv6_5t d out)
unfolding build_ipv6_5t flow_key_from_data
ipv6-template d out v6 =
    let word = entry_ib1-EntryBuilt d.l4proto foe_ipv6_5t_route out (inr refl) in
    record { pkt_type = ground (arith, word); udp = word.udp }

v2-prepares :
    (switch : Switch) (allocated : Bool) (d : FlowData) (bind : FoeEntry)
    → entry_prepare switch allocated d ≡ ok bind
    → IsEntryTemplate (flow_key_from_data d) bind
unfolding entry_prepare
v2-prepares switch allocated d bind h = elim (Result-cases (entry_resolve switch d)) [
  | inr (e, refused) ↦ absurd (ground (arith, refused))
  | inl (out, done) ↦ elim (Bool-cases (d.n_proto == be_eth_p_ip)) [
    | inl ip ↦
        let built : bind ≡ build_ipv4 d out = ground (arith, done) in
        rw built (ipv4-template d out (ground arith))
    | inr v6 ↦
        let built : bind ≡ build_ipv6_5t d out = ground (arith, done) in
        rw built (ipv6-template d out v6)
  ]
]

-- PPEv2 follows the protocol.
pub v2_ops-Follows :
    (switch : Switch) (allocated : Bool) (regs : Regs)
    → Follows (v2_ops switch allocated regs) v2_format IsEntryTemplate
v2_ops-Follows switch allocated regs = record {
  lawful = v2_format-IsLawful;
  prepares = v2-prepares switch allocated;
  removes = entry_remove-remove;
  checks = λ lookup foe_ts jiffies foe keepalive ppe.
      (entry_check-check foe_ts jiffies foe keepalive regs ppe lookup).0;
}
