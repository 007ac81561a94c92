-- ===== src/V1/Bind.antt =====
-- What the driver's operations on the PPEv1 table guarantee: a promoted slot is the BIND of its flow,
-- no BIND of a flow is forgotten, and none is left when the flow is removed.
use ralink_fe.Base.{◌==◌, if◌then◌else◌, arith}
use ralink_fe.Base.{ℕ, ◌^◌, ◌<◌, ◌≡◌, ◌⊎◌, Bool, true}
use ralink_fe.Base.Field.{field_get}
use ralink_fe.Flow.{
  FlowKey, FlowData, key_eq, swap16-swap16, swap32-swap32, flow_key_from_data, ipproto_udp,
  ipproto_tcp, be_eth_p_ip,
}
use ralink_fe.V1.{Foe, foe_state, foe_is_ipv4_hnapt, ib1_pkt_type}
use ralink_fe.V1.Offload.{
  flow_key_from_foe, flow_foe_matches, flow_foe_is_bound, commit_ib1, bind_entry,
}
use ralink_fe.V1.Build.{Output, build_foe, build_ib1}
use ralink_fe.Slots.Word.{udp_bit}
use ralink_fe.V1.Word.{udp_test, commit_ib1-Committed, build_ib1-Built}

-- A template serves the flows of its protocol.
pub record IsTemplate (key : FlowKey) (bind : Foe) : Type 0 where
  pub hnapt : field_get ib1_pkt_type bind.info_blk1 ≡ 0
  pub udp : field_get udp_bit bind.info_blk1 ≡ (if key.ip_proto == ipproto_udp then 1 else 0)

-- The template of a parsed IPv4 flow serves that flow, is not yet valid, and holds its very tuple in
-- the form that the hardware compares.
pub build_foe-IsTemplate :
    (d : FlowData) (out : Output)
    → d.n_proto ≡ be_eth_p_ip
    → (d.l4proto ≡ ipproto_tcp) ⊎ (d.l4proto ≡ ipproto_udp)
    → d.src_addr < 2 ^ 32
    → d.dst_addr < 2 ^ 32
    → d.src_port < 2 ^ 16
    → d.dst_port < 2 ^ 16
    → IsTemplate (flow_key_from_data d) (build_foe d out)
      × (foe_state (build_foe d out) ≡ 0)
      × (flow_key_from_foe (build_foe d out) ≡ flow_key_from_data d)
unfolding build_foe flow_key_from_data flow_key_from_foe foe_state
build_foe-IsTemplate d out ip proto sa da sp dp = ground (
  arith,
  build_ib1-Built d.l4proto out,
  udp_test (build_ib1 d.l4proto out),
  swap32-swap32 d.src_addr sa,
  swap32-swap32 d.dst_addr da,
  swap16-swap16 d.src_port sp,
  swap16-swap16 d.dst_port dp,
)

-- A committed descriptor is the BIND of the flow whose tuple the hardware learned.
pub bind_entry-bound :
    (dsa : Bool) (foe ts : ℕ) (hw bind : Foe)
    → IsTemplate (flow_key_from_foe hw) bind
    → flow_foe_is_bound
        (record (bind_entry dsa foe hw bind) { info_blk1 = commit_ib1 bind.info_blk1 ts })
        (flow_key_from_foe hw)
      ≡ true
unfolding flow_foe_is_bound flow_foe_matches flow_key_from_foe bind_entry foe_state
    foe_is_ipv4_hnapt key_eq
bind_entry-bound dsa foe ts hw bind t =
    ground (arith, commit_ib1-Committed bind.info_blk1 ts, udp_test (commit_ib1 bind.info_blk1 ts))
