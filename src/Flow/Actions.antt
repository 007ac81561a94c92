-- ===== src/Flow/Actions.antt =====
-- `ra_flow_validate_csum` and `ra_flow_parse_actions` of
-- drivers/net/ethernet/ralink/ra_ppe_offload.c. The actions of a flower rule are the kernel's, given
-- as a data type of those that the parser tells apart.
use ralink_fe.Base.{◌==◌, ◌!=◌, if◌then◌else◌, bit_and, bit_or}
use ralink_fe.Base.{ℕ, Bool, true, false, not}
use ralink_fe.Base.{Option, none, some, List, [], ◌∷◌}
use ralink_fe.Base.Field.{u32_not}
use ralink_fe.Flow.{
  Result, ok, err, eopnotsupp, einval, FlowData, be_eth_p_ip, ipproto_tcp, ipproto_udp,
}
use ralink_fe.Flow.Mangle.{Mangle, mangle_eth, mangle_ipv4, mangle_ports}

-- `enum flow_action_mangle_base`
pub data HeaderType : Type 0 where
  eth_header ip4_header ip6_header tcp_header udp_header other_header : HeaderType

-- `struct flow_action_entry`
pub data Action : Type 0 where
  mangle : HeaderType → Mangle → Action
  redirect : (dev : Option ℕ) → Action
  csum : (flags : ℕ) → Action
  vlan_push : (proto vid prio : ℕ) → Action
  vlan_pop : Action
  pppoe_push : (sid : ℕ) → Action
  other_action : Action

-- TCA_CSUM_UPDATE_FLAG_IPV4HDR, TCA_CSUM_UPDATE_FLAG_TCP, TCA_CSUM_UPDATE_FLAG_UDP
abbrev pub csum_ipv4hdr : ℕ
csum_ipv4hdr = 1

abbrev pub csum_tcp : ℕ
csum_tcp = 8

abbrev pub csum_udp : ℕ
csum_udp = 16

-- `ra_flow_validate_csum`, true for 0.
unfoldable pub validate_csum : ℕ → FlowData → Bool
validate_csum flags d =
    let header : ℕ = if d.n_proto == be_eth_p_ip then csum_ipv4hdr else 0 in
    let supported : ℕ = bit_or header (if d.l4proto == ipproto_tcp then csum_tcp else csum_udp) in
    bit_and flags (u32_not supported) == 0

-- The body of the first loop: `csum_seen` and the data after it.
unfoldable pub first_action : Action → Bool → FlowData → Result (Bool × FlowData)
unfolding validate_csum
first_action (mangle eth_header act) seen d = elim (mangle_eth act d) [
  | ok d' ↦ ok (seen, d')
  | err e ↦ err e
]
first_action (mangle _ act) seen d = ok (seen, d)
first_action (redirect none) seen d = err eopnotsupp
first_action (redirect (some dev)) seen d = elim d.out_dev [
  | none ↦ ok (seen, record d { out_dev = some dev })
  | some other ↦ err eopnotsupp
]
first_action (csum flags) seen d =
    if seen then err eopnotsupp else if validate_csum flags d then ok (true, d) else err eopnotsupp
first_action (vlan_push proto vid prio) seen d =
    if d.vlan.push
    then err eopnotsupp
    else ok (
      seen,
      record d {
        vlan = record (d.vlan) {
          push = true;
          push_proto = proto;
          push_vid = vid;
          push_prio = prio;
        };
      },
    )
first_action vlan_pop seen d =
    if d.vlan.pop
    then err eopnotsupp
    else ok (seen, record d { vlan = record (d.vlan) { pop = true } })
first_action (pppoe_push sid) seen d =
    if d.pppoe.push
    then err eopnotsupp
    else ok (seen, record d { pppoe = record { push = true; sid = sid } })
first_action other_action seen d = err eopnotsupp

unfoldable pub first_pass : List Action → Bool → FlowData → Result FlowData
unfolding first_action
first_pass [] seen d = ok d
first_pass (act ∷ acts) seen d = elim (first_action act seen d) [
  | ok r ↦ first_pass acts r.0 r.1
  | err e ↦ err e
]

-- The body of the second loop.
unfoldable pub second_action : Action → FlowData → Result FlowData
second_action (mangle eth_header act) d = ok d
second_action (mangle ip4_header act) d = mangle_ipv4 act d
second_action (mangle ip6_header act) d = err eopnotsupp
second_action (mangle tcp_header act) d =
    if d.l4proto != ipproto_tcp then err eopnotsupp else mangle_ports act d
second_action (mangle udp_header act) d =
    if d.l4proto != ipproto_udp then err eopnotsupp else mangle_ports act d
second_action (mangle other_header act) d = err eopnotsupp
second_action _ d = ok d

unfoldable pub second_pass : List Action → FlowData → Result FlowData
unfolding second_action
second_pass [] d = ok d
second_pass (act ∷ acts) d = elim (second_action act d) [
  | ok d' ↦ second_pass acts d'
  | err e ↦ err e
]

abbrev pub is_empty : List Action → Bool
is_empty [] = Bool.true
is_empty (act ∷ acts) = Bool.false

abbrev pub has_out_dev : FlowData → Bool
has_out_dev d = elim d.out_dev [ none ↦ false | some dev ↦ true ]

unfoldable pub after_first : List Action → Result FlowData → Result FlowData
unfolding second_pass
after_first acts (err e) = err e
after_first acts (ok d) = if has_out_dev d then second_pass acts d else err eopnotsupp

-- `ra_flow_parse_actions`; `hw_stats` is the answer of `flow_action_hw_stats_check`.
unfoldable pub parse_actions : Bool → List Action → FlowData → Result FlowData
unfolding first_pass after_first
parse_actions hw_stats acts d =
    if is_empty acts
    then err einval
    else if not hw_stats
    then err eopnotsupp
    else after_first acts (first_pass acts false d)
