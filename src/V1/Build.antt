-- ===== src/V1/Build.antt =====
-- `ra_ppe_v1_resolve_output`, `ra_ppe_v1_build_foe` and `ra_ppe_v1_flow_prepare` of
-- drivers/net/ethernet/ralink/ra_ppe_v1_offload.c: from a parsed flow to a BIND template. The
-- topology of the switch, which the kernel knows, is a parameter.
use ralink_fe.Base.{◌==◌, ◌!=◌, if◌then◌else◌, bit_or}
use ralink_fe.Base.{ℕ, ◌*◌, ◌%◌, ◌^◌, Bool, true, false, ◌&&◌, ◌||◌, Option, none, some}
use ralink_fe.Base.Field.{field_prep}
use ralink_fe.Flow.{
  eopnotsupp, enomem, Result, ok, err, FlowData, swap16, swap32, be_eth_p_ip, be_eth_p_8021q,
  ipproto_udp,
}
use ralink_fe.V1.{
  Foe, zero_foe, foe_set_mac, foe_state_invalid, foe_ipv4_hnapt, act_none, act_modify, act_insert,
  act_delete, ib1_pkt_type, ib1_udp, ib1_vlan1_action, ib1_vlan2_action, ib1_snap_action,
  ib1_pppoe_action, ib1_ttl, ib1_keepalive, ib1_state, ib2_fd, ib2_dp,
}

-- `struct ra_ppe_v1_output`
pub record Output : Type 0 where
  pub vlan1 : ℕ  -- u16
  pub vlan2 : ℕ  -- u16
  pub vlan1_action : ℕ
  pub vlan2_action : ℕ
  pub pppoe : Bool
  pub pppoe_id : ℕ  -- u16
  pub dp : ℕ  -- u8

abbrev pub zero_output : Output
zero_output = record {
  vlan1 = 0;
  vlan2 = 0;
  vlan1_action = 0;
  vlan2_action = 0;
  pppoe = false;
  pppoe_id = 0;
  dp = 0;
}

-- A port of the switch as the kernel describes it: whether its CPU port tags by
-- DSA_TAG_PROTO_RALINK_8021Q, and the bridge that it is in.
pub data Bridge : Type 0 where
  no_bridge : Bridge
  -- VLAN filtering, with the result of `br_vlan_get_pvid_rcu`.
  vlan_bridge : (pvid : Result ℕ) → Bridge
  -- With `dsa_tag_8021q_bridge_vid` of its number.
  plain_bridge : (bridge_vid : ℕ) → Bridge

pub record DsaPort : Type 0 where
  pub ralink_8021q : Bool
  pub bridge : Bridge
  pub standalone_vid : ℕ

-- What `ra_ppe_v1_resolve_output` asks of the kernel: the port of a device, if it is one, and whether
-- a device is the frame engine's.
pub record Topology : Type 0 where
  pub dsa_port_from_netdev : Option ℕ → Option DsaPort
  pub is_fe_ndev : Option ℕ → Bool

-- The label `pppoe`.
unfoldable pub output_pppoe : FlowData → Output → Output
output_pppoe d out =
    if d.pppoe.push then record out { pppoe = true; pppoe_id = d.pppoe.sid } else out

-- Through a bridge that filters VLANs.
unfoldable pub output_vlan_bridge : FlowData → Result ℕ → Result Output
unfolding output_pppoe
output_vlan_bridge d (ok pvid) = ok (
    output_pppoe d (
      if d.vlan.push
      then record zero_output {
        dp = 1;
        vlan1 = d.vlan.push_vid;
        vlan1_action = if d.vlan.pop then act_modify else act_insert;
        vlan2_action = act_delete;
      }
      else record zero_output {
        dp = 1;
        vlan1 = pvid;
        vlan1_action = if d.vlan.pop then act_delete else act_insert;
      }))
output_vlan_bridge d (err e) =
    if d.vlan.push
    then ok (
        output_pppoe d (record zero_output {
          dp = 1;
          vlan1 = d.vlan.push_vid;
          vlan1_action = if d.vlan.pop then act_modify else act_insert;
          vlan2_action = act_delete;
        }))
    else err e

-- An internal tag that marks the packet for the switch with priority 7, to destination `dp`.
unfoldable pub output_tagged : FlowData → ℕ → ℕ → Result Output
unfolding output_pppoe
output_tagged d vid dp = ok (
    output_pppoe d
      (record zero_output { vlan1 = bit_or vid (7 * 2 ^ 13); vlan1_action = act_insert; dp = dp }))

unfoldable pub output_port : FlowData → DsaPort → Bridge → Result Output
unfolding output_vlan_bridge output_tagged
output_port d port (vlan_bridge pvid) = output_vlan_bridge d pvid
output_port d port (plain_bridge vid) = output_tagged d vid 1
output_port d port no_bridge = output_tagged d port.standalone_vid 2

-- To a device that is no port of a switch.
unfoldable pub output_direct : FlowData → Result Output
unfolding output_pppoe
output_direct d = ok (
    output_pppoe d (
      if d.vlan.pop && d.vlan.push
      then record zero_output { dp = 1; vlan1 = d.vlan.push_vid; vlan1_action = act_modify }
      else if d.vlan.push
      then record zero_output { dp = 1; vlan1 = d.vlan.push_vid; vlan1_action = act_insert }
      else if d.vlan.pop
      then record zero_output { dp = 1; vlan1_action = act_delete }
      else record zero_output { dp = 1; vlan1_action = act_none }))

-- `ra_ppe_v1_resolve_output`
unfoldable pub resolve_output : Topology → FlowData → Result Output
unfolding output_port output_direct
resolve_output t d =
    if d.vlan.push && (d.vlan.push_proto != be_eth_p_8021q)
    then err eopnotsupp
    else elim (t.dsa_port_from_netdev d.out_dev) [
      | some port ↦ if port.ralink_8021q then output_port d port port.bridge else err eopnotsupp
      | none ↦ if t.is_fe_ndev d.out_dev then output_direct d else err eopnotsupp
    ]

-- Information block 1 of the template.
unfoldable pub build_ib1 : ℕ → Output → ℕ
build_ib1 l4proto out =
    let pkt_type : ℕ = field_prep ib1_pkt_type foe_ipv4_hnapt in
    let typed : ℕ = if l4proto == ipproto_udp then bit_or pkt_type ib1_udp else pkt_type in
    let vlan : ℕ =
      bit_or
        (bit_or (bit_or typed (field_prep ib1_vlan1_action out.vlan1_action))
          (field_prep ib1_vlan2_action out.vlan2_action))
        (field_prep ib1_snap_action act_none) in
    let pppoe : ℕ =
      bit_or vlan (field_prep ib1_pppoe_action (if out.pppoe then act_insert else act_delete)) in
    bit_or (bit_or (bit_or pppoe ib1_ttl) ib1_keepalive) (field_prep ib1_state foe_state_invalid)

-- Whether an action carries a tag.
abbrev pub inserts : ℕ → Bool
inserts act = (act == act_insert) || (act == act_modify)

-- `ra_ppe_v1_build_foe`
unfoldable pub build_foe : FlowData → Output → Foe
unfolding build_ib1
build_foe d out = record zero_foe {
  info_blk1 = build_ib1 d.l4proto out;
  sip = swap32 (d.src_addr % 2 ^ 32);
  dip = swap32 (d.dst_addr % 2 ^ 32);
  sport = swap16 d.src_port;
  dport = swap16 d.dst_port;
  new_sip = swap32 (d.new_src_addr % 2 ^ 32);
  new_dip = swap32 (d.new_dst_addr % 2 ^ 32);
  new_sport = swap16 d.new_src_port;
  new_dport = swap16 d.new_dst_port;
  dmac = foe_set_mac d.h_dest;
  smac = foe_set_mac d.h_source;
  vlan1 = if inserts out.vlan1_action then out.vlan1 else 0;
  vlan2 = if inserts out.vlan2_action then out.vlan2 else 0;
  pppoe_id = if out.pppoe then out.pppoe_id else 0;
  info_blk2 = bit_or ib2_fd (field_prep ib2_dp out.dp);
}

-- `ra_ppe_v1_flow_prepare`: the template of the new entry. `allocated` is whether `kzalloc` worked.
unfoldable pub flow_prepare : Topology → Bool → FlowData → Result Foe
unfolding resolve_output build_foe
flow_prepare t allocated d =
    if d.n_proto != be_eth_p_ip then err eopnotsupp else elim (resolve_output t d) [
      | err e ↦ err e
      | ok out ↦ if allocated then ok (build_foe d out) else err enomem
    ]
