-- ===== src/V1/Rule.antt =====
-- From a flower rule to a PPEv1 template: the calls of `ra_ppe_flow_replace` of
-- drivers/net/ethernet/ralink/ra_ppe_offload.c up to `ops->prepare`, one after another.
use ralink_fe.Base.{arith}
use ralink_fe.Base.{◌%◌, ◌^◌, ◌<◌, ◌≡◌, inl, inr, Bool, false, none, List}
use ralink_fe.Flow.{
  ok, FlowData, FlowKey, Mac, flow_key_from_data, flow_init_nat_defaults, be_eth_p_ip,
}
use ralink_fe.Flow.Match.{Match, parse_match, parse_match_lem}
use ralink_fe.Flow.Actions.{Action, parse_actions}
use ralink_fe.Flow.Parse.{Result-cases, parse_actions_lem}
use ralink_fe.V1.{Foe, foe_state}
use ralink_fe.V1.Offload.{flow_key_from_foe}
use ralink_fe.V1.Build.{Topology, Output, resolve_output, build_foe, flow_prepare}
use ralink_fe.V1.Bind.{IsTemplate, build_foe-IsTemplate}

abbrev no_mac : Mac
no_mac = record { m0 = 0; m1 = 0; m2 = 0; m3 = 0; m4 = 0; m5 = 0 }

-- `struct ra_flow_data data = {}`
abbrev pub zero_data : FlowData
zero_data = record {
  h_dest = no_mac;
  h_source = no_mac;
  n_proto = 0;
  l4proto = 0;
  src_addr = 0;
  dst_addr = 0;
  new_src_addr = 0;
  new_dst_addr = 0;
  src_port = 0;
  dst_port = 0;
  new_src_port = 0;
  new_dst_port = 0;
  out_dev = none;
  vlan = record { push = false; pop = false; push_proto = 0; push_vid = 0; push_prio = 0 };
  pppoe = record { push = false; sid = 0 };
}

-- The tuple that an IPv4 rule matches.
abbrev pub rule_key : Match → FlowKey
rule_key m = record {
  n_proto = be_eth_p_ip;
  ip_proto = m.ip_proto.key;
  src_port = m.src_port.key;
  dst_port = m.dst_port.key;
  src = m.ipv4_src.key % 2 ^ 32;
  dst = m.ipv4_dst.key % 2 ^ 32;
}

pub flow_prepare-cases :
    (t : Topology) (allocated : Bool) (d : FlowData) (bind : Foe)
    → flow_prepare t allocated d ≡ ok bind
    → (d.n_proto ≡ be_eth_p_ip) × ((out : Output) × (bind ≡ build_foe d out))
unfolding flow_prepare
flow_prepare-cases t allocated d bind h = elim (Result-cases (resolve_output t d)) [
  | inl (out, e) ↦ (ground arith, (out, ground (arith, e)))
  | inr (e, refused) ↦ absurd (ground (arith, refused))
]

-- The key of the data after both parsers is the rule's.
parsed_key :
    (m : Match) (hw_stats : Bool) (acts : List Action) (d d' : FlowData)
    → parse_match m zero_data ≡ ok d
    → parse_actions hw_stats acts (flow_init_nat_defaults d) ≡ ok d'
    → d'.n_proto ≡ be_eth_p_ip
    → (flow_key_from_data d' ≡ rule_key m)
unfolding flow_init_nat_defaults flow_key_from_data
parsed_key m hw_stats acts d d' h h' ip =
    let matched = parse_match_lem m zero_data d h in
    ground (
      arith,
      matched,
      parse_actions_lem hw_stats acts (flow_init_nat_defaults d) d' (ground (arith, matched))
          (ground (arith, matched)) h',
    )

-- When the rule is parsed and PPEv1 prepares a template from it, the template serves the flow of the
-- rule's own tuple, is not yet valid, and holds that tuple in the form that the hardware compares.
pub flow_prepare_lem :
    (m : Match) (hw_stats : Bool) (acts : List Action) (t : Topology) (allocated : Bool)
    (d d' : FlowData) (bind : Foe)
    → m.src_port.key < 2 ^ 16
    → m.dst_port.key < 2 ^ 16
    → parse_match m zero_data ≡ ok d
    → parse_actions hw_stats acts (flow_init_nat_defaults d) ≡ ok d'
    → flow_prepare t allocated d' ≡ ok bind
    → IsTemplate (rule_key m) bind × ((foe_state bind ≡ 0) × (flow_key_from_foe bind ≡ rule_key m))
unfolding flow_key_from_data
flow_prepare_lem m hw_stats acts t allocated d d' bind sp dp h h' p =
    let (ip, (out, built)) = flow_prepare-cases t allocated d' bind p in
    let key = parsed_key m hw_stats acts d d' h h' ip in
    let exact = (parse_match_lem m zero_data d h).0 in
    ground (
      arith,
      key,
      built,
      build_foe-IsTemplate d' out ip (ground (arith, key, exact)) (ground (arith, key))
          (ground (arith, key)) (ground (arith, key)) (ground (arith, key)),
    )
