-- ===== src/Flow/Tests.antt =====
-- Example runs of the rule parser of drivers/net/ethernet/ralink/ra_ppe_offload.c.
use ralink_fe.Base.{ℕ, ◌≡◌, refl}
use ralink_fe.Base.{true, false, none, some, List, [], ◌∷◌}
use ralink_fe.Flow.{ok, FlowData, Mac, flow_key_from_data, be_eth_p_ip, ipproto_udp, swap16, swap32}
use ralink_fe.Flow.Mangle.{Mangle, mangle_eth, mangle_ports}
use ralink_fe.Flow.Match.{
  Match, ipv4_addrs, parse_match, match_head, match_ports, match_addrs, parse_match_lem, IsExact,
  IsTuple,
}
use ralink_fe.Flow.Actions.{
  Action, mangle, eth_header, udp_header, redirect, csum, vlan_push, first_action, first_pass,
  second_action, second_pass, after_first, parse_actions, validate_csum,
}
use ralink_fe.Flow.Parse.{devices, pushed_vids, parse_actions_lem}

abbrev zero_mac : Mac
zero_mac = record { m0 = 0; m1 = 0; m2 = 0; m3 = 0; m4 = 0; m5 = 0 }

abbrev zero_data : FlowData
zero_data = record {
  h_dest = zero_mac;
  h_source = zero_mac;
  n_proto = 0;
  l4proto = 0;
  src_addr = 0;
  dst_addr = 0;
  new_src_addr = 0;
  new_dst_addr = 0;
  src_port = 0;
  dst_port = 0;
  new_src_port = 0;
  new_dst_port = 0;
  out_dev = none;
  vlan = record { push = false; pop = false; push_proto = 0; push_vid = 0; push_prio = 0 };
  pppoe = record { push = false; sid = 0 };
}

-- The last two bytes of the destination become 0x44 and 0x55.
abbrev dest_tail : Mangle
dest_tail = record { offset = 4; mask = 0xffff0000; val = 0x5544 }

dest_tail_run :
    mangle_eth dest_tail zero_data
    ≡ ok (record zero_data { h_dest = record zero_mac { m4 = 0x44; m5 = 0x55 } })
unfolding mangle_eth
dest_tail_run = refl

-- The source port becomes 80.
abbrev source_port : Mangle
source_port = record { offset = 0; mask = 0xffff0000; val = 0x5000 }

source_port_run :
    mangle_ports source_port zero_data ≡ ok (record zero_data { new_src_port = 0x5000 })
unfolding mangle_ports swap16 swap32
source_port_run = refl

-- UDP from 10.0.0.1:5000 to 10.0.0.2:53.
abbrev rule : Match
rule = record {
  unsupported = false;
  has_meta = true;
  has_control = true;
  has_basic = true;
  has_ipv4_addrs = true;
  has_ipv6_addrs = false;
  has_ports = true;
  has_tcp = false;
  ingress_iftype_mask = 0;
  l2_miss_mask = 0;
  addr_type = ipv4_addrs;
  addr_type_mask = 0xffff;
  thoff_mask = 0;
  has_control_flags = false;
  n_proto = record { key = be_eth_p_ip; mask = 0xffff };
  ip_proto = record { key = ipproto_udp; mask = 0xff };
  ipv4_src = record { key = 0x0100000a; mask = 0xffffffff };
  ipv4_dst = record { key = 0x0200000a; mask = 0xffffffff };
  ipv6_src = record { key = 0; mask = 0 };
  ipv6_dst = record { key = 0; mask = 0 };
  src_port = record { key = 0x8813; mask = 0xffff };
  dst_port = record { key = 0x3500; mask = 0xffff };
  tcp_flags = record { key = 0; mask = 0 };
}

abbrev matched : FlowData
matched = record zero_data {
  n_proto = be_eth_p_ip;
  l4proto = ipproto_udp;
  src_addr = 0x0100000a;
  dst_addr = 0x0200000a;
  src_port = 0x8813;
  dst_port = 0x3500;
}

match_run : parse_match rule zero_data ≡ ok matched
unfolding parse_match match_head match_ports match_addrs
match_run = refl

parse_match_lem_example : IsExact rule × IsTuple rule zero_data matched
parse_match_lem_example = parse_match_lem rule zero_data matched match_run

abbrev acts : List Action
acts =
    mangle eth_header dest_tail
    ∷ redirect (some 3)
    ∷ csum 17
    ∷ vlan_push 0x0081 100 0
    ∷ mangle udp_header source_port
    ∷ []

abbrev parsed : FlowData
parsed = record matched {
  h_dest = record zero_mac { m4 = 0x44; m5 = 0x55 };
  out_dev = some 3;
  vlan = record { push = true; pop = false; push_proto = 0x0081; push_vid = 100; push_prio = 0 };
  new_src_port = 0x5000;
}

actions_run : parse_actions true acts matched ≡ ok parsed
unfolding parse_actions first_pass first_action second_pass second_action after_first validate_csum
    mangle_eth mangle_ports swap16 swap32
actions_run = refl

parse_actions_lem_example :
    ((dev : ℕ) × (parsed.out_dev ≡ some dev) × (devices acts ≡ dev ∷ []))
    × (pushed_vids acts ≡ 100 ∷ [])
    × (flow_key_from_data parsed ≡ flow_key_from_data matched)
parse_actions_lem_example = parse_actions_lem true acts matched parsed refl refl actions_run
