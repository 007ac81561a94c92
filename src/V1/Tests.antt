-- ===== src/V1/Tests.antt =====
-- Example runs of the PPEv1 code: drivers/net/ethernet/ralink/ra_ppe_v1_offload.c.
use ralink_fe.Base.{arith, update, ◌==◌, if◌then◌else◌, ℕ, ◌+◌, ◌^◌, ◌≡◌, ◌≢◌, refl, inl, inr}
use ralink_fe.Base.{true, false, Option, none, some, Bool-cases}
use ralink_fe.Base.Field.{field_get}
use ralink_fe.Flow.{
  FlowKey, FlowEntry, FlowData, Mac, key_eq, key_eq_iff, swap16, swap32, flow_key_from_data,
  be_eth_p_ip, ipproto_udp,
}
use ralink_fe.V1.{
  Foe, zero_foe, foe_state, foe_state_bind, foe_state_invalid, foe_is_unbind, foe_is_ipv4_hnapt,
  act_insert,
}
use ralink_fe.V1.Offload.{
  Ppe, flow_key_from_foe, flow_foe_is_bound, foe_commit_locked, flow_remove, offload_check,
  check_found, check_promote,
}
use ralink_fe.V1.Build.{Output, zero_output, build_foe}
use ralink_fe.V1.Bind.{IsTemplate, build_foe-IsTemplate}
use ralink_fe.Slots.{slot_is_bound}
use ralink_fe.Slots.Table.{not_bound}
use ralink_fe.V1.Table.{IsValid, v1_format}
use ralink_fe.V1.Orphans.{offload_check-IsValid, offload_check_promotes}
use ralink_fe.Base.{[], ◌∷◌}
use ralink_fe.Flow.{ok, flow_init_nat_defaults}
use ralink_fe.Flow.Match.{Match, ipv4_addrs, parse_match, match_head, match_ports, match_addrs}
use ralink_fe.Flow.Actions.{
  redirect, parse_actions, first_pass, first_action, second_pass, second_action, after_first,
}
use ralink_fe.V1.{act_none}
use ralink_fe.V1.Build.{Topology, flow_prepare, resolve_output, output_direct, output_pppoe}
use ralink_fe.V1.Rule.{zero_data, rule_key, flow_prepare_lem}
use ralink_fe.V1.Reach.{Reach, Step, foe_commit_locked_order, flow_remove_leaves_none}

abbrev mac : Mac
mac = record { m0 = 0; m1 = 0x11; m2 = 0x22; m3 = 0x33; m4 = 0x44; m5 = 0x55 }

-- A UDP flow from 10.0.0.1:5000 to 10.0.0.2:53.
abbrev flow : FlowData
flow = record {
  h_dest = mac;
  h_source = mac;
  n_proto = be_eth_p_ip;
  l4proto = ipproto_udp;
  src_addr = 0x0100000a;
  dst_addr = 0x0200000a;
  new_src_addr = 0x0300000a;
  new_dst_addr = 0x0200000a;
  src_port = 0x8813;
  dst_port = 0x3500;
  new_src_port = 0x8813;
  new_dst_port = 0x3500;
  out_dev = some 1;
  vlan = record { push = false; pop = false; push_proto = 0; push_vid = 0; push_prio = 0 };
  pppoe = record { push = false; sid = 0 };
}

abbrev output : Output
output = record zero_output { dp = 1; vlan1 = 0xe005; vlan1_action = act_insert }

abbrev key : FlowKey
key = flow_key_from_data flow

abbrev template : Foe
template = build_foe flow output

template_lem :
    IsTemplate key template × (foe_state template ≡ 0) × (flow_key_from_foe template ≡ key)
template_lem =
    build_foe-IsTemplate flow output refl (inr refl) (omega arith) (omega arith) (omega arith)
      (omega arith)

-- The slot 3 as the hardware learns it: UNBIND, UDP, with the flow's tuple.
abbrev learned : Foe
learned = record zero_foe {
  info_blk1 = 2 ^ 28 + 2 ^ 30;
  sip = 0x0a000001;
  dip = 0x0a000002;
  sport = 5000;
  dport = 53;
}

abbrev entry : FlowEntry
entry = record { cookie = 1; key = key; hash = 0; hash_valid = false; dead = false; lastused = 0 }

abbrev ppe : Ppe
ppe = record {
  foe_table = update (λ _. zero_foe) 3 learned;
  foe_entries = 1024;
  flows = λ _. entry;
  binds = λ _. template;
  ralink_dsa = true;
}

-- The hash table that holds the one flow.
abbrev lookup : FlowKey → Option ℕ
lookup k = if key_eq k key then some 0 else none

lookup_key : (k : FlowKey) (e : ℕ) → lookup k ≡ some e → k ≡ key
lookup_key k e l = ground (arith, key_eq_iff k key)

table_unbound : (k : FlowKey) (i : ℕ) → slot_is_bound v1_format (ppe.foe_table i) k ≡ false
unfolding foe_state field_get
table_unbound k i = elim (Bool-cases (3 == i)) [
  | inl here ↦ not_bound v1_format (ppe.foe_table i) k (ground arith)
  | inr other ↦ not_bound v1_format (ppe.foe_table i) k (ground arith)
]

ppe-IsValid : IsValid lookup ppe
ppe-IsValid = record {
  found = λ k e l. ground (arith, key_eq_iff k key);
  template = λ k e l. rw (lookup_key k e l) template_lem.0;
  authorized = λ k i below b. absurd (ground (arith, table_unbound k i));
  remembered = λ k e i l below b. absurd (ground (arith, table_unbound k i));
}

offload_check-IsValid_example : IsValid lookup (offload_check lookup 77 500 3 false ppe).1
offload_check-IsValid_example = offload_check-IsValid lookup 77 500 3 ppe false ppe-IsValid

lookup-key : lookup key ≡ some 0
lookup-key = ground (arith, key_eq_iff key key)

learned_key : flow_key_from_foe learned ≡ key
unfolding flow_key_from_foe flow_key_from_data swap16 swap32
learned_key = refl

promotion : (offload_check lookup 77 500 3 false ppe).0 ≡ true
unfolding offload_check check_found check_promote foe_is_unbind foe_is_ipv4_hnapt foe_state
    field_get
promotion = ground (arith, lookup-key, learned_key)

offload_check_promotes_example :
    let ppe' = (offload_check lookup 77 500 3 false ppe).1 in
    (e : ℕ) × (lookup (flow_key_from_foe (ppe.foe_table 3)) ≡ some e)
    × (((ppe.flows e).dead ≡ false)
        × ((ppe'.flows e).hash_valid ≡ true)
        × ((ppe'.flows e).hash ≡ 3))
    × (flow_foe_is_bound (ppe'.foe_table 3) (ppe.flows e).key ≡ true)
    × ((i : ℕ) → 3 ≢ i → ppe'.foe_table i ≡ ppe.foe_table i)
offload_check_promotes_example = offload_check_promotes lookup 77 500 3 ppe ppe-IsValid promotion

foe_commit_locked_order_example :
    let (between, ppe') = foe_commit_locked 77 3 template ppe in
    (foe_state (between 3) ≡ foe_state_invalid)
    × (foe_state (ppe'.foe_table 3) ≡ foe_state_bind)
    × (record (between 3) { info_blk1 = 0 } ≡ record (ppe'.foe_table 3) { info_blk1 = 0 })
    × ((i : ℕ) → 3 ≢ i → (between i ≡ ppe.foe_table i) × (ppe'.foe_table i ≡ ppe.foe_table i))
foe_commit_locked_order_example = foe_commit_locked_order 77 3 template ppe (omega arith)

-- The table after the slot is bound.
abbrev bound : Ppe
bound = (offload_check lookup 77 500 3 false ppe).1

bound-found : lookup (bound.flows 0).key ≡ some 0
unfolding offload_check check_found check_promote foe_commit_locked
bound-found = ground (arith, lookup-key)

bound-entries : bound.foe_entries ≡ 1024
unfolding offload_check check_found check_promote foe_commit_locked
bound-entries = ground arith

flow_remove_leaves_none_example :
    flow_foe_is_bound ((flow_remove 0 bound).foe_table 3) (bound.flows 0).key ≡ false
flow_remove_leaves_none_example =
    flow_remove_leaves_none lookup ppe-IsValid (Reach.next Reach.here (Step.check 77 500 3 false)) 0
      bound-found 3 (omega (arith, bound-entries))

-- A rule of the same flow, sent out by the frame engine's own device 3.
abbrev rule : Match
rule = record {
  unsupported = false;
  has_meta = true;
  has_control = true;
  has_basic = true;
  has_ipv4_addrs = true;
  has_ipv6_addrs = false;
  has_ports = true;
  has_tcp = false;
  ingress_iftype_mask = 0;
  l2_miss_mask = 0;
  addr_type = ipv4_addrs;
  addr_type_mask = 0xffff;
  thoff_mask = 0;
  has_control_flags = false;
  n_proto = record { key = be_eth_p_ip; mask = 0xffff };
  ip_proto = record { key = ipproto_udp; mask = 0xff };
  ipv4_src = record { key = 0x0100000a; mask = 0xffffffff };
  ipv4_dst = record { key = 0x0200000a; mask = 0xffffffff };
  ipv6_src = record { key = 0; mask = 0 };
  ipv6_dst = record { key = 0; mask = 0 };
  src_port = record { key = 0x8813; mask = 0xffff };
  dst_port = record { key = 0x3500; mask = 0xffff };
  tcp_flags = record { key = 0; mask = 0 };
}

abbrev topology : Topology
topology = record {
  dsa_port_from_netdev = λ dev. none;
  is_fe_ndev = λ dev. elim dev [ none ↦ false | some n ↦ n == 3 ];
}

abbrev matched : FlowData
matched = record zero_data {
  n_proto = be_eth_p_ip;
  l4proto = ipproto_udp;
  src_addr = 0x0100000a;
  dst_addr = 0x0200000a;
  src_port = 0x8813;
  dst_port = 0x3500;
}

abbrev routed : FlowData
routed = record matched {
  new_src_addr = 0x0100000a;
  new_dst_addr = 0x0200000a;
  new_src_port = 0x8813;
  new_dst_port = 0x3500;
  out_dev = some 3;
}

match_run : parse_match rule zero_data ≡ ok matched
unfolding parse_match match_head match_ports match_addrs
match_run = refl

actions_run :
    parse_actions true (redirect (some 3) ∷ []) (flow_init_nat_defaults matched) ≡ ok routed
unfolding parse_actions first_pass first_action second_pass second_action after_first
    flow_init_nat_defaults
actions_run = refl

abbrev direct : Output
direct = record zero_output { dp = 1; vlan1_action = act_none }

prepare_run : flow_prepare topology true routed ≡ ok (build_foe routed direct)
unfolding flow_prepare resolve_output output_direct output_pppoe
prepare_run = refl

flow_prepare_lem_example :
    let bind = build_foe routed direct in
    IsTemplate (rule_key rule) bind
    × ((foe_state bind ≡ 0) × (flow_key_from_foe bind ≡ rule_key rule))
flow_prepare_lem_example =
    flow_prepare_lem rule true (redirect (some 3) ∷ []) topology true matched routed
      (build_foe routed direct) (omega arith) (omega arith) match_run actions_run prepare_run
