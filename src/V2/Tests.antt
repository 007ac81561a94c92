-- ===== src/V2/Tests.antt =====
-- Example runs of the PPEv2 code: drivers/net/ethernet/ralink/ra_ppe_v2_offload.c.
use ralink_fe.Base.{
  arith, update, ◌==◌, if◌then◌else◌, ℕ, ◌+◌, ◌*◌, ◌^◌, ◌≡◌, ◌≢◌, ◌⊎◌, refl, inl, inr,
}
use ralink_fe.Base.{true, false, Option, none, some, Bool-cases, not, ◌&&◌}
use ralink_fe.Base.Field.{field_get}
use ralink_fe.Mmio.{Regs}
use ralink_fe.Flow.{
  FlowKey, FlowEntry, FlowData, Mac, key_eq, key_eq_iff, flow_key_from_data, be_eth_p_ip,
  be_eth_p_ipv6, ipproto_udp, ok, swap16, swap32,
}
use ralink_fe.Slots.{Ppe, slot_is_bound, check}
use ralink_fe.Slots.Table.{not_bound}
use ralink_fe.V1.Build.{no_bridge}
use ralink_fe.V2.{
  FoeEntry, zero_entry, entry_state, entry_is_unbind, get_mac, set_mac_hi, set_mac_lo,
  get_mac-set_mac,
}
use ralink_fe.V2.Offload.{
  ipv6_to_foe, ipv6_from_foe, ipv6_from_foe-ipv6_to_foe, key_from_entry, entry_is_bound,
  entry_check, entry_found, entry_promote, cache_clear,
}
use ralink_fe.V2.Table.{EntryValid, v2_format, outcome, entry_check-check}
use ralink_fe.V2.Owners.{entry_check-EntryValid, entry_check_promotes}
use ralink_fe.V2.Build.{
  EntryOutput, no_output, Switch, SwitchPort, entry_resolve, entry_port, entry_pppoe, entry_prepare,
  build_ipv6_5t,
}
use ralink_fe.V2.Template.{Serves, entry_prepare_lem}

abbrev mac : Mac
mac = record { m0 = 0; m1 = 0x11; m2 = 0x22; m3 = 0x33; m4 = 0x44; m5 = 0x55 }

get_mac-set_mac_example : get_mac (set_mac_hi mac) (set_mac_lo mac) ≡ mac
get_mac-set_mac_example =
    get_mac-set_mac mac
      (omega arith, omega arith, omega arith, omega arith, omega arith, omega arith)

-- 2001:db8::1 and 2001:db8::2
abbrev host1 : ℕ
host1 = 0xb80d0120 + 2 ^ 120

abbrev host2 : ℕ
host2 = 0xb80d0120 + 2 ^ 121

ipv6_example : ipv6_from_foe (ipv6_to_foe host1) ≡ host1
ipv6_example = ipv6_from_foe-ipv6_to_foe host1 (omega arith)

-- A UDP flow over IPv6 from port 5000 to port 53.
abbrev flow : FlowData
flow = record {
  h_dest = mac;
  h_source = mac;
  n_proto = be_eth_p_ipv6;
  l4proto = ipproto_udp;
  src_addr = host1;
  dst_addr = host2;
  new_src_addr = host1;
  new_dst_addr = host2;
  src_port = 0x8813;
  dst_port = 0x3500;
  new_src_port = 0x8813;
  new_dst_port = 0x3500;
  out_dev = some 4;
  vlan = record { push = false; pop = false; push_proto = 0; push_vid = 0; push_prio = 0 };
  pppoe = record { push = false; sid = 0 };
}

abbrev key : FlowKey
key = flow_key_from_data flow

-- Device 4 is port 3 of the switch, in no bridge.
abbrev port3 : SwitchPort
port3 = record {
  index = 3;
  port = record { ralink_8021q = true; bridge = no_bridge; standalone_vid = 0xc03 };
}

abbrev switch : Switch
switch = record {
  port_from_netdev = λ dev. elim dev [ none ↦ none | some n ↦ if n == 4 then some port3 else none ];
  is_own_ndev = λ dev. false;
}

abbrev output : EntryOutput
output = record no_output { fpidx = 3; tag1 = 0xc03; vlan_layers = 1 }

resolve_run : entry_resolve switch flow ≡ ok output
unfolding entry_resolve entry_port entry_pppoe
resolve_run = refl

abbrev template : FoeEntry
template = build_ipv6_5t flow output

prepare_run : entry_prepare switch true flow ≡ ok template
unfolding entry_prepare
prepare_run = ground (arith, resolve_run)

entry_prepare_lem_example :
    Serves key template
    × ((flow.n_proto ≡ be_eth_p_ip)
        ⊎ ((flow.src_addr ≡ flow.new_src_addr)
            × (flow.dst_addr ≡ flow.new_dst_addr)
            × (flow.src_port ≡ flow.new_src_port)
            × (flow.dst_port ≡ flow.new_dst_port)))
entry_prepare_lem_example =
    entry_prepare_lem switch true flow template (inr refl) (omega arith) (omega arith) (omega arith)
      (omega arith) prepare_run

-- Slot 3 as the hardware learns it: UNBIND, IPv6, UDP, with the flow's tuple.
abbrev learned : FoeEntry
learned = update template 0 (2 ^ 28 + 2 ^ 30 + 5 * 2 ^ 25)

abbrev entry : FlowEntry
entry = record { cookie = 1; key = key; hash = 0; hash_valid = false; dead = false; lastused = 0 }

abbrev ppe : Ppe FoeEntry
ppe = record {
  foe_table = update (λ _. zero_entry) 3 learned;
  foe_entries = 1024;
  flows = λ _. entry;
  binds = λ _. template;
  ralink_dsa = true;
}

abbrev regs : Regs
regs = λ reg. 0

-- The hash table that holds the one flow.
abbrev lookup : FlowKey → Option ℕ
lookup k = if key_eq k key then some 0 else none

lookup_key : (k : FlowKey) (e : ℕ) → lookup k ≡ some e → k ≡ key
lookup_key k e l = ground (arith, key_eq_iff k key)

lookup-key : lookup key ≡ some 0
lookup-key = ground (arith, key_eq_iff key key)

unbound : (k : FlowKey) (i : ℕ) → slot_is_bound v2_format (ppe.foe_table i) k ≡ false
unfolding entry_state field_get
unbound k i = elim (Bool-cases (3 == i)) [
  | inl here ↦ not_bound v2_format (ppe.foe_table i) k (ground arith)
  | inr other ↦ not_bound v2_format (ppe.foe_table i) k (ground arith)
]

ppe-EntryValid : EntryValid lookup ppe
ppe-EntryValid = record {
  found = λ k e l. ground (arith, key_eq_iff k key);
  template = λ k e l. rw (lookup_key k e l) (entry_prepare_lem_example.0.0);
  authorized = λ k i below b. absurd (ground (arith, unbound k i));
  remembered = λ k e i l below b. absurd (ground (arith, unbound k i));
}

entry_check-EntryValid_example : EntryValid lookup (entry_check lookup 77 500 3 false regs ppe).ppe
entry_check-EntryValid_example =
    entry_check-EntryValid lookup 77 500 3 regs ppe false ppe-EntryValid

learned_key : key_from_entry learned ≡ some key
unfolding key_from_entry field_get ipv6_from_foe ipv6_to_foe flow_key_from_data swap16 swap32
    build_ipv6_5t
learned_key = refl

promotion : (entry_check lookup 77 500 3 false regs ppe).answer ≡ true
unfolding entry_check entry_found entry_promote entry_is_unbind entry_state field_get
promotion = ground (arith, lookup-key, learned_key)

entry_check_promotes_example :
    let c = entry_check lookup 77 500 3 false regs ppe in
    (k : FlowKey) × (e : ℕ) × (key_from_entry (ppe.foe_table 3) ≡ some k)
    × (lookup k ≡ some e)
    × (((ppe.flows e).dead ≡ false)
        × ((c.ppe.flows e).hash_valid ≡ true)
        × ((c.ppe.flows e).hash ≡ 3))
    × (entry_is_bound (c.ppe.foe_table 3) k ≡ true)
    × ((i : ℕ) → 3 ≢ i → c.ppe.foe_table i ≡ ppe.foe_table i)
entry_check_promotes_example =
    entry_check_promotes lookup 77 500 3 regs ppe ppe-EntryValid promotion

entry_check-check_example :
    let c = entry_check lookup 77 500 3 false regs ppe in
    (outcome c ≡ check v2_format lookup 77 500 3 false ppe)
    × (c.regs ≡ (if c.answer && not false then cache_clear regs else regs))
entry_check-check_example = entry_check-check 77 500 3 false regs ppe lookup
