-- ===== src/Tables/Tests.antt =====
-- The flow tables over a hash table that is a list: drivers/net/ethernet/ralink/ra_ppe_offload.c.
use ralink_fe.Base.{update, ◌==◌, arith, Bool-cases}
use ralink_fe.Base.{
  ℕ, ◌+◌, ◌*◌, ◌^◌, ◌≡◌, ◌≢◌, ◌⊎◌, refl, sym, inl, inr, true, false, none, some, [], ◌∷◌,
}
use mathlib.Core.Path.{subst}
use ralink_fe.Base.Field.{field_get}
use ralink_fe.Flow.{FlowKey, FlowEntry, key_eq, key_eq_iff, swap16, swap32}
use ralink_fe.Flow.Match.{ipv4_addrs}
use ralink_fe.Slots.{slot_is_bound}
use ralink_fe.Slots.Table.{not_bound, slot_key}
use ralink_fe.Tables.{
  HashTable, FlowTables, Rule, replace, flow_unlink, mark_dead, flow_replace, flow_destroy,
  flow_flush, OffloadOps, remove_from_hardware, flow_destroy,
}
use ralink_fe.Tables.Laws.{IsHashTable}
use ralink_fe.Tables.System.{World, Reach, here, next, mark, forget, IsSound}
use ralink_fe.Tables.Safety.{bind_is_linked, removed_owns_none}
use ralink_fe.Tables.Rules.{flow_destroy_leaves_none, Replaced, flow_replace-Replaced}
use ralink_fe.Tables.Stop.{now, IsKeyed, flow_flush_lem}
use ralink_fe.Tables.Engines.{v1_ops, v1_ops-Follows}
use ralink_fe.V1.{Foe, zero_foe, foe_state, foe_is_ipv4_hnapt}
use ralink_fe.V1.Offload.{flow_key_from_foe, flow_remove, still_bound, foe_clear_locked}
use ralink_fe.V1.Build.{Topology}
use ralink_fe.V1.Bind.{IsTemplate}
use ralink_fe.V1.Table.{v1_format}
use ralink_fe.Tables.Assoc.{
  Assoc, assoc_table, HasAssoc, top, deeper, find_assoc, assoc_table-IsHashTable,
}

abbrev tuples : HashTable FlowKey (Assoc FlowKey)
tuples = assoc_table key_eq

abbrev cookies : HashTable ℕ (Assoc ℕ)
cookies = assoc_table (λ a b. a == b)

tuple_laws : IsHashTable tuples HasAssoc
tuple_laws = assoc_table-IsHashTable key_eq key_eq_iff

-- PPEv1 on a device that is no port of a switch.
abbrev topology : Topology
topology = record { dsa_port_from_netdev = λ dev. none; is_fe_ndev = λ dev. true }

abbrev ops : OffloadOps Foe
ops = v1_ops topology true

-- Two UDP flows over IPv4, from 10.0.0.1 and 10.0.0.3 to 10.0.0.2, with a template of their type.
abbrev key1 : FlowKey
key1 = record {
  n_proto = 8;
  ip_proto = 17;
  src_port = 0x8813;
  dst_port = 0x3500;
  src = 0x0100000a;
  dst = 0x0200000a;
}

abbrev key2 : FlowKey
key2 = record key1 { src = 0x0300000a }

abbrev flow1 : FlowEntry
flow1 = record { cookie = 7; key = key1; hash = 0; hash_valid = false; dead = false; lastused = 0 }

abbrev flow2 : FlowEntry
flow2 = record { cookie = 8; key = key2; hash = 3; hash_valid = true; dead = false; lastused = 0 }

abbrev template : Foe
template = record zero_foe { info_blk1 = 2 ^ 30 }

-- The BIND of the second flow.
abbrev slot3 : Foe
slot3 = record zero_foe {
  info_blk1 = 2 ^ 30 + 2 * 2 ^ 28;
  sip = 0x0a000003;
  dip = 0x0a000002;
  sport = 5000;
  dport = 53;
}

-- The flows are the objects 1 and 2, and the second one is bound in slot 3.
abbrev tables : FlowTables Foe (Assoc FlowKey) (Assoc ℕ)
tables = record {
  ppe = record {
    foe_table = update (λ i. zero_foe) 3 slot3;
    foe_entries = 1024;
    flows = update (λ e. flow1) 2 flow2;
    binds = λ e. template;
    ralink_dsa = true;
  };
  flow_table = (7, 1) ∷ (8, 2) ∷ [];
  flow_tuple_table = (key1, 1) ∷ (key2, 2) ∷ [];
}

abbrev world : World Foe (Assoc FlowKey) (Assoc ℕ)
world = record { tables = tables; dying = none; is_removed = false }

-- What the tuple table has.
abbrev IsKnown : FlowKey → ℕ → Type 0
IsKnown k e = ((k ≡ key1) × (e ≡ 1)) ⊎ ((k ≡ key2) × (e ≡ 2))

IsKnown-keys : (k : FlowKey) (e : ℕ) → HasAssoc tables.flow_tuple_table k e → IsKnown k e
IsKnown-keys k e top = inl (refl, refl)
IsKnown-keys k e (deeper top) = inr (refl, refl)
IsKnown-keys k e (deeper (deeper h)) = elim h [ ]

unbound : (k : FlowKey) (i : ℕ) → 3 ≢ i → slot_is_bound v1_format (tables.ppe.foe_table i) k ≡ false
unfolding foe_state field_get
unbound k i other = not_bound v1_format (tables.ppe.foe_table i) k (ground arith)

slot3_bound : slot_is_bound v1_format slot3 key2 ≡ true
unfolding slot_is_bound foe_state field_get foe_is_ipv4_hnapt flow_key_from_foe swap16 swap32 key_eq
slot3_bound = refl

template_serves : (k : FlowKey) → k.ip_proto ≡ 17 → IsTemplate k template
unfolding field_get
template_serves k udp = record { hnapt = refl; udp = ground arith }

owner :
    (k : FlowKey) (i : ℕ)
    → slot_is_bound v1_format (tables.ppe.foe_table i) k ≡ true
    → (i ≡ 3) × (k ≡ key2)
owner k i b = elim (Bool-cases (3 == i)) [
  | inl here_ ↦ (ground arith, ground (arith, slot_key v1_format slot3 k key2, slot3_bound))
  | inr other ↦ absurd (ground (arith, unbound k i))
]

world-IsSound : IsSound v1_format IsTemplate HasAssoc tuples cookies ops world
world-IsSound = record {
  table = record {
    keyed = λ k e l. ground (arith, IsKnown-keys k e l);
    template = λ k e l. template_serves k (ground (arith, IsKnown-keys k e l));
    owned = λ k i below b.
        let (at, own) = owner k i b in
        (2, subst (λ t. HasAssoc tables.flow_tuple_table t 2) (sym own) (deeper top), refl, sym at);
  };
  dead = λ e d. ground arith;
  forgotten = λ e d r. ground arith;
}

cookie_known : cookies.lookup 7 tables.flow_table ≡ some 1
unfolding find_assoc
cookie_known = refl

-- The deletion of the first flow, up to its removal from the hardware.
abbrev removing : World Foe (Assoc FlowKey) (Assoc ℕ)
removing = record {
  tables = remove_from_hardware tuples cookies ops 1 (mark_dead tuples cookies 1 tables);
  dying = some 1;
  is_removed = true;
}

removing-Reach : Reach v1_format IsTemplate HasAssoc tuples cookies ops world removing
removing-Reach = next (next here (mark 7 1 refl cookie_known)) (forget 1 refl)

removing_bound :
    (removing.tables.ppe.foe_entries ≡ 1024)
    × (slot_is_bound v1_format (removing.tables.ppe.foe_table 3) key2 ≡ true)
unfolding flow_remove
removing_bound = (refl, slot3_bound)

bind_is_linked_example :
    (e : ℕ) × HasAssoc removing.tables.flow_tuple_table key2 e
    × ((removing.tables.ppe.flows e).key ≡ key2)
    × ((removing.tables.ppe.flows e).hash_valid ≡ true)
    × ((removing.tables.ppe.flows e).hash ≡ 3)
bind_is_linked_example =
    bind_is_linked v1_format IsTemplate HasAssoc tuples cookies ops tuple_laws
      (v1_ops-Follows topology true) world-IsSound removing-Reach key2 3
      (ground (arith, removing_bound)) removing_bound.1

removed_owns_none_example :
    (x : ℕ) × HasAssoc removing.tables.flow_tuple_table key2 x
    × (x ≢ 1)
    × ((removing.tables.ppe.flows x).hash_valid ≡ true)
    × ((removing.tables.ppe.flows x).hash ≡ 3)
removed_owns_none_example =
    removed_owns_none v1_format IsTemplate HasAssoc tuples cookies ops tuple_laws
      (v1_ops-Follows topology true) world-IsSound removing-Reach 1 refl refl key2 3
      (ground (arith, removing_bound)) removing_bound.1

abbrev destroyed : FlowTables Foe (Assoc FlowKey) (Assoc ℕ)
destroyed = flow_destroy tuples cookies ops 8 tables

cookie8_known : cookies.lookup 8 tables.flow_table ≡ some 2
unfolding find_assoc
cookie8_known = refl

destroyed_lem : ((destroyed.ppe.flows 2).key ≡ key2) × (destroyed.ppe.foe_entries ≡ 1024)
unfolding flow_destroy flow_unlink flow_remove still_bound foe_clear_locked
destroyed_lem = (ground (arith, cookie8_known), ground (arith, cookie8_known))

flow_destroy_leaves_none_example :
    slot_is_bound v1_format (destroyed.ppe.foe_table 3) (destroyed.ppe.flows 2).key ≡ false
flow_destroy_leaves_none_example =
    flow_destroy_leaves_none v1_format IsTemplate HasAssoc tuples cookies ops tuple_laws
      (v1_ops-Follows topology true) world 8 2 world-IsSound refl cookie8_known
      (λ x l. ground (arith, IsKnown-keys (destroyed.ppe.flows 2).key x l, destroyed_lem)) 3
      (ground (arith, destroyed_lem))

-- A rule for chain 1 is refused.
abbrev rule : Rule
rule = record {
  command = replace;
  chain_index = 1;
  cookie = 9;
  matches = record {
    unsupported = false;
    has_meta = true;
    has_control = true;
    has_basic = true;
    has_ipv4_addrs = true;
    has_ipv6_addrs = false;
    has_ports = true;
    has_tcp = false;
    ingress_iftype_mask = 0;
    l2_miss_mask = 0;
    addr_type = ipv4_addrs;
    addr_type_mask = 0xffff;
    thoff_mask = 0;
    has_control_flags = false;
    n_proto = record { key = 8; mask = 0xffff };
    ip_proto = record { key = 17; mask = 0xff };
    ipv4_src = record { key = 0x0100000a; mask = 0xffffffff };
    ipv4_dst = record { key = 0x0200000a; mask = 0xffffffff };
    ipv6_src = record { key = 0; mask = 0 };
    ipv6_dst = record { key = 0; mask = 0 };
    src_port = record { key = 0x8813; mask = 0xffff };
    dst_port = record { key = 0x3500; mask = 0xffff };
    tcp_flags = record { key = 0; mask = 0 };
  };
  hw_stats = true;
  actions = [];
}

flow_replace-Replaced_example :
    Replaced tuples cookies ops 3 rule tables
      (flow_replace tuples cookies ops (λ mac. true) 3 rule tables)
flow_replace-Replaced_example = flow_replace-Replaced tuples cookies ops (λ mac. true) 3 rule tables

tables-IsKeyed : IsKeyed HasAssoc tuples cookies tuple_laws tables
unfolding IsKeyed
tables-IsKeyed k e l = ground (arith, IsKnown-keys k e l)

flow_flush_lem_example :
    tuples.lookup key1 (flow_flush tuples cookies tables).flow_tuple_table ≢ some 1
flow_flush_lem_example =
    flow_flush_lem HasAssoc tuples cookies tuple_laws tables key1 1 tables-IsKeyed now
