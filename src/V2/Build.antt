-- ===== src/V2/Build.antt =====
-- `ra_ppe_v2_resolve_output`, `ra_ppe_v2_build_ipv4`, `ra_ppe_v2_build_ipv6_5t` and
-- `ra_ppe_v2_flow_prepare` of drivers/net/ethernet/ralink/ra_ppe_v2_offload.c: from a parsed flow to a
-- BIND template. The topology of the switch, which the kernel knows, is a parameter.
use ralink_fe.Base.{update, ltb, ◌==◌, ◌!=◌, if◌then◌else◌, bit_and, bit_or}
use ralink_fe.Base.{ℕ, ◌+◌, ◌*◌, ◌%◌, ◌^◌, Bool, true, false, not, ◌&&◌, ◌||◌, Option, none, some}
use ralink_fe.Base.Field.{field_prep}
use ralink_fe.Flow.{
  eopnotsupp, enomem, Result, ok, err, FlowData, swap16, swap32, be_eth_p_ip, be_eth_p_ipv6,
  be_eth_p_8021q, ipproto_udp, eth_p_ip, eth_p_8021q,
}
use ralink_fe.V1.Build.{Bridge, no_bridge, vlan_bridge, plain_bridge, DsaPort}
use ralink_fe.V2.{
  FoeEntry, zero_entry, halves, set_mac_hi, set_mac_lo, foe_state_invalid, foe_ipv4_hnapt,
  foe_ipv6_5t_route, ib1_pkt_type, ib1_udp, ib1_vlan_layer, ib1_pppoe, ib1_ttl, ib1_keepalive,
  ib1_state, ib2_fpidx, ib2_port_mg, ib2_port_ag, fpidx_lookup,
}
use ralink_fe.V2.Offload.{ipv6_to_foe}

-- `struct ra_ppe_v2_output`
pub record EntryOutput : Type 0 where
  pub tag1 : ℕ  -- vlan1, u16
  pub tag2 : ℕ  -- vlan2, u16
  pub vlan_layers : ℕ  -- u8
  pub has_pppoe : Bool
  pub session : ℕ  -- pppoe_id, u16
  pub fpidx : ℕ  -- u8

abbrev pub no_output : EntryOutput
no_output = record {
  tag1 = 0;
  tag2 = 0;
  vlan_layers = 0;
  has_pppoe = false;
  session = 0;
  fpidx = 0;
}

-- A port of the switch with its index.
pub record SwitchPort : Type 0 where
  pub index : ℕ
  pub port : DsaPort

-- What `ra_ppe_v2_resolve_output` asks of the kernel: the port of a device, if it is one, and whether a
-- device is the frame engine's.
pub record Switch : Type 0 where
  pub port_from_netdev : Option ℕ → Option SwitchPort
  pub is_own_ndev : Option ℕ → Bool

-- `ra_ppe_v2_vlan_tci`
unfoldable pub vlan_tci : ℕ → ℕ → ℕ
vlan_tci vid prio = bit_or (bit_and vid 0x0fff) (bit_and (prio * 2 ^ 13) 0xe000)

-- One tag in front of what `out` has.
abbrev pub one_tag : EntryOutput → ℕ → EntryOutput
one_tag out tag = record out { tag1 = tag; vlan_layers = 1 }

-- The label `pppoe`.
unfoldable pub entry_pppoe : FlowData → EntryOutput → EntryOutput
entry_pppoe d out =
    if d.pppoe.push then record out { has_pppoe = true; session = d.pppoe.sid } else out

-- To a port of the switch, by the bridge that it is in.
unfoldable pub entry_port : FlowData → SwitchPort → Bridge → Result EntryOutput
entry_port d p (vlan_bridge pvid) =
    let out : EntryOutput = record no_output { fpidx = p.index } in
    if d.vlan.push
    then ok (entry_pppoe d (one_tag out (vlan_tci d.vlan.push_vid d.vlan.push_prio)))
    else if d.vlan.pop
    then ok (entry_pppoe d out)
    else elim pvid [ ok tag ↦ ok (entry_pppoe d (one_tag out tag)) | err e ↦ err e ]
entry_port d p (plain_bridge vid) =
    ok (entry_pppoe d (one_tag (record no_output { fpidx = p.index }) vid))
entry_port d p no_bridge =
    ok (entry_pppoe d (one_tag (record no_output { fpidx = p.index }) p.port.standalone_vid))

-- To the frame engine's own device.
unfoldable pub entry_direct : FlowData → EntryOutput
entry_direct d =
    let out : EntryOutput = record no_output { fpidx = fpidx_lookup } in
    entry_pppoe d
      (if d.vlan.push then one_tag out (vlan_tci d.vlan.push_vid d.vlan.push_prio) else out)

-- `ra_ppe_v2_resolve_output`
unfoldable pub entry_resolve : Switch → FlowData → Result EntryOutput
entry_resolve s d =
    if d.vlan.push && (d.vlan.push_proto != be_eth_p_8021q)
    then err eopnotsupp
    else elim (s.port_from_netdev d.out_dev) [
      | some p ↦
          if not p.port.ralink_8021q
          then err eopnotsupp
          else if ltb 5 p.index
          then err eopnotsupp
          else entry_port d p p.port.bridge
      | none ↦ if s.is_own_ndev d.out_dev then ok (entry_direct d) else err eopnotsupp
    ]

-- `ra_ppe_v2_build_ib1`, `ra_ppe_v2_build_ib2`
unfoldable pub entry_ib1 : ℕ → EntryOutput → ℕ → ℕ
entry_ib1 l4proto out type =
    let pkt_type : ℕ = field_prep ib1_pkt_type type in
    let typed : ℕ = if l4proto == ipproto_udp then bit_or pkt_type ib1_udp else pkt_type in
    let vlan : ℕ = bit_or typed (field_prep ib1_vlan_layer out.vlan_layers) in
    let pppoe : ℕ = if out.has_pppoe then bit_or vlan ib1_pppoe else vlan in
    bit_or (bit_or (bit_or pppoe ib1_ttl) ib1_keepalive) (field_prep ib1_state foe_state_invalid)

unfoldable pub entry_ib2 : EntryOutput → ℕ
entry_ib2 out =
    bit_or (bit_or (field_prep ib2_fpidx out.fpidx) (field_prep ib2_port_ag 0x3f))
      (field_prep ib2_port_mg 0x3f)

abbrev pub eth_p_ppp_ses : ℕ
eth_p_ppp_ses = 0x8864

abbrev pub entry_tag1 : EntryOutput → ℕ
entry_tag1 out = if out.vlan_layers != 0 then out.tag1 else 0

abbrev pub entry_tag2 : EntryOutput → ℕ
entry_tag2 out = if ltb 1 out.vlan_layers then out.tag2 else 0

-- The five words of the layer-2 header, from word `w` of the entry on.
abbrev pub put_layer2 : ℕ → FlowData → EntryOutput → ℕ → FoeEntry → FoeEntry
put_layer2 w d out etype foe =
    update
      (update
        (update
          (update (update foe w (halves (entry_tag1 out) etype)) (w + 1) (set_mac_hi d.h_dest))
          (w + 2) (halves (entry_tag2 out) (set_mac_lo d.h_dest)))
        (w + 3) (set_mac_hi d.h_source))
      (w + 4) (halves (if out.has_pppoe then out.session else 0) (set_mac_lo d.h_source))

-- `ra_ppe_v2_build_ipv4` of an entry that is all zero.
unfoldable pub build_ipv4 : FlowData → EntryOutput → FoeEntry
build_ipv4 d out =
    let etype : ℕ =
      if out.has_pppoe
      then eth_p_ppp_ses
      else if out.vlan_layers != 0
      then eth_p_8021q
      else eth_p_ip in
    let tuple : FoeEntry =
      update
        (update
          (update (update zero_entry 0 (entry_ib1 d.l4proto out foe_ipv4_hnapt)) 1
            (swap32 (d.src_addr % 2 ^ 32)))
          2 (swap32 (d.dst_addr % 2 ^ 32)))
        3 (halves (swap16 d.dst_port) (swap16 d.src_port)) in
    let translated : FoeEntry =
      update
        (update (update (update tuple 4 (entry_ib2 out)) 5 (swap32 (d.new_src_addr % 2 ^ 32))) 6
          (swap32 (d.new_dst_addr % 2 ^ 32)))
        7 (halves (swap16 d.new_dst_port) (swap16 d.new_src_port)) in
    put_layer2 11 d out etype translated

-- The four words of an address, from word `w` of the entry on.
abbrev pub put_ipv6 : ℕ → ℕ → FoeEntry → FoeEntry
put_ipv6 w addr foe =
    update
      (update (update (update foe w (ipv6_to_foe addr 0)) (w + 1) (ipv6_to_foe addr 1)) (w + 2)
        (ipv6_to_foe addr 2))
      (w + 3) (ipv6_to_foe addr 3)

-- `ra_ppe_v2_build_ipv6_5t` of an entry that is all zero.
unfoldable pub build_ipv6_5t : FlowData → EntryOutput → FoeEntry
build_ipv6_5t d out =
    let etype : ℕ = if out.vlan_layers != 0 then eth_p_8021q else 0 in
    let typed : FoeEntry = update zero_entry 0 (entry_ib1 d.l4proto out foe_ipv6_5t_route) in
    let tuple : FoeEntry = put_ipv6 5 d.dst_addr (put_ipv6 1 d.src_addr typed) in
    put_layer2 15 d out etype
      (update (update tuple 9 (halves (swap16 d.dst_port) (swap16 d.src_port))) 14 (entry_ib2 out))

-- Whether an IPv6 flow is translated.
abbrev pub translates : FlowData → Bool
translates d =
    (d.src_addr != d.new_src_addr)
    || ((d.dst_addr != d.new_dst_addr)
        || ((d.src_port != d.new_src_port) || (d.dst_port != d.new_dst_port)))

-- `ra_ppe_v2_flow_prepare`: the template of the new entry. `allocated` is whether `kzalloc` worked.
unfoldable pub entry_prepare : Switch → Bool → FlowData → Result FoeEntry
entry_prepare s allocated d =
    if (d.n_proto != be_eth_p_ip) && ((d.n_proto != be_eth_p_ipv6) || translates d)
    then err eopnotsupp
    else elim (entry_resolve s d) [
      | err e ↦ err e
      | ok out ↦
          if not allocated
          then err enomem
          else if d.n_proto == be_eth_p_ip
          then ok (build_ipv4 d out)
          else ok (build_ipv6_5t d out)
    ]
