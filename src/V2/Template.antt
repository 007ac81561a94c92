-- ===== src/V2/Template.antt =====
-- The template that `ra_ppe_v2_flow_prepare` builds serves the flow that it is built for: the state
-- word and the words of the tuple, for IPv4 and for IPv6.
use ralink_fe.Base.{◌==◌, if◌then◌else◌, bit_or, arith, Bool-cases, Option-cases}
use ralink_fe.Base.{ℕ, ◌^◌, ◌<◌, ◌≤◌, ◌≡◌, ◌⊎◌, refl, inl, inr, ◌∙◌, Bool, true}
use ralink_fe.Base.{some}
use ralink_fe.Base.Field.{Field, field_get, field_prep, field_get-or_left}
use ralink_fe.Slots.Word.{udp_bit}
use ralink_fe.Flow.{
  ok, FlowData, FlowKey, flow_key_from_data, swap16-swap16, swap32-swap32, swap16_lt, ipproto_udp,
  ipproto_tcp, be_eth_p_ip, be_eth_p_ipv6,
}
use ralink_fe.Flow.Parse.{Result-cases}
use ralink_fe.V1.Build.{Bridge, no_bridge, vlan_bridge, plain_bridge}
use ralink_fe.V2.{
  FoeEntry, entry_state, foe_state_invalid, ib1_pkt_type, ib1_udp, ib1_vlan_layer, ib1_pppoe,
  ib1_ttl, ib1_keepalive, ib1_state, foe_ipv4_hnapt, foe_ipv6_5t_route, fpidx_lookup,
}
use ralink_fe.V2.Offload.{words_from, key_from_entry, ipv6_from_foe, ipv6_from_foe-ipv6_to_foe}
use ralink_fe.V2.Word.{udp_bit_test}
use ralink_fe.V2.Table.{IsEntryTemplate}
use ralink_fe.V2.Build.{
  EntryOutput, Switch, SwitchPort, entry_ib1, entry_resolve, entry_port, entry_direct, entry_pppoe,
  build_ipv4, build_ipv6_5t, entry_prepare,
}

-- The type and the protocol, before the VLAN layers and the flags come in.
abbrev typed : ℕ → ℕ → ℕ
typed l4proto type =
    let pkt_type : ℕ = field_prep ib1_pkt_type type in
    if l4proto == ipproto_udp then bit_or pkt_type ib1_udp else pkt_type

-- A field that neither the VLAN layers nor a flag fill is that of the type and the protocol.
entry_ib1-keeps :
    (f : Field) (l4proto type : ℕ) (out : EntryOutput)
    → field_get f (field_prep ib1_vlan_layer out.vlan_layers) ≡ 0
    → field_get f ib1_pppoe ≡ 0
    → field_get f ib1_ttl ≡ 0
    → field_get f ib1_keepalive ≡ 0
    → field_get f 0 ≡ 0
    → field_get f (entry_ib1 l4proto out type) ≡ field_get f (typed l4proto type)
unfolding entry_ib1 field_prep
entry_ib1-keeps f l4proto type out layers pppoe ttl keep zero0 =
    field_get-or_left f _ _ zero0
    ∙ field_get-or_left f _ _ keep
    ∙ field_get-or_left f _ _ ttl
    ∙ elim (Bool-cases out.has_pppoe) [
      | inl session ↦ rw session (field_get-or_left f _ _ pppoe ∙ field_get-or_left f _ _ layers)
      | inr plain ↦ rw plain (field_get-or_left f _ _ layers)
    ]

-- The word of a template: not yet valid, of the type asked for, with the protocol.
pub record EntryBuilt (l4proto type : ℕ) (y : ℕ) : Type 0 where
  pub state : field_get ib1_state y ≡ foe_state_invalid
  pub pkt_type : field_get ib1_pkt_type y ≡ type
  pub udp : field_get udp_bit y ≡ (if l4proto == ipproto_udp then 1 else 0)

typed-EntryBuilt :
    (l4proto type : ℕ)
    → (type ≡ foe_ipv4_hnapt) ⊎ (type ≡ foe_ipv6_5t_route)
    → EntryBuilt l4proto type (typed l4proto type)
unfolding field_get field_prep
typed-EntryBuilt l4proto type (inl v4) = elim (Bool-cases (l4proto == ipproto_udp)) [
  | inl is_udp ↦ rw (v4, is_udp) (record { state = refl; pkt_type = refl; udp = ground arith })
  | inr other ↦ rw (v4, other) (record { state = refl; pkt_type = refl; udp = ground arith })
]
typed-EntryBuilt l4proto type (inr v6) = elim (Bool-cases (l4proto == ipproto_udp)) [
  | inl is_udp ↦ rw (v6, is_udp) (record { state = refl; pkt_type = refl; udp = ground arith })
  | inr other ↦ rw (v6, other) (record { state = refl; pkt_type = refl; udp = ground arith })
]

pub entry_ib1-EntryBuilt :
    (l4proto type : ℕ) (out : EntryOutput)
    → (type ≡ foe_ipv4_hnapt) ⊎ (type ≡ foe_ipv6_5t_route)
    → EntryBuilt l4proto type (entry_ib1 l4proto out type)
unfolding field_get field_prep
entry_ib1-EntryBuilt l4proto type out known =
    let t = typed-EntryBuilt l4proto type known in
    record {
      state =
          entry_ib1-keeps ib1_state l4proto type out (omega arith) refl refl refl refl ∙ t.state;
      pkt_type =
          entry_ib1-keeps ib1_pkt_type l4proto type out (omega arith) refl refl refl refl
          ∙ t.pkt_type;
      udp = entry_ib1-keeps udp_bit l4proto type out (omega arith) refl refl refl refl ∙ t.udp;
    }

-- The addresses of the IPv6 template, read back.
ipv6_addresses :
    (d : FlowData) (out : EntryOutput)
    → d.src_addr < 2 ^ 128
    → d.dst_addr < 2 ^ 128
    → (ipv6_from_foe (words_from 1 (build_ipv6_5t d out)) ≡ d.src_addr)
      × (ipv6_from_foe (words_from 5 (build_ipv6_5t d out)) ≡ d.dst_addr)
unfolding build_ipv6_5t ipv6_from_foe
ipv6_addresses d out sa da =
    (ipv6_from_foe-ipv6_to_foe d.src_addr sa, ipv6_from_foe-ipv6_to_foe d.dst_addr da)

-- What the template of a flow `d` of key `k` has to be.
abbrev pub Serves : FlowKey → FoeEntry → Type 0
Serves k bind =
    IsEntryTemplate k bind × (entry_state bind ≡ foe_state_invalid) × (key_from_entry bind ≡ some k)

module _ (d : FlowData) (out : EntryOutput)
    (proto : (d.l4proto ≡ ipproto_tcp) ⊎ (d.l4proto ≡ ipproto_udp)) (sp : d.src_port < 2 ^ 16)
    (dp : d.dst_port < 2 ^ 16) where
  build_ipv4-Serves :
      d.n_proto ≡ be_eth_p_ip
      → d.src_addr < 2 ^ 32
      → d.dst_addr < 2 ^ 32
      → Serves (flow_key_from_data d) (build_ipv4 d out)
  unfolding build_ipv4 flow_key_from_data key_from_entry entry_state
  build_ipv4-Serves ip sa da =
      let word = entry_ib1-EntryBuilt d.l4proto foe_ipv4_hnapt out (inl refl) in
      let udp = udp_bit_test (entry_ib1 d.l4proto out foe_ipv4_hnapt) in
      let s = swap32-swap32 d.src_addr sa in
      let t = swap32-swap32 d.dst_addr da in
      let p = swap16-swap16 d.src_port sp in
      let q = swap16-swap16 d.dst_port dp in
      ground (arith, word, udp, s, t, p, q, swap16_lt d.src_port, swap16_lt d.dst_port)

  build_ipv6_5t-Serves :
      d.n_proto ≡ be_eth_p_ipv6
      → d.src_addr < 2 ^ 128
      → d.dst_addr < 2 ^ 128
      → Serves (flow_key_from_data d) (build_ipv6_5t d out)
  unfolding build_ipv6_5t flow_key_from_data key_from_entry entry_state
  build_ipv6_5t-Serves ip sa da =
      let word = entry_ib1-EntryBuilt d.l4proto foe_ipv6_5t_route out (inr refl) in
      let udp = udp_bit_test (entry_ib1 d.l4proto out foe_ipv6_5t_route) in
      let s = ipv6_addresses d out sa da in
      let p = swap16-swap16 d.src_port sp in
      let q = swap16-swap16 d.dst_port dp in
      ground (arith, word, udp, s, p, q, swap16_lt d.src_port, swap16_lt d.dst_port)

direct-fpidx : (d : FlowData) → (entry_direct d).fpidx ≡ fpidx_lookup
unfolding entry_direct entry_pppoe
direct-fpidx d = ground arith

-- A port that is accepted is one of the six of the switch or the normal lookup.
port-fpidx :
    (d : FlowData) (p : SwitchPort) (b : Bridge) (out : EntryOutput)
    → entry_port d p b ≡ ok out
    → out.fpidx ≡ p.index
unfolding entry_port entry_pppoe
port-fpidx d p no_bridge out h = ground arith
port-fpidx d p (plain_bridge vid) out h = ground arith
port-fpidx d p (vlan_bridge pvid) out h = elim (Result-cases pvid) [
  | inl (tag, found) ↦ ground (arith, found)
  | inr (e, failed) ↦ ground (arith, failed)
]

-- The egress that `ra_ppe_v2_resolve_output` accepts is one of the ports 0 to 5 of the switch, or 8,
-- the normal lookup, for the driver's own device.
pub entry_resolve-fpidx :
    (s : Switch) (d : FlowData) (out : EntryOutput)
    → entry_resolve s d ≡ ok out
    → (out.fpidx ≤ 5) ⊎ ((out.fpidx ≡ fpidx_lookup) × (s.is_own_ndev d.out_dev ≡ true))
unfolding entry_resolve
entry_resolve-fpidx s d out h = elim (Option-cases (s.port_from_netdev d.out_dev)) [
  | inl own ↦ inr (ground (arith, own, direct-fpidx d), ground (arith, own))
  | inr (p, port) ↦ inl (ground (arith, port, port-fpidx d p p.port.bridge out))
]

-- The template that is prepared from an IPv4 or IPv6 flow of TCP or UDP serves that flow, and an IPv6
-- flow is one that is not translated.
pub entry_prepare_lem :
    (s : Switch) (allocated : Bool) (d : FlowData) (bind : FoeEntry)
    → (d.l4proto ≡ ipproto_tcp) ⊎ (d.l4proto ≡ ipproto_udp)
    → d.src_port < 2 ^ 16
    → d.dst_port < 2 ^ 16
    → d.src_addr < (if d.n_proto == be_eth_p_ip then 2 ^ 32 else 2 ^ 128)
    → d.dst_addr < (if d.n_proto == be_eth_p_ip then 2 ^ 32 else 2 ^ 128)
    → entry_prepare s allocated d ≡ ok bind
    → Serves (flow_key_from_data d) bind
      × ((d.n_proto ≡ be_eth_p_ip)
          ⊎ ((d.src_addr ≡ d.new_src_addr)
              × (d.dst_addr ≡ d.new_dst_addr)
              × (d.src_port ≡ d.new_src_port)
              × (d.dst_port ≡ d.new_dst_port)))
unfolding entry_prepare
entry_prepare_lem s allocated d bind proto sp dp sa da h = elim (Result-cases (entry_resolve s d)) [
  | inr (e, refused) ↦ absurd (ground (arith, refused))
  | inl (out, done) ↦ elim (Bool-cases (d.n_proto == be_eth_p_ip)) [
    | inl ip ↦ (
      let built : bind ≡ build_ipv4 d out = ground (arith, done) in
          rw built
            (build_ipv4-Serves d out proto sp dp (ground arith) (ground arith) (ground arith)),
      inl (ground arith),
    )
    | inr v6 ↦ (
      let built : bind ≡ build_ipv6_5t d out = ground (arith, done) in
          rw built (
            build_ipv6_5t-Serves d out proto sp dp (ground (arith, done)) (ground arith)
              (ground arith)),
      inr (ground (arith, done), ground (arith, done), ground (arith, done), ground (arith, done)),
    )
  ]
]
