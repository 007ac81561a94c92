-- ===== src/Flow/Match.antt =====
-- `ra_flow_parse_match` of drivers/net/ethernet/ralink/ra_ppe_offload.c. The match of a flower rule
-- is the kernel's: it is a record of what the parser reads of it, and a set of keys is a Boolean for
-- each key.
use ralink_fe.Base.{arith, ◌==◌, ◌!=◌, if◌then◌else◌, bit_or}
use ralink_fe.Base.{ℕ, ◌-◌, ◌/◌, ◌^◌, ◌≡◌, ◌⊎◌, refl, Bool, true, false, not, ◌&&◌, ◌||◌}
use ralink_fe.Flow.{
  Result, ok, err, eopnotsupp, FlowData, swap16, swap32, be_eth_p_ip, be_eth_p_ipv6, ipproto_tcp,
  ipproto_udp,
}
use ralink_fe.Flow.Mangle.{put_ipv4}

-- A value and its mask.
pub record Masked : Type 0 where
  pub key : ℕ
  pub mask : ℕ

-- `enum flow_dissector_key_id`, as far as an address type goes.
pub data AddrType : Type 0 where
  ipv4_addrs ipv6_addrs other_addrs : AddrType

abbrev pub is_ipv4_addrs : AddrType → Bool
is_ipv4_addrs ipv4_addrs = Bool.true
is_ipv4_addrs _ = Bool.false

abbrev pub is_ipv6_addrs : AddrType → Bool
is_ipv6_addrs ipv6_addrs = Bool.true
is_ipv6_addrs _ = Bool.false

pub record Match : Type 0 where
  -- Which keys the rule uses; `unsupported` is any but these.
  pub unsupported : Bool
  pub has_meta : Bool
  pub has_control : Bool
  pub has_basic : Bool
  pub has_ipv4_addrs : Bool
  pub has_ipv6_addrs : Bool
  pub has_ports : Bool
  pub has_tcp : Bool
  pub ingress_iftype_mask : ℕ
  pub l2_miss_mask : ℕ
  pub addr_type : AddrType
  pub addr_type_mask : ℕ
  pub thoff_mask : ℕ
  -- `flow_rule_has_control_flags` of the mask's flags.
  pub has_control_flags : Bool
  pub n_proto : Masked
  pub ip_proto : Masked
  pub ipv4_src : Masked
  pub ipv4_dst : Masked
  pub ipv6_src : Masked
  pub ipv6_dst : Masked
  pub src_port : Masked
  pub dst_port : Masked
  pub tcp_flags : Masked

-- `TCP_FLAG_RST`, `TCP_FLAG_FIN`, which are __be32.
abbrev pub tcp_flag_rst : ℕ
tcp_flag_rst = swap32 0x00040000

abbrev pub tcp_flag_fin : ℕ
tcp_flag_fin = swap32 0x00010000

-- The flags that a TCP rule has to exclude.
abbrev pub expected_flags : ℕ
expected_flags = swap16 (swap32 (bit_or tcp_flag_rst tcp_flag_fin) / 2 ^ 16)

-- The tests up to the protocol.
unfoldable pub match_head : Match → Bool
match_head m =
    not m.unsupported
    && ((m.has_meta && (m.has_control && (m.has_basic && m.has_ports)))
        && (not ((m.ingress_iftype_mask != 0) || (m.l2_miss_mask != 0))
            && ((m.addr_type_mask == 0xffff)
                && (not ((m.thoff_mask != 0) || m.has_control_flags)
                    && (not ((m.n_proto.mask != 0xffff) || (m.ip_proto.mask != 0xff))
                        && ((m.ip_proto.key == ipproto_tcp) || (m.ip_proto.key == ipproto_udp)))))))

-- The `switch` on the network protocol.
unfoldable pub match_addrs : Match → FlowData → Result FlowData
match_addrs m d =
    if d.n_proto == be_eth_p_ip
    then (if not (is_ipv4_addrs m.addr_type) || not m.has_ipv4_addrs
        then err eopnotsupp
        else if (m.ipv4_src.mask != 2 ^ 32 - 1) || (m.ipv4_dst.mask != 2 ^ 32 - 1)
        then err eopnotsupp
        else ok (record d {
          src_addr = put_ipv4 d.src_addr m.ipv4_src.key;
          dst_addr = put_ipv4 d.dst_addr m.ipv4_dst.key;
        }))
    else if d.n_proto == be_eth_p_ipv6
    then (if not (is_ipv6_addrs m.addr_type) || not m.has_ipv6_addrs
        then err eopnotsupp
        else if (m.ipv6_src.mask != 2 ^ 128 - 1) || (m.ipv6_dst.mask != 2 ^ 128 - 1)
        then err eopnotsupp
        else ok (record d { src_addr = m.ipv6_src.key; dst_addr = m.ipv6_dst.key }))
    else err eopnotsupp

-- The ports, and the flags that a TCP rule has and no other.
unfoldable pub match_ports : Match → Result FlowData → Result FlowData
match_ports m (err e) = err e
match_ports m (ok d) =
    let ported : FlowData = record d { src_port = m.src_port.key; dst_port = m.dst_port.key } in
    if (m.src_port.mask != 0xffff) || (m.dst_port.mask != 0xffff)
    then err eopnotsupp
    else if d.l4proto == ipproto_tcp
    then (if not m.has_tcp
        then err eopnotsupp
        else if (m.tcp_flags.key != 0) || (m.tcp_flags.mask != expected_flags)
        then err eopnotsupp
        else ok ported)
    else if m.has_tcp
    then err eopnotsupp
    else ok ported

-- `ra_flow_parse_match`; on an error the data is not used again.
unfoldable pub parse_match : Match → FlowData → Result FlowData
unfolding match_head match_ports match_addrs
parse_match m d =
    if match_head m
    then match_ports m
        (match_addrs m (record d { n_proto = m.n_proto.key; l4proto = m.ip_proto.key }))
    else err eopnotsupp

-- What an accepted rule is: an exact match of the five-tuple, of a TCP flow without FIN and RST or a
-- UDP flow, over one of the two network protocols.
pub record IsExact (m : Match) : Type 0 where
  pub protocol : (m.ip_proto.key ≡ ipproto_tcp) ⊎ (m.ip_proto.key ≡ ipproto_udp)
  pub masks : (m.n_proto.mask ≡ 0xffff) × (m.ip_proto.mask ≡ 0xff)
  pub ports : (m.src_port.mask ≡ 0xffff) × (m.dst_port.mask ≡ 0xffff)
  pub addrs :
      ((m.n_proto.key ≡ be_eth_p_ip)
        × ((m.ipv4_src.mask ≡ 0xffffffff) × (m.ipv4_dst.mask ≡ 0xffffffff)))
      ⊎ ((m.n_proto.key ≡ be_eth_p_ipv6)
          × ((m.ipv6_src.mask ≡ 2 ^ 128 - 1) × (m.ipv6_dst.mask ≡ 2 ^ 128 - 1)))
  pub closing :
      m.ip_proto.key ≡ ipproto_tcp
      → (m.has_tcp ≡ true) × ((m.tcp_flags.key ≡ 0) × (m.tcp_flags.mask ≡ 0x0500))
  pub only_tcp : m.ip_proto.key ≡ ipproto_udp → m.has_tcp ≡ false

-- The parsed tuple is the rule's.
pub record IsTuple (m : Match) (d d' : FlowData) : Type 0 where
  pub proto : (d'.n_proto ≡ m.n_proto.key) × (d'.l4proto ≡ m.ip_proto.key)
  pub ports : (d'.src_port ≡ m.src_port.key) × (d'.dst_port ≡ m.dst_port.key)
  pub ipv4 :
      d'.n_proto ≡ be_eth_p_ip
      → (d'.src_addr ≡ put_ipv4 d.src_addr m.ipv4_src.key)
        × (d'.dst_addr ≡ put_ipv4 d.dst_addr m.ipv4_dst.key)
  pub ipv6 :
      d'.n_proto ≡ be_eth_p_ipv6 → (d'.src_addr ≡ m.ipv6_src.key) × (d'.dst_addr ≡ m.ipv6_dst.key)
  pub kept : (d'.vlan ≡ d.vlan) × ((d'.pppoe ≡ d.pppoe) × (d'.out_dev ≡ d.out_dev))

expected_flags_lem : expected_flags ≡ 0x0500
unfolding swap16 swap32
expected_flags_lem = refl

-- A match that is accepted is exact, and the data holds the rule's tuple.
pub parse_match_lem :
    (m : Match) (d d' : FlowData) → parse_match m d ≡ ok d' → IsExact m × IsTuple m d d'
unfolding parse_match match_head match_ports match_addrs
parse_match_lem m d d' h = (
  record {
    protocol = ground arith;
    masks = ground arith;
    ports = ground arith;
    addrs = ground arith;
    closing = λ tcp. ground (arith, expected_flags_lem);
    only_tcp = λ udp. ground arith;
  },
  record {
    proto = ground arith;
    ports = ground arith;
    ipv4 = λ ip. ground arith;
    ipv6 = λ ip. ground arith;
    kept = ground arith;
  },
)
